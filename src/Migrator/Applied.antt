-- ===== src/Migrator/Applied.antt =====
-- What `ApplyAll` of internal/db/migrator.go does to the database.
use clawbot_server.Base.{
  ℕ, suc, List, [], ◌∷◌, ◌++◌, ◌≡◌, refl, sym, ap, subst, All, Bool-cases, inl, inr, if◌then◌else◌,
}
use clawbot_server.Base.Int.{ℤ}
use clawbot_server.Migrator.{Migration, MigrateError, Result, ok, err}
use clawbot_server.Migrator.Files.{load_migrations}
use clawbot_server.Migrator.Order.{Permutes, IsAscending, IsBelow}
use clawbot_server.Migrator.Loaded.{load_migrations-IsLoaded}
use clawbot_server.Migrator.Pool.{
  Database, State, Outside, has_version, paths, Action, continue, ◌>>=◌, ◌>>◌, call,
  apply_migration, apply_pending, applied_versions, apply_all,
}
use clawbot_server.Migrator.Ends.{Ends, RunsTo, apply_migration-Ends}

-- Migrations that are applied one after the other.
pub data Applies {S : Type 0} (env : Outside S)
    : List Migration → Database S → Database S → Type 0 where
  finished : (db : Database S) → Applies env [] db db
  step :
      (m : Migration) (ms : List Migration) (before between after : Database S)
      → RunsTo env m before between
      → Applies env ms between after
      → Applies env (m ∷ ms) before after

-- The migrations whose version is not applied.
abbrev pub pending : List ℤ → List Migration → List Migration
pending applied [] = []
pending applied (m ∷ ms) =
    let rest = pending applied ms in if has_version m.version applied then rest else m ∷ rest

module _ {S : Type 0} (env : Outside S) where
  abbrev pub IsWhole : Result (Unit {0}) × State S → List Migration → Type 0
  IsWhole (ok u, w) rest = rest ≡ []
  IsWhole (err e, w) rest = Unit {0}

  -- The first of these migrations are applied, in order, and all of them after a success.
  abbrev pub Advances : List Migration → Database S → Result (Unit {0}) × State S → Type 0
  Advances todo before r =
      (done : List Migration) × (rest : List Migration) × (todo ≡ done ++ rest)
      × Applies env done before r.1.db
      × IsWhole r rest

  Advances-none :
      (todo : List Migration) (before : Database S) (e : MigrateError) (w : State S)
      → w.db ≡ before
      → Advances todo before (err e, w)
  Advances-none todo before e w same = (
    [],
    todo,
    refl,
    subst (λ db. Applies env [] before db) (sym same) (Applies.finished before),
    tt,
  )

  Advances-continue :
      (m : Migration) (todo : List Migration) (before : Database S)
      (r : Result (Unit {0}) × State S) (loop : Unit {0} → Action S (Unit {0}))
      → Ends before (RunsTo env m before) r
      → ((w : State S) → Advances todo w.db (loop tt w))
      → Advances (m ∷ todo) before (continue r loop)
  Advances-continue m todo before (ok u, w) loop ran later =
      let (done, rest, split, applied, whole) = later w in
      (m ∷ done, rest, ap (◌∷◌ m) split, Applies.step m done before w.db _ ran applied, whole)
  Advances-continue m todo before (err e, w) loop same later =
      Advances-none (m ∷ todo) before e w same

  apply_pending-Advances :
      (applied : List ℤ) (ms : List Migration) (w : State S)
      → Advances (pending applied ms) w.db (apply_pending env applied ms w)
  unfolding apply_pending
  apply_pending-Advances applied [] w = ([], [], refl, Applies.finished w.db, refl)
  apply_pending-Advances applied (m ∷ ms) w = elim (Bool-cases (has_version m.version applied)) [
    | inl there ↦ rw there (apply_pending-Advances applied ms w)
    | inr absent ↦ rw absent (
        Advances-continue m (pending applied ms) w.db (apply_migration env m w)
          (λ u. apply_pending env applied ms) (apply_migration-Ends env m w)
          (apply_pending-Advances applied ms))
  ]

  call-Advances :
      (todo : List Migration) (e : MigrateError) (loop : Action S (Unit {0})) (w : State S)
      → ((calls : ℕ) → Advances todo w.db (loop (record w { calls = calls })))
      → Advances todo w.db ((call env e >> loop) w)
  call-Advances todo e loop w later = elim (Bool-cases (env.succeeds w.calls)) [
    | inl sent ↦ rw sent (later (suc w.calls))
    | inr failed ↦ rw failed (Advances-none todo w.db e (record w { calls = suc w.calls }) refl)
  ]

  applied_versions-Advances :
      (todo : List Migration) (loop : List ℤ → Action S (Unit {0})) (w : State S)
      → ((calls : ℕ) → Advances todo w.db (loop w.db.versions (record w { calls = calls })))
      → Advances todo w.db ((applied_versions env >>= loop) w)
  applied_versions-Advances todo loop w later = elim (Bool-cases (env.succeeds w.calls)) [
    | inl queried ↦ elim (Bool-cases (env.succeeds (suc w.calls))) [
      | inl read ↦ rw queried (rw read (later (suc (suc w.calls))))
      | inr failed ↦ rw queried (
          rw failed (
            Advances-none todo w.db MigrateError.applied_not_read
              (record w { calls = suc (suc w.calls) }) refl))
    ]
    | inr failed ↦ rw failed (
        Advances-none todo w.db MigrateError.applied_not_queried (record w { calls = suc w.calls })
          refl)
  ]

-- Migrations that are skipped leave the others in order.
All-pending :
    (P : Migration → Type 0) (applied : List ℤ) (ms : List Migration)
    → All P ms
    → All P (pending applied ms)
All-pending P applied [] all = tt
All-pending P applied (m ∷ ms) (first, all) = elim (Bool-cases (has_version m.version applied)) [
  | inl there ↦ rw there (All-pending P applied ms all)
  | inr absent ↦ rw absent (first, All-pending P applied ms all)
]

pending-IsAscending :
    (applied : List ℤ) (ms : List Migration) → IsAscending ms → IsAscending (pending applied ms)
pending-IsAscending applied [] ascending = tt
pending-IsAscending applied (m ∷ ms) (below, ascending) =
    elim (Bool-cases (has_version m.version applied)) [
      | inl there ↦ rw there (pending-IsAscending applied ms ascending)
      | inr absent ↦
          rw absent
            (All-pending (IsBelow m) applied ms below, pending-IsAscending applied ms ascending)
    ]

-- What the run does with the migrations that load.
pub apply_all-Advances_loaded :
    {S : Type 0} (env : Outside S) (ms : List Migration) (w : State S)
    → load_migrations env.order (paths env.files) ≡ ok ms
    → Advances env (pending w.db.versions ms) w.db (apply_all env w)
unfolding apply_all
apply_all-Advances_loaded env ms w loaded =
    let todo = pending w.db.versions ms in
    rw loaded (
      call-Advances env todo _ _ w λ n.
        applied_versions-Advances env todo (λ applied. apply_pending env applied ms)
          (record w { calls = n })
          λ k. apply_pending-Advances env w.db.versions ms (record w { calls = k }))

-- Whichever calls fail, and in whatever order the map of the files is taken, `ApplyAll` applies the
-- first of the migrations whose version is not in the table, each with its script and its version in
-- the table or with neither; and when it succeeds, all of them. Their versions ascend.
pub apply_all-Advances :
    {S : Type 0} (env : Outside S) (ms : List Migration) (w : State S)
    → ((items : List Migration) → Permutes items (env.order items))
    → load_migrations env.order (paths env.files) ≡ ok ms
    → IsAscending (pending w.db.versions ms)
      × Advances env (pending w.db.versions ms) w.db (apply_all env w)
apply_all-Advances env ms w permutes loaded =
    let (ascending, complete, held) =
      load_migrations-IsLoaded env.order (paths env.files) ms permutes loaded in
    (pending-IsAscending w.db.versions ms ascending, apply_all-Advances_loaded env ms w loaded)
