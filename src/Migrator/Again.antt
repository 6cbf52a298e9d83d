-- ===== src/Migrator/Again.antt =====
-- `ApplyAll` of internal/db/migrator.go after it has succeeded.
use mathlib.Core.List.{append-nil}
use clawbot_server.Base.{
  true, List, [], ◌∷◌, ◌++◌, ◌≡◌, refl, sym, ap, subst, ◌∙◌, ◌⊎◌, inl, inr, Bool-cases, All, arith,
}
use clawbot_server.Base.Int.{ℤ, eqb_ℤ_refl}
use clawbot_server.Migrator.{Migration, MigrateError, Result, ok, err}
use clawbot_server.Migrator.Files.{load_migrations}
use clawbot_server.Migrator.Pool.{Database, State, Outside, has_version, paths, apply_all}
use clawbot_server.Migrator.Applied.{Applies, pending, Advances, apply_all-Advances_loaded}

pub Result-cases :
    {A : Type 0} (r : Result A) → ((a : A) × (r ≡ ok a)) ⊎ ((e : MigrateError) × (r ≡ err e))
Result-cases (ok a) = inl (a, refl)
Result-cases (err e) = inr (e, refl)

-- The pending ones of a larger table, where all those that were pending are in it.
pending_nothing :
    (applied later : List ℤ) (ms : List Migration)
    → ((v : ℤ) → has_version v applied ≡ true → has_version v later ≡ true)
    → All (λ m. has_version m.version later ≡ true) (pending applied ms)
    → pending later ms ≡ []
pending_nothing applied later [] kept all = refl
pending_nothing applied later (m ∷ ms) kept all =
    elim (Bool-cases (has_version m.version applied)) [
      | inl there ↦
          rw (kept m.version there) (pending_nothing applied later ms kept (rw there at all))
      | inr absent ↦
          let (first, rest) : All (λ n. has_version n.version later ≡ true)
              (m ∷ pending applied ms) =
            rw absent at all in
          rw first (pending_nothing applied later ms kept rest)
    ]

module _ {S : Type 0} (env : Outside S) where
  -- A version that is applied stays so.
  Applies-has_version :
      (v : ℤ) {ms : List Migration} {before after : Database S}
      → Applies env ms before after
      → has_version v before.versions ≡ true
      → has_version v after.versions ≡ true
  Applies-has_version v (Applies.finished db) there = there
  Applies-has_version v
        (Applies.step m ms before between after (body, schema, read, ran, is_next) applies) there =
      Applies-has_version v applies (rw (ap (λ db. db.versions) is_next) (ground (arith, there)))

  Applies-All :
      {ms : List Migration} {before after : Database S}
      → Applies env ms before after
      → All (λ m. has_version m.version after.versions ≡ true) ms
  Applies-All (Applies.finished db) = tt
  Applies-All (Applies.step m ms before between after (body, schema, read, ran, is_next) applies) =
      (
        Applies-has_version m.version applies
            (rw (ap (λ db. db.versions) is_next) (ground (arith, eqb_ℤ_refl m.version))),
        Applies-All applies,
      )

  Applies-nothing :
      (rest : List Migration) {done : List Migration} {before after : Database S}
      → [] ≡ done ++ rest
      → Applies env done before after
      → after ≡ before
  Applies-nothing rest none (Applies.finished db) = refl
  Applies-nothing rest none (Applies.step m ms before between after runs applies) = cc

-- After `ApplyAll` has succeeded, another `ApplyAll` changes nothing, whichever of its calls fail.
pub apply_all_again :
    {S : Type 0} (env : Outside S) (w w' : State S)
    → apply_all env w ≡ (ok tt, w')
    → (apply_all env w').1.db ≡ w'.db
unfolding apply_all
apply_all_again env w w' h = elim (Result-cases (load_migrations env.order (paths env.files))) [
  | inl (ms, loaded) ↦
      let (done, rest, split, applies, whole) : Advances env (pending w.db.versions ms) w.db
          (ok tt, w') =
        subst (Advances env (pending w.db.versions ms) w.db) h
          (apply_all-Advances_loaded env ms w loaded) in
      let all_done : pending w.db.versions ms ≡ done =
        split ∙ ap (λ r. done ++ r) whole ∙ append-nil done in
      let nothing =
        pending_nothing w.db.versions w'.db.versions ms (λ v. Applies-has_version env v applies)
          (subst (All (λ m. has_version m.version w'.db.versions ≡ true)) (sym all_done)
            (Applies-All env applies)) in
      let (now, later, split_now, applies_now, whole_now) =
        apply_all-Advances_loaded env ms w' loaded in
      Applies-nothing env later (sym nothing ∙ split_now) applies_now
  | inr (e, failed) ↦ rw failed refl
]
