-- ===== src/Migrator/Undone.antt =====
-- `DownOne` of internal/db/migrator.go after a migration: back to the database before it.
use clawbot_server.Base.{
  ℕ, suc, String, true, false, List, [], ◌∷◌, some, ◌≡◌, refl, sym, ap, subst, ◌∙◌, Bool-cases,
  Option-cases, inl, inr, All,
}
use clawbot_server.Base.Int.{
  ℤ, pos, eqb_ℤ, eqb_ℤ_refl, eqb_ℤ-sound, ltb_ℤ, ltb_ℤ_asym, ltb_ℤ_irrefl,
}
use clawbot_server.Migrator.{Migration, MigrateError, ok}
use clawbot_server.Migrator.Files.{load_migrations}
use clawbot_server.Migrator.Pool.{
  Database, State, Outside, content, larger, without, with_version, paths, delete_version,
  apply_migration, undo_migration, undo_latest, down_one,
}
use clawbot_server.Migrator.Ends.{
  Ends, Gives, RunsTo, advanced, in_transaction-Ends, run_script-Gives, apply_migration-Ends,
}

-- Every one of these versions is lower.
abbrev pub AreBelow : List ℤ → ℤ → Type 0
AreBelow versions version = All (λ v. ltb_ℤ v version ≡ true) versions

larger-AreBelow :
    (version : ℤ) (versions : List ℤ)
    → AreBelow versions version
    → larger version versions ≡ version
larger-AreBelow version [] below = refl
larger-AreBelow version (v ∷ versions) (first, below) =
    rw (ltb_ℤ_asym v version first) (larger-AreBelow version versions below)

eqb_of_ltb : (a b : ℤ) → ltb_ℤ a b ≡ true → eqb_ℤ a b ≡ false
eqb_of_ltb a b below = elim (Bool-cases (eqb_ℤ a b)) [
  | inl same ↦ cc (ltb_ℤ_irrefl b, subst (λ c. ltb_ℤ c b ≡ true) (eqb_ℤ-sound a b same) below)
  | inr other ↦ other
]

eqb_sym : (a b : ℤ) → eqb_ℤ a b ≡ false → eqb_ℤ b a ≡ false
eqb_sym a b other = elim (Bool-cases (eqb_ℤ b a)) [
  | inl same ↦ cc (other, subst (λ c. eqb_ℤ c b ≡ true) (eqb_ℤ-sound b a same) (eqb_ℤ_refl b))
  | inr h ↦ h
]

without-AreBelow :
    (version : ℤ) (versions : List ℤ)
    → AreBelow versions version
    → without version versions ≡ versions
without-AreBelow version [] below = refl
without-AreBelow version (v ∷ versions) (first, below) =
    rw (eqb_of_ltb v version first) (ap (◌∷◌ v) (without-AreBelow version versions below))

module _ {S : Type 0} (env : Outside S) where
  -- The down script of a migration takes back what its up script does.
  abbrev pub IsReversible : Migration → Type 0
  IsReversible m =
      (up_body down_body : String) (before after : S)
      → content m.up_file env.files ≡ some up_body
      → content m.down_file env.files ≡ some down_body
      → env.run up_body before ≡ some after
      → env.run down_body after ≡ some before

  some-injective : {a b : S} → some a ≡ some b → a ≡ b
  some-injective h = cc

  delete_version-Gives :
      (m : Migration) (schema : S) (before : Database S) (e : MigrateError) (calls : ℕ)
      → schema ≡ before.schema
      → AreBelow before.versions m.version
      → Gives
          (λ db. db ≡ before)
          (delete_version env m.version e (record { db = advanced m schema before; calls = calls }))
  delete_version-Gives m schema before e calls same below = elim (Bool-cases (env.succeeds calls)) [
    | inl sent ↦
        rw (sent, eqb_ℤ_refl m.version, without-AreBelow m.version before.versions below, same) refl
    | inr failed ↦ rw failed tt
  ]

  undo_migration-Ends :
      (m : Migration) (schema : S) (before : Database S) (calls : ℕ) (up_body : String)
      → content m.up_file env.files ≡ some up_body
      → env.run up_body before.schema ≡ some schema
      → IsReversible m
      → AreBelow before.versions m.version
      → Ends
          (advanced m schema before)
          (λ db. db ≡ before)
          (undo_migration env m m.version (record { db = advanced m schema before; calls = calls }))
  unfolding undo_migration
  undo_migration-Ends m schema before calls up_body read ran reversible below =
      elim (Option-cases (content m.down_file env.files)) [
        | inl unread ↦ rw unread refl
        | inr (body, found) ↦ rw found (
            in_transaction-Ends env (λ db. db ≡ before) _ _ _ _
              (run_script-Gives env (λ db. db ≡ before) body _ _ _
                (λ undone n back.
                  delete_version-Gives m undone before _ n
                    (some-injective
                      (sym back ∙ reversible up_body body before.schema schema read found ran))
                    below)))
      ]

  down_one-Ends :
      (ms : List Migration) (m : Migration) (schema : S) (before : Database S) (calls : ℕ)
      (up_body : String)
      → load_migrations env.order (paths env.files) ≡ ok ms
      → with_version m.version ms ≡ some m
      → content m.up_file env.files ≡ some up_body
      → env.run up_body before.schema ≡ some schema
      → IsReversible m
      → AreBelow before.versions m.version
      → ltb_ℤ (pos 0) m.version ≡ true
      → Ends
          (advanced m schema before)
          (λ db. db ≡ before)
          (down_one env (record { db = advanced m schema before; calls = calls }))
  unfolding down_one undo_latest
  down_one-Ends ms m schema before calls up_body loaded found read ran reversible below above =
      elim (Bool-cases (env.succeeds calls)) [
        | inl ensured ↦ elim (Bool-cases (env.succeeds (suc calls))) [
          | inl queried ↦
              rw
                (
                  loaded,
                  ensured,
                  queried,
                  larger-AreBelow m.version before.versions below,
                  eqb_sym (pos 0) m.version (eqb_of_ltb (pos 0) m.version above),
                  found,
                )
                (undo_migration-Ends m schema before (suc (suc calls)) up_body read ran reversible
                  below)
          | inr failed ↦ rw (loaded, ensured, failed) refl
        ]
        | inr failed ↦ rw (loaded, failed) refl
      ]

-- After the migration of a version above 0 and above all those applied, whose down script takes back
-- what its up script does, `DownOne` gives back the database before the migration when it succeeds,
-- and leaves the one after it when it fails.
pub down_one-apply_migration :
    {S : Type 0} (env : Outside S) (ms : List Migration) (m : Migration) (w w' : State S)
    → load_migrations env.order (paths env.files) ≡ ok ms
    → with_version m.version ms ≡ some m
    → AreBelow w.db.versions m.version
    → ltb_ℤ (pos 0) m.version ≡ true
    → IsReversible env m
    → apply_migration env m w ≡ (ok tt, w')
    → Ends w'.db (λ db. db ≡ w.db) (down_one env w')
down_one-apply_migration env ms m w w' loaded found below above reversible applied =
    let (body, schema, read, ran, same) : RunsTo env m w.db w'.db =
      subst (Ends w.db (RunsTo env m w.db)) applied (apply_migration-Ends env m w) in
    subst (λ db. Ends db (λ d. d ≡ w.db) (down_one env (record { db = db; calls = w'.calls })))
      (sym same)
      (down_one-Ends env ms m schema w.db w'.calls body loaded found read ran reversible below
        above)
