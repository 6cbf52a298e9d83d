-- ===== src/Migrator/Ends.antt =====
-- The transactions of internal/db/migrator.go: what each leaves of the database.
use clawbot_server.Base.{ℕ, suc, String, ◌∷◌, some, ◌≡◌, refl, Bool-cases, Option-cases, inl, inr}
use clawbot_server.Base.Int.{ℤ}
use clawbot_server.Migrator.{Migration, MigrateError, Result, ok, err}
use clawbot_server.Migrator.Pool.{
  Database, State, Outside, content, has_version, Action, ◌>>◌, run_script, insert_version,
  in_transaction, end_transaction, apply_migration,
}

module _ {S : Type 0} where
  -- The database after a migration whose script gives this.
  abbrev pub advanced : Migration → S → Database S → Database S
  advanced m schema db = record { versions = m.version ∷ db.versions; schema = schema }

  -- A result, and the database after a success or after an error.
  abbrev pub Ends : Database S → (Database S → Type 0) → Result (Unit {0}) × State S → Type 0
  Ends before P (ok u, w) = P w.db
  Ends before P (err e, w) = w.db ≡ before

  abbrev pub Gives : (Database S → Type 0) → Result (Unit {0}) × State S → Type 0
  Gives P (ok u, w) = P w.db
  Gives P (err e, w) = Unit {0}

  module _ (env : Outside S) where
    -- The script of the migration runs on the database before and gives this.
    abbrev pub RunsTo : Migration → Database S → Database S → Type 0
    RunsTo m before after =
        (body : String) × (schema : S) × (content m.up_file env.files ≡ some body)
        × (env.run body before.schema ≡ some schema)
        × (after ≡ advanced m schema before)

    end_transaction-Ends :
        (P : Database S → Type 0) (e : MigrateError) (before : Database S)
        (r : Result (Unit {0}) × State S)
        → Gives P r
        → Ends before P (end_transaction env e before r)
    end_transaction-Ends P e before (ok u, w) gives = elim (Bool-cases (env.succeeds w.calls)) [
      | inl committed ↦ rw committed gives
      | inr failed ↦ rw failed refl
    ]
    end_transaction-Ends P e before (err failure, w) gives = refl

    pub in_transaction-Ends :
        (P : Database S → Type 0) (not_begun uncommitted : MigrateError)
        (body : Action S (Unit {0})) (w : State S)
        → Gives P (body (record w { calls = suc w.calls }))
        → Ends w.db P (in_transaction env not_begun uncommitted body w)
    in_transaction-Ends P not_begun uncommitted body w gives =
        elim (Bool-cases (env.succeeds w.calls)) [
          | inl begun ↦ rw begun (
              end_transaction-Ends P uncommitted w.db (body (record w { calls = suc w.calls }))
                gives)
          | inr failed ↦ rw failed refl
        ]

    insert_version-Gives :
        (P : Database S → Type 0) (version : ℤ) (e : MigrateError) (w : State S)
        → P (record w.db { versions = version ∷ w.db.versions })
        → Gives P (insert_version env version e w)
    insert_version-Gives P version e w p = elim (Bool-cases (env.succeeds w.calls)) [
      | inl sent ↦ elim (Bool-cases (has_version version w.db.versions)) [
        | inl there ↦ rw sent (rw there tt)
        | inr absent ↦ rw sent (rw absent p)
      ]
      | inr failed ↦ rw failed tt
    ]

    -- A script, and a step after it that is given where the script ran.
    pub run_script-Gives :
        (P : Database S → Type 0) (body : String) (e : MigrateError) (next : Action S (Unit {0}))
        (w : State S)
        → ((schema : S) (calls : ℕ)
            → env.run body w.db.schema ≡ some schema
            → Gives P (next (record { db = record w.db { schema = schema }; calls = calls })))
        → Gives P ((run_script env body e >> next) w)
    run_script-Gives P body e next w gives = elim (Bool-cases (env.succeeds w.calls)) [
      | inl sent ↦ elim (Option-cases (env.run body w.db.schema)) [
        | inl wrong ↦ rw sent (rw wrong tt)
        | inr (schema, ran) ↦ rw sent (rw ran (gives schema (suc w.calls) ran))
      ]
      | inr failed ↦ rw failed tt
    ]

    pub apply_migration-Ends :
        (m : Migration) (w : State S) → Ends w.db (RunsTo m w.db) (apply_migration env m w)
    unfolding apply_migration
    apply_migration-Ends m w = elim (Option-cases (content m.up_file env.files)) [
      | inl unread ↦ rw unread refl
      | inr (body, read) ↦ rw read (
          in_transaction-Ends (RunsTo m w.db) _ _ _ w (
            run_script-Gives (RunsTo m w.db) body _ _ _ (λ schema calls ran.
              insert_version-Gives (RunsTo m w.db) m.version _ _
                ((body, schema, read, ran, refl)))))
    ]
