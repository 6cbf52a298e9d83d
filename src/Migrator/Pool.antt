-- ===== src/Migrator/Pool.antt =====
-- `ApplyAll` and `DownOne` of internal/db/migrator.go: migrations on the database of a pool.
use clawbot_server.Base.{
  ℕ, suc, String, Bool, false, List, [], ◌∷◌, Option, none, some, ◌==◌, ◌||◌, if◌then◌else◌,
}
use clawbot_server.Base.Int.{ℤ, pos, eqb_ℤ, ltb_ℤ}
use clawbot_server.Migrator.{Migration, MigrateError, Result, ok, err}
use clawbot_server.Migrator.Files.{load_migrations}

-- The versions in `schema_migrations`, newest first, and the rest of the database. A table that is
-- not there yet is an empty one: it is created before it is read.
pub record Database (S : Type 0) : Type 0 where
  pub versions : List ℤ
  pub schema : S

-- The database and the number of calls made to it so far.
pub record State (S : Type 0) : Type 0 where
  pub db : Database S
  pub calls : ℕ

-- What is outside: whether a call succeeds, what a script does to the rest of the database, the
-- embedded files with their contents, and the order in which `range` takes a map.
pub record Outside (S : Type 0) : Type 0 where
  pub succeeds : ℕ → Bool
  pub run : String → S → Option S
  pub files : List (String × String)
  pub order : List Migration → List Migration

abbrev pub paths : List (String × String) → List String
paths [] = []
paths ((path, body) ∷ files) = path ∷ paths files

abbrev pub content : String → List (String × String) → Option String
content path [] = none
content path ((other, body) ∷ files) = if other == path then some body else content path files

abbrev pub has_version : ℤ → List ℤ → Bool
has_version version [] = false
has_version version (other ∷ others) = eqb_ℤ other version || has_version version others

abbrev pub without : ℤ → List ℤ → List ℤ
without version [] = []
without version (other ∷ others) =
    let rest = without version others in if eqb_ℤ other version then rest else other ∷ rest

abbrev pub larger : ℤ → List ℤ → ℤ
larger version [] = version
larger version (other ∷ others) =
    if ltb_ℤ version other then larger other others else larger version others

-- `COALESCE(MAX(version), 0)`.
abbrev pub latest_of : List ℤ → ℤ
latest_of [] = pos 0
latest_of (version ∷ versions) = larger version versions

abbrev pub with_version : ℤ → List Migration → Option Migration
with_version version [] = none
with_version version (m ∷ ms) = if eqb_ℤ m.version version then some m else with_version version ms

-- A step that may fail; the state comes back after a failure too.
abbrev pub Action : Type 0 → Type 0 → Type 0
Action S A = State S → Result A × State S

module _ {S : Type 0} where
  abbrev pub continue : {A B : Type 0} → Result A × State S → (A → Action S B) → Result B × State S
  continue (ok a, w) next = next a w
  continue (err e, w) next = (err e, w)

  infixl 5 ◌>>=◌ ◌>>◌
  abbrev pub ◌>>=◌ : {A B : Type 0} → Action S A → (A → Action S B) → Action S B
  ◌>>=◌ m next w = continue (m w) next

  abbrev pub ◌>>◌ : {A B : Type 0} → Action S A → Action S B → Action S B
  m >> rest = m >>= λ a. rest

  abbrev pub pure : {A : Type 0} → A → Action S A
  pure a w = (ok a, w)

  abbrev pub lift : {A : Type 0} → Result A → Action S A
  lift r w = (r, w)

  abbrev pub given : {A : Type 0} → Option A → MigrateError → Action S A
  given none e w = (err e, w)
  given (some a) e w = (ok a, w)

  abbrev pub versions_now : Action S (List ℤ)
  versions_now w = (ok w.db.versions, w)

  abbrev changed : MigrateError → State S → Option S → Result (Unit {0}) × State S
  changed e w none = (err e, w)
  changed e w (some schema) = (ok tt, record w { db = record w.db { schema = schema } })

  module _ (env : Outside S) where
    -- One call to the database that changes nothing.
    abbrev pub call : MigrateError → Action S (Unit {0})
    call e w = (if env.succeeds w.calls then ok tt else err e, record w { calls = suc w.calls })

    abbrev pub run_script : String → MigrateError → Action S (Unit {0})
    run_script body e = call e >>= λ u w. changed e w (env.run body w.db.schema)

    -- A primary key refuses a version that is there.
    abbrev pub insert_version : ℤ → MigrateError → Action S (Unit {0})
    insert_version version e = call e >>= λ u w.
        if has_version version w.db.versions
        then (err e, w)
        else (ok tt, record w { db = record w.db { versions = version ∷ w.db.versions } })

    abbrev pub delete_version : ℤ → MigrateError → Action S (Unit {0})
    delete_version version e = call e >>= λ u w.
        (ok tt, record w { db = record w.db { versions = without version w.db.versions } })

    -- The end of a transaction: a rollback, or a commit, which may fail.
    abbrev pub end_transaction :
        MigrateError → Database S → Result (Unit {0}) × State S → Result (Unit {0}) × State S
    end_transaction e before (err failure, w) = (err failure, record w { db = before })
    end_transaction e before (ok u, w) =
        if env.succeeds w.calls
        then (ok tt, record w { calls = suc w.calls })
        else (err e, record w { db = before; calls = suc w.calls })

    abbrev pub in_transaction :
        MigrateError → MigrateError → Action S (Unit {0}) → Action S (Unit {0})
    in_transaction not_begun uncommitted body =
        call not_begun >>= λ u w. end_transaction uncommitted w.db (body w)

    -- The body of the loop of `ApplyAll`.
    unfoldable pub apply_migration : Migration → Action S (Unit {0})
    apply_migration m = do
      body ← given (content m.up_file env.files) (MigrateError.unread_migration m.up_file)
      in_transaction MigrateError.apply_not_begun (MigrateError.apply_uncommitted m.version) (do
        run_script body (MigrateError.unapplied m.up_file)
        insert_version m.version (MigrateError.unrecorded m.version))

    -- The loop of `ApplyAll`.
    unfoldable pub apply_pending : List ℤ → List Migration → Action S (Unit {0})
    apply_pending applied [] = pure tt
    apply_pending applied (m ∷ ms) =
        let rest = apply_pending applied ms in
        if has_version m.version applied then rest else apply_migration m >>= λ u. rest

    -- `ensureSchemaMigrations`.
    abbrev ensure_schema_migrations : Action S (Unit {0})
    ensure_schema_migrations = call MigrateError.table_not_ensured

    -- `appliedVersions`.
    abbrev pub applied_versions : Action S (List ℤ)
    applied_versions = do
      call MigrateError.applied_not_queried
      call MigrateError.applied_not_read
      versions_now

    unfoldable pub apply_all : Action S (Unit {0})
    apply_all = do
      migrations ← lift (load_migrations env.order (paths env.files))
      ensure_schema_migrations
      applied ← applied_versions
      apply_pending applied migrations

    -- What `DownOne` does to the migration of the latest version.
    unfoldable pub undo_migration : Migration → ℤ → Action S (Unit {0})
    undo_migration m version = do
      body ← given (content m.down_file env.files) (MigrateError.unread_down_migration m.down_file)
      in_transaction MigrateError.rollback_not_begun (MigrateError.down_uncommitted version) (do
        run_script body (MigrateError.down_unapplied m.down_file)
        delete_version version (MigrateError.undeleted version))

    unfoldable pub undo_latest : List Migration → ℤ → Action S (Unit {0})
    undo_latest migrations version = do
      target ← given (with_version version migrations) (MigrateError.no_down_migration version)
      undo_migration target version

    unfoldable pub down_one : Action S (Unit {0})
    down_one = do
      migrations ← lift (load_migrations env.order (paths env.files))
      ensure_schema_migrations
      call MigrateError.latest_not_loaded
      versions ← versions_now
      if eqb_ℤ (latest_of versions) (pos 0)
          then pure tt
          else undo_latest migrations (latest_of versions)
