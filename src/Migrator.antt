-- ===== src/Migrator.antt =====
-- The migrations of internal/db/migrator.go: their data, and results that may be errors.
pub mod Files
pub mod Order
pub mod Loaded
pub mod AnyOrder
pub mod Pool
pub mod Ends
pub mod Applied
pub mod Again
pub mod Undone
pub mod Tests
use clawbot_server.Base.{String, ◌≡◌, refl}
use clawbot_server.Base.Int.{ℤ}

pub record Migration : Type 0 where
  pub version : ℤ
  pub up_file : String
  pub down_file : String

-- The errors, one constructor for each message.
pub data MigrateError : Type 0 where
  invalid_name : String → MigrateError
  unparsed_version : String → MigrateError
  invalid_suffix : String → MigrateError
  missing_file : ℤ → MigrateError
  table_not_ensured : MigrateError
  applied_not_queried : MigrateError
  applied_not_read : MigrateError
  unread_migration : String → MigrateError
  apply_not_begun : MigrateError
  unapplied : String → MigrateError
  unrecorded : ℤ → MigrateError
  apply_uncommitted : ℤ → MigrateError
  latest_not_loaded : MigrateError
  no_down_migration : ℤ → MigrateError
  unread_down_migration : String → MigrateError
  rollback_not_begun : MigrateError
  down_unapplied : String → MigrateError
  undeleted : ℤ → MigrateError
  down_uncommitted : ℤ → MigrateError

pub data Result {ℓ} (A : Type ℓ) : Type ℓ where
  ok : A → Result A
  err : MigrateError → Result A

module _ {A B : Type 0} where
  infixl 5 ◌>>=◌
  abbrev pub ◌>>=◌ : Result A → (A → Result B) → Result B
  ok a >>= f = f a
  err e >>= f = err e

  -- A chain that succeeds has a first step that does.
  pub >>=-eq-ok :
      (first : Result A) (next : A → Result B) {result : B}
      → (first >>= next) ≡ ok result
      → (value : A) × (first ≡ ok value) × (next value ≡ ok result)
  >>=-eq-ok (err e) next h = cc
  >>=-eq-ok (ok value) next h = (value, refl, h)

pub ok-injective : {A : Type 0} {value other : A} → ok value ≡ ok other → value ≡ other
ok-injective h = cc
