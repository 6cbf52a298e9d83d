-- ===== src/Migrator/Tests.antt =====
-- Tests of the migrator on the files of internal/db/migrations, with a database that counts.
use clawbot_server.Base.{
  ℕ, zero, suc, String, true, List, [], ◌∷◌, Option, none, some, ◌≡◌, refl, sym, subst, ◌==◌,
  if◌then◌else◌,
}
use clawbot_server.Base.Int.{pos}
use clawbot_server.Text.{trim_prefix, ends_with, split}
use clawbot_server.Text.Number.{atoi}
use clawbot_server.Migrator.{Migration, ok}
use clawbot_server.Migrator.Files.{
  load_migrations, read_name, group, place, side_of, check_complete, sort, insert,
}
use clawbot_server.Migrator.Order.{Permutes, IsAscending, Permutes-refl}
use clawbot_server.Migrator.Loaded.{IsLoaded, load_migrations-IsLoaded}
use clawbot_server.Migrator.AnyOrder.{load_migrations_any_order}
use clawbot_server.Migrator.Pool.{
  State, Outside, paths, apply_migration, apply_pending, apply_all, down_one,
}
use clawbot_server.Migrator.Ends.{Ends}
use clawbot_server.Migrator.Applied.{pending, Advances, apply_all-Advances}
use clawbot_server.Migrator.Again.{apply_all_again}
use clawbot_server.Migrator.Undone.{IsReversible, down_one-apply_migration}

abbrev first : Migration
first = record {
  version = pos 1;
  up_file = "migrations/0001_phase1.up.sql";
  down_file = "migrations/0001_phase1.down.sql";
}

abbrev second : Migration
second = record {
  version = pos 2;
  up_file = "migrations/0002_contracts.up.sql";
  down_file = "migrations/0002_contracts.down.sql";
}

abbrev embedded : List (String × String)
embedded =
    ("migrations/0002_contracts.up.sql", "create")
    ∷ ("migrations/0001_phase1.down.sql", "drop")
    ∷ ("migrations/0001_phase1.up.sql", "create")
    ∷ ("migrations/0002_contracts.down.sql", "drop")
    ∷ []

-- The map is taken as it is, or with its first two swapped.
abbrev as_is : List Migration → List Migration
as_is ms = ms

abbrev swapped : List Migration → List Migration
swapped [] = []
swapped (m ∷ []) = m ∷ []
swapped (m ∷ n ∷ ms) = n ∷ m ∷ ms

swapped-Permutes : (ms : List Migration) → Permutes ms (swapped ms)
swapped-Permutes [] = Permutes.nil
swapped-Permutes (m ∷ []) = Permutes-refl (m ∷ [])
swapped-Permutes (m ∷ n ∷ ms) = Permutes.swap m n ms

-- A database that counts what is created.
abbrev dropped : ℕ → Option ℕ
dropped zero = none
dropped (suc n) = some n

abbrev counted : String → ℕ → Option ℕ
counted body n = if body == "create" then some (suc n) else dropped n

abbrev counting : Outside ℕ
counting = record { succeeds = λ n. true; run = counted; files = embedded; order = swapped }

both_loaded : load_migrations swapped (paths embedded) ≡ ok (first ∷ second ∷ [])
unfolding load_migrations read_name group place side_of check_complete sort insert trim_prefix
    ends_with split atoi
both_loaded = refl

load_migrations-IsLoaded_example : IsLoaded (paths embedded) (first ∷ second ∷ [])
load_migrations-IsLoaded_example =
    load_migrations-IsLoaded swapped (paths embedded) (first ∷ second ∷ []) swapped-Permutes
      both_loaded

load_migrations_any_order_example :
    load_migrations as_is (paths embedded) ≡ ok (first ∷ second ∷ [])
load_migrations_any_order_example =
    load_migrations_any_order swapped as_is (paths embedded) (first ∷ second ∷ []) swapped-Permutes
      Permutes-refl both_loaded

abbrev at_first : State ℕ
at_first = record { db = record { versions = pos 1 ∷ []; schema = 1 }; calls = 0 }

abbrev at_second : State ℕ
at_second = record { db = record { versions = pos 2 ∷ pos 1 ∷ []; schema = 2 }; calls = 7 }

apply_all-Advances_example :
    IsAscending (pending (pos 1 ∷ []) (first ∷ second ∷ []))
    × Advances counting
        (pending (pos 1 ∷ []) (first ∷ second ∷ []))
        at_first.db
        (apply_all counting at_first)
apply_all-Advances_example =
    apply_all-Advances counting (first ∷ second ∷ []) at_first swapped-Permutes both_loaded

one_applied : apply_all counting at_first ≡ (ok tt, at_second)
unfolding apply_all load_migrations read_name group place side_of check_complete sort insert
    trim_prefix ends_with split atoi apply_pending apply_migration
one_applied = refl

apply_all_again_example : (apply_all counting at_second).1.db ≡ at_second.db
apply_all_again_example = apply_all_again counting at_first at_second one_applied

some-injective : {A : Type 0} {a b : A} → some a ≡ some b → a ≡ b
some-injective h = cc

second-IsReversible : IsReversible counting second
second-IsReversible up_body down_body before after is_up is_down ran =
    let created : some (suc before) ≡ some after =
      subst (λ body. counted body before ≡ some after) (sym (some-injective is_up)) ran in
    subst (λ body. counted body after ≡ some before) (some-injective is_down)
      (rw (sym (some-injective created)) refl)

abbrev after_second : State ℕ
after_second = record { db = record { versions = pos 2 ∷ pos 1 ∷ []; schema = 2 }; calls = 4 }

second_applied : apply_migration counting second at_first ≡ (ok tt, after_second)
unfolding apply_migration
second_applied = refl

down_one-apply_migration_example :
    Ends after_second.db (λ db. db ≡ at_first.db) (down_one counting after_second)
down_one-apply_migration_example =
    down_one-apply_migration counting (first ∷ second ∷ []) second at_first after_second both_loaded
      refl (refl, tt) refl second-IsReversible second_applied

-- Of two up files with one version, the last one is kept, and no error says so.
one_lost :
    load_migrations as_is
      ("migrations/1_a.up.sql" ∷ "migrations/1_b.down.sql" ∷ "migrations/1_b.up.sql" ∷ [])
    ≡ ok (
        record {
          version = pos 1;
          up_file = "migrations/1_b.up.sql";
          down_file = "migrations/1_b.down.sql";
        }
        ∷ [])
unfolding load_migrations read_name group place side_of check_complete sort insert trim_prefix
    ends_with split atoi
one_lost = refl
