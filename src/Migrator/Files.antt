-- ===== src/Migrator/Files.antt =====
-- The files of the migrations: `loadMigrations` of internal/db/migrator.go.
use clawbot_server.Base.{String, Bool, List, [], ◌∷◌, Option, none, some, ◌||◌, ◌==◌, if◌then◌else◌}
use clawbot_server.Base.Int.{ℤ, eqb_ℤ, ltb_ℤ}
use clawbot_server.Text.{trim_prefix, ends_with, split}
use clawbot_server.Text.Number.{atoi}
use clawbot_server.Migrator.{Migration, MigrateError, Result, ok, err, ◌>>=◌}

pub data Side : Type 0 where
  up down : Side

-- The `switch` on the suffix.
unfoldable pub side_of : String → Option Side
side_of base =
    if ends_with base ".up.sql"
    then some up
    else if ends_with base ".down.sql"
    then some down
    else none

abbrev pub with_file : Side → String → Migration → Migration
with_file up entry item = record item { up_file = entry }
with_file down entry item = record item { down_file = entry }

abbrev pub new_item : ℤ → Migration
new_item version = record { version = version; up_file = ""; down_file = "" }

-- The map by version, with the file of one more entry.
unfoldable pub place : ℤ → Side → String → List Migration → List Migration
place version side entry [] = with_file side entry (new_item version) ∷ []
place version side entry (item ∷ items) =
    let rest = place version side entry items in
    if eqb_ℤ item.version version then with_file side entry item ∷ items else item ∷ rest

-- `strings.TrimPrefix(entry, "migrations/")`.
abbrev pub base_of : String → String
base_of entry = trim_prefix entry "migrations/"

abbrev prefix_of : List String → Option String
prefix_of [] = none
prefix_of (part ∷ []) = none
prefix_of (part ∷ next ∷ parts) = some part

abbrev prefix_checked : String → Option String → Result String
prefix_checked base none = err (MigrateError.invalid_name base)
prefix_checked base (some part) = ok part

abbrev version_checked : String → Option ℤ → Result ℤ
version_checked base none = err (MigrateError.unparsed_version base)
version_checked base (some version) = ok version

abbrev side_checked : String → Option Side → Result Side
side_checked base none = err (MigrateError.invalid_suffix base)
side_checked base (some side) = ok side

-- The version and the side that the name of an entry says.
unfoldable pub read_name : String → Result (ℤ × Side)
unfolding side_of
read_name entry = do
  let base = base_of entry
  part ← prefix_checked base (prefix_of (split "_" base))
  version ← version_checked base (atoi part)
  side ← side_checked base (side_of base)
  ok (version, side)

-- The first loop, over the entries.
unfoldable pub group : List Migration → List String → Result (List Migration)
group items [] = ok items
group items (entry ∷ entries) = do
  (version, side) ← read_name entry
  group (place version side entry items) entries

abbrev pub is_missing : Migration → Bool
is_missing item = item.up_file == "" || item.down_file == ""

-- The second loop, over the map in some order.
unfoldable pub check_complete : List Migration → Result (Unit {0})
check_complete [] = ok tt
check_complete (item ∷ items) =
    let rest = check_complete items in
    if is_missing item then err (MigrateError.missing_file item.version) else rest

unfoldable pub insert : Migration → List Migration → List Migration
insert item [] = item ∷ []
insert item (other ∷ others) =
    let rest = insert item others in
    if ltb_ℤ item.version other.version then item ∷ other ∷ others else other ∷ rest

-- `sort.Slice` by version.
unfoldable pub sort : List Migration → List Migration
unfolding insert
sort [] = []
sort (item ∷ items) = insert item (sort items)

-- `loadMigrations`, with the order in which `range` takes the map, and the embedded files by path.
unfoldable pub load_migrations :
    (List Migration → List Migration) → List String → Result (List Migration)
unfolding group check_complete sort
load_migrations order entries = do
  items ← group [] entries
  passed ← check_complete (order items)
  ok (sort (order items))
