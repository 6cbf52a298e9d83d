-- ===== src/Registry/Bots.antt =====
-- The bots: internal/platform/bots.
use clawbot_server.Base.{
  ℕ, String, Bool, List, [], ◌∷◌, Option, none, some, or_else, ◌==◌, if◌then◌else◌, one_of, refl,
}
use clawbot_server.Json.{Raw, or_braces}
use clawbot_server.Text.{trim_space}
use clawbot_server.Registry.{
  Kind, Outside, Result, ok, err, name_required, invalid_status, jsonb, Action, get_entry,
  create_entry, update_entry, statement, rows_now, ◌>>◌,
}
use clawbot_server.Registry.Mirrors.{KeepsId}

pub record Bot : Type 0 where
  pub id : String
  pub name : String
  pub role : String
  pub runtime : String
  pub status : String
  pub repo_hint : String
  pub version : String
  pub config_json : Raw
  pub created_at : ℕ
  pub updated_at : ℕ

pub record CreateBotInput : Type 0 where
  pub name : String
  pub role : String
  pub runtime : String
  pub status : String
  pub repo_hint : String
  pub version : String
  pub config_json : Raw

pub record UpdateBotInput : Type 0 where
  pub name : Option String
  pub role : Option String
  pub runtime : Option String
  pub status : Option String
  pub repo_hint : Option String
  pub version : Option String
  pub config_json : Option Raw

unfoldable pub is_valid_bot_status : String → Bool
is_valid_bot_status = one_of ("active" ∷ "inactive" ∷ "deprecated" ∷ [])

-- `if input.X != nil { existing.X = strings.TrimSpace(*input.X) }`.
abbrev pub set_text : Option String → String → String
set_text none old = old
set_text (some given) old = trim_space given

-- What `Create` makes of its input before the transaction.
unfoldable pub prepare_bot : CreateBotInput → Result CreateBotInput
prepare_bot input =
    let name = trim_space input.name in
    let status = if input.status == "" then "active" else input.status in
    if name == ""
    then err name_required
    else if is_valid_bot_status status
    then ok
        (record input { name = name; status = status; config_json = or_braces input.config_json })
    else err (invalid_status status)

abbrev pub merged_bot : Bot → UpdateBotInput → Bot
merged_bot existing input = record existing {
  name = set_text input.name existing.name;
  role = set_text input.role existing.role;
  runtime = set_text input.runtime existing.runtime;
  status = set_text input.status existing.status;
  repo_hint = set_text input.repo_hint existing.repo_hint;
  version = set_text input.version existing.version;
  config_json = or_else input.config_json existing.config_json;
}

abbrev pub checked_bot : Bot → Result Bot
checked_bot bot =
    if bot.name == ""
    then err name_required
    else if is_valid_bot_status bot.status
    then ok (record bot { config_json = or_braces bot.config_json })
    else err (invalid_status bot.status)

unfoldable pub merge_bot : Bot → UpdateBotInput → Result Bot
merge_bot existing input = checked_bot (merged_bot existing input)

abbrev pub with_config : {A : Type 0} → (Raw → A) → Result Raw → Result A
with_config build (ok raw) = ok (build raw)
with_config build (err e) = err e

unfoldable pub insert_bot_columns : CreateBotInput → Result CreateBotInput
insert_bot_columns input =
    with_config (λ raw. record input { config_json = raw }) (jsonb input.config_json)

unfoldable pub new_bot : CreateBotInput → String → ℕ → Bot
new_bot input id now = record {
  id = id;
  name = input.name;
  role = input.role;
  runtime = input.runtime;
  status = input.status;
  repo_hint = input.repo_hint;
  version = input.version;
  config_json = input.config_json;
  created_at = now;
  updated_at = now;
}

unfoldable pub update_bot_columns : Bot → Result Bot
update_bot_columns item =
    with_config (λ raw. record item { config_json = raw }) (jsonb item.config_json)

unfoldable pub stored_bot : Bot → Bot → ℕ → Bot
stored_bot row item now = record item { id = row.id; created_at = row.created_at; updated_at = now }

abbrev pub bots : Kind Bot CreateBotInput UpdateBotInput
bots = record {
  prepare = prepare_bot;
  insert_columns = insert_bot_columns;
  new_row = new_bot;
  merge = merge_bot;
  update_columns = update_bot_columns;
  stored = stored_bot;
  id_of = λ bot. bot.id;
  entity_type = "bot";
  created_event = "bot.created";
  updated_event = "bot.updated";
}

pub bots-KeepsId : KeepsId bots
unfolding stored_bot
bots-KeepsId row item now = refl

module _ (env : Outside) where
  unfoldable pub create_bot : CreateBotInput → String → Action Bot Bot
  create_bot input actor = create_entry env bots input actor

  unfoldable pub update_bot : String → UpdateBotInput → String → Action Bot Bot
  update_bot id input actor = update_entry env bots id input actor

  unfoldable pub get_bot : String → Action Bot Bot
  get_bot id = get_entry env bots id

  -- Newest first, as the table keeps them.
  unfoldable pub list_bots : Action Bot (List Bot)
  list_bots = statement env >> rows_now
