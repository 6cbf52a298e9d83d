-- ===== src/Registry/Tests.antt =====
-- Tests of the registries: a bot that is created and updated, and an update that is refused.
use clawbot_server.Base.{String, true, [], ◌∷◌, none, some, ◌≡◌, refl, map, All}
use clawbot_server.Json.{empty}
use clawbot_server.Text.{trim_space}
use clawbot_server.Text.Digits.{decimal}
use clawbot_server.Registry.{
  State, Outside, create_entry, update_entry, get_entry, insert_row, update_row, record_change,
}
use clawbot_server.Registry.Mirrors.{Mirrors, History, begun, created, updated, History-Mirrors}
use clawbot_server.Registry.Valid.{IsValidBot, History-IsValidBot}
use clawbot_server.Registry.Bots.{
  Bot, CreateBotInput, UpdateBotInput, bots, bots-KeepsId, is_valid_bot_status, prepare_bot,
  insert_bot_columns, new_bot, merge_bot, update_bot_columns, stored_bot,
}

abbrev steady : Outside
steady = record { clock = λ n. n; new_id = decimal; succeeds = λ n. true }

abbrev nothing_yet : State Bot
nothing_yet = record { rows = []; audits = []; calls = 0; tx_start = none }

abbrev helper_bot : CreateBotInput
helper_bot = record {
  name = " helper ";
  role = "help";
  runtime = "";
  status = "";
  repo_hint = "";
  version = "";
  config_json = empty;
}

abbrev set_status : String → UpdateBotInput
set_status status = record {
  name = none;
  role = none;
  runtime = none;
  status = some status;
  repo_hint = none;
  version = none;
  config_json = none;
}

abbrev after_create : State Bot
after_create = (create_entry steady bots helper_bot "ann" nothing_yet).1

abbrev after_update : State Bot
after_update = (update_entry steady bots "2" (set_status " inactive ") "ann" after_create).1

abbrev after_refusal : State Bot
after_refusal = (update_entry steady bots "2" (set_status "asleep") "ann" after_update).1

abbrev three_steps : History bots steady nothing_yet after_refusal
three_steps =
    updated "2" (set_status "asleep") "ann"
      (updated "2" (set_status " inactive ") "ann" (created helper_bot "ann" begun))

History-Mirrors_example : Mirrors bots after_refusal.rows after_refusal.audits
History-Mirrors_example =
    History-Mirrors bots steady nothing_yet after_refusal bots-KeepsId (λ id. refl) three_steps

History-IsValidBot_example : All IsValidBot after_refusal.rows
History-IsValidBot_example = History-IsValidBot steady nothing_yet after_refusal tt three_steps

-- The refused update leaves the status and its events.
after_three :
    (map (λ bot. bot.status) after_refusal.rows ≡ "inactive" ∷ [])
    × (map (λ event. event.event_type) after_refusal.audits ≡ "bot.updated" ∷ "bot.created" ∷ [])
unfolding create_entry update_entry get_entry insert_row update_row record_change prepare_bot
    insert_bot_columns new_bot merge_bot update_bot_columns stored_bot is_valid_bot_status
    trim_space decimal
after_three = (refl, refl)
