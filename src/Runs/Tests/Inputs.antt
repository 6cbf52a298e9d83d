-- ===== src/Runs/Tests/Inputs.antt =====
-- Tests of the inputs: references, namespaces, new runs and the keys of cycles.
use clawbot_server.Base.{◌≡◌, refl, [], ◌∷◌, true, false, ◌&&◌, ◌||◌, ◌↔◌}
use clawbot_server.Text.{trim_space, trim_prefix}
use clawbot_server.Text.Number.{atoi}
use clawbot_server.Runs.Failure.{ok}
use clawbot_server.Runs.Status.{
  is_valid_run_status, is_valid_run_type, is_valid_execution_mode, is_valid_execution_ring,
  is_valid_guardrail_status,
}
use clawbot_server.Runs.CycleKey.{is_valid_cycle_key}
use clawbot_server.Runs.Refs.{dedupe_and_trim_strings}
use clawbot_server.Runs.Refs.Clean.{IsClean, dedupe_and_trim_strings-IsClean}
use clawbot_server.Runs.Namespace.{normalize_memory_namespace}
use clawbot_server.Runs.Namespace.Total.{IsComplete, normalize_memory_namespace-IsComplete}
use clawbot_server.Runs.Normalize.{normalize_create_input, validate_create_input}
use clawbot_server.Runs.Normalize.Accepts.{IsAcceptable, validate_create_input_iff}
use clawbot_server.Runs.Tests.Samples.{blank_namespace, new_run}

dedupe_and_trim_strings-IsClean_example :
    IsClean (dedupe_and_trim_strings (" a" ∷ "a" ∷ "" ∷ "b" ∷ []))
dedupe_and_trim_strings-IsClean_example =
    (dedupe_and_trim_strings-IsClean (" a" ∷ "a" ∷ "" ∷ "b" ∷ [])).0

normalize_memory_namespace-IsComplete_example :
    IsComplete (normalize_memory_namespace blank_namespace " ach" "" "week")
normalize_memory_namespace-IsComplete_example =
    normalize_memory_namespace-IsComplete blank_namespace " ach" "" "week"

validate_create_input_iff_example :
    (validate_create_input (normalize_create_input new_run "ann") ≡ ok tt)
    ↔ IsAcceptable new_run "ann"
validate_create_input_iff_example = validate_create_input_iff new_run "ann"

-- The sample is acceptable, and so it is accepted.
pub new_run-IsAcceptable : IsAcceptable new_run "ann"
unfolding trim_space is_valid_run_status is_valid_run_type is_valid_execution_mode
    is_valid_execution_ring is_valid_guardrail_status
new_run-IsAcceptable = record {
  named = refl;
  status = refl;
  run_type = refl;
  mode = refl;
  ring = refl;
  guardrail = refl;
  asked = refl;
}

-- The keys `day-1` and `day-7`, also with a sign or leading zeros. No eighth day, and no other word
-- after the prefix.
keys_taken :
    (is_valid_cycle_key "day-1"
        && is_valid_cycle_key "day-+7"
        && is_valid_cycle_key "day-003"
        && is_valid_cycle_key "warmup"
      ≡ true)
    × (is_valid_cycle_key "day-8"
          || is_valid_cycle_key "day-0"
          || is_valid_cycle_key "day--1"
          || is_valid_cycle_key "day-one"
          || is_valid_cycle_key ""
        ≡ false)
unfolding is_valid_cycle_key atoi trim_prefix
keys_taken = (refl, refl)
