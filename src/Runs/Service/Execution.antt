-- ===== src/Runs/Service/Execution.antt =====
-- Steps of the execution of a run, in internal/platform/runs/service.go: the choice of the cycle, the
-- wish for a helper, and what is written when the policy denies the execution.
pub mod Denied
pub mod Resolved
use clawbot_server.Base.{
  String, List, [], ◌∷◌, one_of, or_else, Bool, true, false, not, ◌&&◌, ◌||◌, Option, none, some,
  ◌==◌, if◌then◌else◌,
}
use clawbot_server.Base.Int.{is_positive}
use clawbot_server.Json.{
  Json, bool, str, num, Fields, lookup, Raw, is_empty, is_braces, Decoded, object, nil_map, failed,
  unmarshal,
}
use clawbot_server.Text.{trim_space, to_lower}
use clawbot_server.Runs.Types.{Run, Cycle}
use clawbot_server.Runs.Failure.{Failure}
use clawbot_server.Runs.Store.{Env, Action, pure, fail, ◌>>=◌, ◌>>◌, require, in_tx}
use clawbot_server.Runs.Repository.{get_run, update_run}
use clawbot_server.Runs.Repository.Cycles.{get_cycle_row, update_cycle_row}

-- What the value of a key asks for; a value of another type asks for nothing.
abbrev pub asks : Option Json → Option Bool
asks (some (bool b)) = some b
asks (some (str word)) = some (one_of ("true" ∷ "1" ∷ "yes" ∷ []) (to_lower (trim_space word)))
asks (some (num n)) = some (is_positive n)
asks _ = none

-- `helperRequested`, on the object that is decoded.
abbrev first_asked : List String → Fields → Bool
first_asked [] payload = false
first_asked (key ∷ keys) payload = or_else (asks (lookup key payload)) (first_asked keys payload)

helper_in : Decoded → Bool
helper_in (object payload) =
    first_asked ("helper_requested" ∷ "enable_helper" ∷ "needs_helper" ∷ []) payload
helper_in nil_map = false
helper_in failed = false

unfoldable pub helper_requested : Raw → Bool
unfolding helper_in
helper_requested input =
    if is_empty input then false else if is_braces input then false else helper_in (unmarshal input)

unfoldable pub is_local_ollama_provider : String → Bool
is_local_ollama_provider provider =
    one_of ("local_ollama" ∷ "ollama" ∷ []) (to_lower (trim_space provider))

abbrev trimmed : Option String → String
trimmed none = ""
trimmed (some id) = trim_space id

abbrev is_given : Option String → Bool
is_given none = false
is_given (some id) = true

-- The cycle and its identifier; `GetCycle` is asked with the identifier of the run as it was read.
unfoldable pub resolve_execution_cycle :
    Env → Run → Option String → Option String → Action (Option Cycle × Option String)
resolve_execution_cycle env run forced requested =
    if run.run_type == "week_run"
    then (do
      let id = if trimmed forced == "" then trimmed requested else trimmed forced
      require (not (id == "")) Failure.cycle_needed_for_week_run
      cycle ← get_cycle_row env run.id id
      pure (some cycle, some id))
    else (do
      require (not (is_given forced || not (trimmed requested == "")))
          Failure.cycle_only_for_week_run
      pure (none, none))

unfoldable pub fail_cycle : Env → String → Option Cycle → Action (Unit {0})
fail_cycle env run none = pure tt
fail_cycle env run (some cycle) = do
  loaded ← get_cycle_row env run cycle.id
  update_cycle_row env (record loaded { status = "failed_policy" })
  pure tt

unfoldable pub mark_execution_policy_failure : Env → String → Option Cycle → Action (Unit {0})
unfolding fail_cycle
mark_execution_policy_failure env run_id cycle = in_tx env (do
  run ← get_run env run_id
  update_run env (record run { status = "failed_policy" })
  fail_cycle env run_id cycle)
