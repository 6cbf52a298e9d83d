-- ===== src/Runs/Tests/Execution.antt =====
-- Tests of steps of the execution of a run.
use clawbot_server.Base.{String, ◌≡◌, refl, true, false, [], ◌∷◌, Option, none, some}
use clawbot_server.Base.Int.{pos}
use clawbot_server.Json.{null, bool, str, num, end, field, obj, doc}
use clawbot_server.Text.{trim_space, to_lower}
use clawbot_server.Text.Number.{atoi}
use clawbot_server.Runs.Types.{Cycle}
use clawbot_server.Runs.Config.{DependencyConfig}
use clawbot_server.Runs.Types.Execution.{ModelProfile}
use clawbot_server.Runs.Failure.{ok}
use clawbot_server.Runs.Timeouts.{
  PhaseTimeouts, derive_inference_phase_timeouts, parse_phase_timeout_overrides, int_override,
  duration_to_seconds, max_int,
}
use clawbot_server.Runs.Timeouts.Positive.{chosen, IsPositive, derive_inference_phase_timeouts_lem}
use clawbot_server.Runs.Store.{World, ◌>>=◌, pure, require, tables, statement, found}
use clawbot_server.Runs.Repository.Cycles.{get_cycle_row, scan_cycle}
use clawbot_server.Runs.Service.Execution.{helper_requested, resolve_execution_cycle}
use clawbot_server.Runs.Service.Execution.Resolved.{IsResolved, resolve_execution_cycle-IsResolved}
use clawbot_server.Runs.Tests.Samples.{week_run, first_day, local_profile}
use clawbot_server.Runs.Tests.Worlds.{ticking, configured, empty_world}

-- Half a second for the guardrail, and the overrides 90.5 and " 20 " for the other phases.
abbrev slow_profile : ModelProfile
slow_profile = record local_profile {
  connection_metadata = doc (
      obj (
        field "primary_timeout_seconds" (num (pos 90500))
          (field "helper_timeout_seconds" (str " 20 ") end)));
}

abbrev half_second : DependencyConfig
half_second = record configured { guardrail_timeout = pos 500000000 }

abbrev limits : PhaseTimeouts
limits = record { primary = pos 90; guardrail = pos 1; helper = pos 20 }

limits_derived : derive_inference_phase_timeouts slow_profile half_second ≡ limits
unfolding derive_inference_phase_timeouts parse_phase_timeout_overrides int_override
    duration_to_seconds max_int trim_space atoi
limits_derived = refl

derive_inference_phase_timeouts_lem_example :
    (derive_inference_phase_timeouts slow_profile half_second ≡ chosen slow_profile half_second)
    × IsPositive (derive_inference_phase_timeouts slow_profile half_second).primary
    × IsPositive (derive_inference_phase_timeouts slow_profile half_second).guardrail
    × IsPositive (derive_inference_phase_timeouts slow_profile half_second).helper
derive_inference_phase_timeouts_lem_example =
    derive_inference_phase_timeouts_lem slow_profile half_second

abbrev one_week : World
one_week = record empty_world {
  db = record empty_world.db { runs = week_run ∷ []; cycles = first_day ∷ [] };
}

abbrev day_found : Option Cycle × Option String
day_found = (some first_day, some "c1")

day_resolved :
    (resolve_execution_cycle ticking week_run none (some " c1") one_week).0 ≡ ok day_found
unfolding resolve_execution_cycle get_cycle_row scan_cycle ◌>>=◌ pure require tables statement found
    trim_space
day_resolved = refl

resolve_execution_cycle-IsResolved_example : IsResolved week_run day_found
resolve_execution_cycle-IsResolved_example =
    resolve_execution_cycle-IsResolved ticking week_run none (some " c1") one_week day_found
      day_resolved

-- The first key with a value of a known type decides.
helpers_requested :
    (helper_requested (doc (obj (field "enable_helper" (str " Yes ") end))) ≡ true)
    × (helper_requested (
          doc (
            obj
              (field "helper_requested" (bool false) (field "needs_helper" (num (pos 1000)) end))))
        ≡ false)
    × (helper_requested
          (doc (obj (field "helper_requested" null (field "needs_helper" (num (pos 1000)) end))))
        ≡ true)
unfolding helper_requested trim_space to_lower
helpers_requested = (refl, refl, refl)
