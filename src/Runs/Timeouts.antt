-- ===== src/Runs/Timeouts.antt =====
-- The time limits of the phases of an inference: `deriveInferencePhaseTimeouts` of
-- internal/platform/runs/service.go and its helpers.
pub mod Positive
use clawbot_server.Base.{String, Bool, Option, none, some, if◌then◌else◌, ltb}
use clawbot_server.Base.Int.{ℤ, pos, negsuc, is_positive, at_least, quot, ltb_ℤ}
use clawbot_server.Json.{
  Json, str, num, Fields, lookup, Raw, is_empty, is_braces, Decoded, object, nil_map, failed,
  unmarshal,
}
use clawbot_server.Text.{trim_space}
use clawbot_server.Text.Number.{atoi}
use clawbot_server.Runs.Config.{DependencyConfig}
use clawbot_server.Runs.Types.Execution.{ModelProfile}

pub record PhaseTimeouts : Type 0 where
  pub primary : ℤ
  pub guardrail : ℤ
  pub helper : ℤ

abbrev or_zero : Option ℤ → ℤ
or_zero none = pos 0
or_zero (some n) = n

-- `int(typed)` of a number with its fraction cut off. Out of the range of `int`, Go leaves the result
-- to the machine; this is what amd64 gives, the lowest `int`.
abbrev to_int : ℤ → ℤ
to_int (pos n) = if ltb n 0x8000000000000000 then pos n else negsuc 0x7fffffffffffffff
to_int (negsuc n) = if ltb n 0x8000000000000000 then negsuc n else negsuc 0x7fffffffffffffff

abbrev override_of : Option Json → ℤ
override_of (some (num thousandths)) = to_int (quot thousandths 1000)
override_of (some (str word)) = or_zero (atoi (trim_space word))
override_of _ = pos 0

unfoldable pub int_override : Fields → String → ℤ
int_override values key = override_of (lookup key values)

-- The limits for the phases, zero where the profile says nothing.
abbrev no_overrides : PhaseTimeouts
no_overrides = record { primary = pos 0; guardrail = pos 0; helper = pos 0 }

decoded_overrides : Decoded → PhaseTimeouts
unfolding int_override
decoded_overrides (object payload) = record {
  primary = int_override payload "primary_timeout_seconds";
  guardrail = int_override payload "guardrail_timeout_seconds";
  helper = int_override payload "helper_timeout_seconds";
}
decoded_overrides nil_map = no_overrides
decoded_overrides failed = no_overrides

unfoldable pub parse_phase_timeout_overrides : Raw → PhaseTimeouts
unfolding decoded_overrides
parse_phase_timeout_overrides raw =
    if is_empty raw
    then no_overrides
    else if is_braces raw
    then no_overrides
    else decoded_overrides (unmarshal raw)

-- The seconds are whole, and at least one. The source goes through a `float64`, which is exact up
-- to about 97 days.
unfoldable pub duration_to_seconds : ℤ → ℤ
duration_to_seconds value =
    let seconds = quot value 1000000000 in if is_positive seconds then seconds else pos 1

-- `if limit > 0 { result = limit }`.
abbrev pub override_by : ℤ → ℤ → ℤ
override_by limit result = if is_positive limit then limit else result

-- `if timeout > 0 { result = durationToSeconds(timeout) }`.
abbrev pub configure_by : ℤ → ℤ → ℤ
unfolding duration_to_seconds
configure_by timeout result = if is_positive timeout then duration_to_seconds timeout else result

-- `if result <= 0 { result = fallback }`.
abbrev pub or_positive : ℤ → ℤ → ℤ
or_positive result fallback = if is_positive result then result else fallback

unfoldable pub max_int : ℤ → ℤ → ℤ
max_int left right = if ltb_ℤ right left then left else right

unfoldable pub derive_inference_phase_timeouts : ModelProfile → DependencyConfig → PhaseTimeouts
unfolding parse_phase_timeout_overrides max_int
derive_inference_phase_timeouts profile deps =
    let base = or_positive profile.timeout_seconds (pos 45) in
    let half = max_int (pos 15) (quot base 2) in
    let helper = if ltb_ℤ base half then base else half in
    let overrides = parse_phase_timeout_overrides profile.connection_metadata in
    let primary = or_positive (override_by overrides.primary base) (pos 45) in
    let guardrail = configure_by deps.guardrail_timeout (override_by overrides.guardrail base) in
    record {
      primary = primary;
      guardrail = or_positive guardrail primary;
      helper =
          or_positive (configure_by deps.helper_timeout (override_by overrides.helper helper))
            primary;
    }
