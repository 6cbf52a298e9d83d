-- ===== src/Runs/Timeouts/Positive.antt =====
-- No phase of an inference has a time limit of zero or less.
use clawbot_server.Base.{true, ◌≡◌, refl, Bool-cases, inl, inr, if◌then◌else◌, arith}
use clawbot_server.Base.Int.{ℤ, pos, negsuc, is_positive, quot, ltb_ℤ}
use clawbot_server.Runs.Config.{DependencyConfig}
use clawbot_server.Runs.Types.Execution.{ModelProfile}
use clawbot_server.Runs.Timeouts.{
  PhaseTimeouts, parse_phase_timeout_overrides, duration_to_seconds, override_by, configure_by,
  or_positive, max_int, derive_inference_phase_timeouts,
}

-- The limit is above zero.
abbrev pub IsPositive : ℤ → Type 0
IsPositive limit = is_positive limit ≡ true

override_by-IsPositive :
    (limit result : ℤ) → IsPositive result → IsPositive (override_by limit result)
override_by-IsPositive limit result h = elim (Bool-cases (is_positive limit)) [
  | inl given ↦ rw given given
  | inr absent ↦ rw absent h
]

duration_to_seconds-IsPositive : (value : ℤ) → IsPositive (duration_to_seconds value)
unfolding duration_to_seconds
duration_to_seconds-IsPositive value = elim (Bool-cases (is_positive (quot value 1000000000))) [
  | inl given ↦ rw given given
  | inr absent ↦ rw absent refl
]

configure_by-IsPositive :
    (timeout result : ℤ) → IsPositive result → IsPositive (configure_by timeout result)
unfolding duration_to_seconds
configure_by-IsPositive timeout result h = elim (Bool-cases (is_positive timeout)) [
  | inl given ↦ rw given (duration_to_seconds-IsPositive timeout)
  | inr absent ↦ rw absent h
]

-- A fallback for what is positive is never used.
or_positive_same : (result fallback : ℤ) → IsPositive result → or_positive result fallback ≡ result
or_positive_same result fallback h = rw h refl

base-IsPositive : (seconds : ℤ) → IsPositive (or_positive seconds (pos 45))
base-IsPositive seconds = override_by-IsPositive seconds (pos 45) refl

-- The limit of the helper where nobody sets one: half of the base, but 15 seconds or more, and the
-- base itself where that is less.
abbrev pub default_helper : ℤ → ℤ
default_helper base =
    let half = max_int (pos 15) (quot base 2) in if ltb_ℤ base half then base else half

default_helper-IsPositive : (base : ℤ) → IsPositive base → IsPositive (default_helper base)
unfolding max_int
default_helper-IsPositive (pos n) h = ground arith
default_helper-IsPositive (negsuc n) h = cc

-- What decides each limit, in turn: for the guardrail and the helper the configuration, for all the
-- profile's own override, and then the base.
abbrev pub chosen : ModelProfile → DependencyConfig → PhaseTimeouts
chosen profile deps =
    let base = or_positive profile.timeout_seconds (pos 45) in
    let overrides = parse_phase_timeout_overrides profile.connection_metadata in
    record {
      primary = override_by overrides.primary base;
      guardrail = configure_by deps.guardrail_timeout (override_by overrides.guardrail base);
      helper =
          configure_by deps.helper_timeout (override_by overrides.helper (default_helper base));
    }

-- Every phase has a limit above zero: the configured one, else the override of the profile, else the
-- base of the profile or 45 seconds, and for the helper half of that within bounds. So the checks at
-- the end of the code change nothing.
pub derive_inference_phase_timeouts_lem :
    (profile : ModelProfile) (deps : DependencyConfig)
    → (derive_inference_phase_timeouts profile deps ≡ chosen profile deps)
      × IsPositive (derive_inference_phase_timeouts profile deps).primary
      × IsPositive (derive_inference_phase_timeouts profile deps).guardrail
      × IsPositive (derive_inference_phase_timeouts profile deps).helper
unfolding derive_inference_phase_timeouts max_int
derive_inference_phase_timeouts_lem profile deps =
    let base = or_positive profile.timeout_seconds (pos 45) in
    let above = base-IsPositive profile.timeout_seconds in
    let overrides = parse_phase_timeout_overrides profile.connection_metadata in
    let first = override_by-IsPositive overrides.primary base above in
    let second =
      configure_by-IsPositive deps.guardrail_timeout _
        (override_by-IsPositive overrides.guardrail base above) in
    let third =
      configure_by-IsPositive deps.helper_timeout _
        (override_by-IsPositive overrides.helper _ (default_helper-IsPositive base above)) in
    rw (first, second, third) (refl, first, second, third)
