-- ===== src/Runs/Failure.antt =====
-- The errors of internal/platform/runs/service.go, one constructor for each message, with what the
-- message shows; a panic is one more. Then chains of steps that may fail.
use clawbot_server.Base.{String, Bool, ◌≡◌, refl, if◌then◌else◌}

pub data Failure : Type 0 where
  name_required model_profile_required requested_by_required : Failure
  invalid_status invalid_run_type invalid_execution_mode : String → Failure
  invalid_execution_ring invalid_guardrail_status : String → Failure
  run_id_required cycle_id_required run_and_cycle_id_required : Failure
  cycle_key_required : Failure
  invalid_cycle_key invalid_cycle_status : String → Failure
  invalid_cycle_transition : String → String → Failure
  cycles_need_week_run : Failure
  artifact_type_required uri_required : Failure
  invalid_review_status : String → Failure
  provider_required primary_model_required : Failure
  timeout_not_positive max_tokens_not_positive temperature_negative : Failure
  model_profile_id_required : Failure
  reviewer_id_required : Failure
  unsupported_review_action : String → Failure
  policy_denied : String → String → String → Failure
  execution_unsupported : String → Failure
  cycle_needed_for_week_run cycle_only_for_week_run : Failure
  not_found : Failure
  memory_fetch_failed memory_persist_failed inference_failed : Failure
  storage_failed no_rows unique_violation : Failure
  nil_map_write : Failure

-- What a step gives: a failure stops the steps after it.
pub data Result {ℓ} (A : Type ℓ) : Type ℓ where
  err : Failure → Result A
  ok : A → Result A

-- `if !test { return error }`.
abbrev pub require : Bool → Failure → Result (Unit {0})
require test failure = if test then ok tt else err failure

module _ {ℓ κ} {A : Type ℓ} {B : Type κ} where
  infixl 5 ◌>>=◌
  abbrev pub ◌>>=◌ : Result A → (A → Result B) → Result B
  ◌>>=◌ (err failure) next_step = err failure
  ◌>>=◌ (ok value) next_step = next_step value

  -- A chain that succeeds has a first step that does.
  pub >>=-eq-ok :
      (first : Result A) (next_step : A → Result B) {result : B}
      → (first >>= next_step) ≡ ok result
      → (value : A) × (first ≡ ok value) × (next_step value ≡ ok result)
  >>=-eq-ok (err failure) next_step h = cc
  >>=-eq-ok (ok value) next_step h = (value, refl, h)

module _ {κ} {B : Type κ} where
  infixl 5 ◌>>◌
  abbrev pub ◌>>◌ : Result (Unit {0}) → Result B → Result B
  check >> rest = check >>= λ passed. rest

pub ok-injective {ℓ} : {A : Type ℓ} {value other : A} → ok value ≡ ok other → value ≡ other
ok-injective h = cc
