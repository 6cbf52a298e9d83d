-- ===== src/Runs/Normalize/Accepts.antt =====
-- Which inputs that create a run are accepted, and what an accepted one holds.
use clawbot_server.Base.{
  [], ◌∷◌, sym, ◌∙◌, String, Bool, true, false, ◌&&◌, ◌||◌, ◌≡◌, refl, ◌↔◌, arith, ◌==◌, one_of,
  Bool-cases, inl, inr,
}
use clawbot_server.Text.{trim_space}
use clawbot_server.Runs.Types.{CreateInput}
use clawbot_server.Runs.Failure.{ok}
use clawbot_server.Runs.Status.{
  is_valid_run_status, is_valid_run_type, is_valid_execution_mode, is_valid_execution_ring,
  is_valid_guardrail_status, default_execution_ring_for_mode,
}
use clawbot_server.Runs.Namespace.{or_text}
use clawbot_server.Runs.Normalize.{normalize_create_input, validate_create_input}

-- The word is missing, or it is one of those known.
abbrev pub IsBlankOr : (String → Bool) → String → Type 0
IsBlankOr known word = ((word == "") || known word) ≡ true

-- What is asked of an input: a name, words that are blank or known, and somebody who asks. The
-- status alone is taken as it stands, with its white space.
pub record IsAcceptable (input : CreateInput) (actor : String) : Type 0 where
  pub named : (trim_space input.name == "") ≡ false
  pub status : IsBlankOr is_valid_run_status input.status
  pub run_type : IsBlankOr is_valid_run_type (trim_space input.run_type)
  pub mode : IsBlankOr is_valid_execution_mode (trim_space input.execution_mode)
  pub ring : IsBlankOr is_valid_execution_ring (trim_space input.execution_ring)
  pub guardrail : IsBlankOr is_valid_guardrail_status (trim_space input.guardrail_status)
  pub asked : (trim_space input.requested_by == "" && actor == "") ≡ false

-- A word with a known default passes exactly when it is blank or known.
or_text-known :
    (known : String → Bool) (word fallback : String)
    → known fallback ≡ true
    → known (or_text word fallback) ≡ (word == "" || known word)
or_text-known known word fallback h = elim (Bool-cases (word == "")) [
  | inl blank ↦ rw blank h
  | inr full ↦ rw full refl
]

or_text-empty :
    (word fallback : String) → (or_text word fallback == "") ≡ (word == "" && fallback == "")
or_text-empty word fallback = elim (Bool-cases (word == "")) [
  | inl blank ↦ rw blank refl
  | inr full ↦ rw full full
]

default_ring_known :
    (mode : String) → is_valid_execution_ring (default_execution_ring_for_mode mode) ≡ true
unfolding default_execution_ring_for_mode is_valid_execution_ring
default_ring_known mode = elim (Bool-cases (one_of ("llm" ∷ "dual" ∷ []) mode)) [
  | inl model ↦ rw model refl
  | inr other ↦ rw other refl
]

-- The checks, each on its own.
pub record PassesChecks (input : CreateInput) : Type 0 where
  pub named : (input.name == "") ≡ false
  pub status : is_valid_run_status input.status ≡ true
  pub run_type : is_valid_run_type input.run_type ≡ true
  pub mode : is_valid_execution_mode input.execution_mode ≡ true
  pub ring : is_valid_execution_ring input.execution_ring ≡ true
  pub guardrail : is_valid_guardrail_status input.guardrail_status ≡ true
  pub profiled : (input.model_profile == "") ≡ false
  pub asked : (input.requested_by == "") ≡ false

pub validate_create_input-PassesChecks :
    (input : CreateInput) → (validate_create_input input ≡ ok tt) ↔ PassesChecks input
unfolding validate_create_input
validate_create_input-PassesChecks input = (λ h. ground arith, λ h. ground arith)

-- Each word of the normalised input that has a default.
module _ (input : CreateInput) (actor : String) where
  status_known :
      is_valid_run_status (normalize_create_input input actor).status
      ≡ (input.status == "" || is_valid_run_status input.status)
  unfolding normalize_create_input
  status_known =
      or_text-known is_valid_run_status input.status "pending" (unfold is_valid_run_status in refl)

  run_type_known :
      is_valid_run_type (normalize_create_input input actor).run_type
      ≡ (trim_space input.run_type == "" || is_valid_run_type (trim_space input.run_type))
  unfolding normalize_create_input
  run_type_known = or_text-known is_valid_run_type _ "replay_run" (unfold is_valid_run_type in refl)

  mode_known : is_valid_execution_mode (normalize_create_input input actor).execution_mode ≡ (
      trim_space input.execution_mode == ""
      || is_valid_execution_mode (trim_space input.execution_mode))
  unfolding normalize_create_input
  mode_known =
      or_text-known is_valid_execution_mode _ "deterministic"
        (unfold is_valid_execution_mode in refl)

  ring_known : is_valid_execution_ring (normalize_create_input input actor).execution_ring ≡ (
      trim_space input.execution_ring == ""
      || is_valid_execution_ring (trim_space input.execution_ring))
  unfolding normalize_create_input
  ring_known = or_text-known is_valid_execution_ring _ _ (default_ring_known _)

  guardrail_known :
      is_valid_guardrail_status (normalize_create_input input actor).guardrail_status ≡ (
        trim_space input.guardrail_status == ""
        || is_valid_guardrail_status (trim_space input.guardrail_status))
  unfolding normalize_create_input
  guardrail_known =
      or_text-known is_valid_guardrail_status _ "guardrail_disabled"
        (unfold is_valid_guardrail_status in refl)

  name_kept : (trim_space input.name == "") ≡ ((normalize_create_input input actor).name == "")
  unfolding normalize_create_input
  name_kept = refl

  profile_full : ((normalize_create_input input actor).model_profile == "") ≡ false
  unfolding normalize_create_input
  profile_full = or_text-empty (trim_space input.model_profile) "ach-default" ∙ ground arith

  asked_for :
      ((normalize_create_input input actor).requested_by == "")
      ≡ (trim_space input.requested_by == "" && actor == "")
  unfolding normalize_create_input
  asked_for = or_text-empty (trim_space input.requested_by) actor

-- A new run is accepted exactly when the trimmed name is not empty; the status as it stands, and the
-- type, the mode, the ring and the guardrail status each trimmed, are empty or known; and somebody
-- asked for it: the trimmed name in the input or the actor is not empty.
pub validate_create_input_iff :
    (input : CreateInput) (actor : String)
    → (validate_create_input (normalize_create_input input actor) ≡ ok tt)
      ↔ IsAcceptable input actor
validate_create_input_iff input actor =
    let checks = validate_create_input-PassesChecks (normalize_create_input input actor) in
    (
      λ h.
          let c = checks.0 h in
          record {
            named = name_kept input actor ∙ c.named;
            status = sym (status_known input actor) ∙ c.status;
            run_type = sym (run_type_known input actor) ∙ c.run_type;
            mode = sym (mode_known input actor) ∙ c.mode;
            ring = sym (ring_known input actor) ∙ c.ring;
            guardrail = sym (guardrail_known input actor) ∙ c.guardrail;
            asked = sym (asked_for input actor) ∙ c.asked;
          },
      λ h. checks.1 record {
        named = sym (name_kept input actor) ∙ h.named;
        status = status_known input actor ∙ h.status;
        run_type = run_type_known input actor ∙ h.run_type;
        mode = mode_known input actor ∙ h.mode;
        ring = ring_known input actor ∙ h.ring;
        guardrail = guardrail_known input actor ∙ h.guardrail;
        profiled = profile_full input actor;
        asked = asked_for input actor ∙ h.asked;
      },
    )
