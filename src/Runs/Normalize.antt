-- ===== src/Runs/Normalize.antt =====
-- The inputs of the runs service: what each handler normalises, and what it then refuses
-- (internal/platform/runs/service.go).
pub mod Accepts
use clawbot_server.Base.{String, not, [], ◌∷◌, Option, none, some, ◌==◌, one_of, if◌then◌else◌}
use clawbot_server.Base.Int.{ℤ, pos, is_positive, is_negative}
use clawbot_server.Json.{or_braces}
use clawbot_server.Text.{trim_space, to_lower}
use clawbot_server.Runs.Types.{CreateInput, CreateCycleInput}
use clawbot_server.Runs.Types.Governance.{
  AttachArtifactInput, UpsertComparisonInput, ReviewActionInput,
}
use clawbot_server.Runs.Types.Execution.{ExecuteRunInput, RegisterModelProfileInput}
use clawbot_server.Runs.Failure.{Failure, Result, ok, ◌>>◌, require}
use clawbot_server.Runs.Status.{
  is_valid_run_status, is_valid_run_type, is_valid_execution_mode, is_valid_execution_ring,
  is_valid_guardrail_status, is_valid_cycle_status, is_valid_comparison_review_status,
  default_execution_ring_for_mode, normalize_cycle_key,
}
use clawbot_server.Runs.CycleKey.{is_valid_cycle_key}
use clawbot_server.Runs.Refs.{dedupe_and_trim_strings}
use clawbot_server.Runs.Namespace.{or_text, normalize_memory_namespace}

-- `if p != nil { value := strings.TrimSpace(*p); p = &value }`.
abbrev pub trim_pointer : Option String → Option String
trim_pointer none = none
trim_pointer (some value) = some (trim_space value)

unfoldable pub normalize_create_input : CreateInput → String → CreateInput
normalize_create_input input actor =
    let mode = or_text (trim_space input.execution_mode) "deterministic" in
    record {
      name = trim_space input.name;
      description = trim_space input.description;
      status = or_text input.status "pending";
      scenario_type = trim_space input.scenario_type;
      run_type = or_text (trim_space input.run_type) "replay_run";
      execution_mode = mode;
      execution_ring =
          or_text (trim_space input.execution_ring) (default_execution_ring_for_mode mode);
      guardrail_status = or_text (trim_space input.guardrail_status) "guardrail_disabled";
      repo = trim_space input.repo;
      domain = trim_space input.domain;
      dataset_refs = dedupe_and_trim_strings input.dataset_refs;
      prompt_pack_version = trim_space input.prompt_pack_version;
      rule_pack_version = trim_space input.rule_pack_version;
      model_profile = or_text (trim_space input.model_profile) "ach-default";
      guardrail_profile = or_text (trim_space input.guardrail_profile) "ach-guardian-default";
      memory_namespace =
          normalize_memory_namespace input.memory_namespace (trim_space input.repo)
            (trim_space input.domain) (trim_space input.name);
      requested_by = or_text (trim_space input.requested_by) actor;
      created_by = or_text (trim_space input.created_by) actor;
      started_at = input.started_at;
      finished_at = input.finished_at;
      artifact_bundle_refs = dedupe_and_trim_strings input.artifact_bundle_refs;
      memory_snapshot_refs = dedupe_and_trim_strings input.memory_snapshot_refs;
      review_metadata_json = or_braces input.review_metadata_json;
      notes = trim_space input.notes;
      metadata_json = or_braces input.metadata_json;
    }

unfoldable pub validate_create_input : CreateInput → Result (Unit {0})
validate_create_input input = do
  require (not (input.name == "")) Failure.name_required
  require (is_valid_run_status input.status) (Failure.invalid_status input.status)
  require (is_valid_run_type input.run_type) (Failure.invalid_run_type input.run_type)
  require (is_valid_execution_mode input.execution_mode)
      (Failure.invalid_execution_mode input.execution_mode)
  require (is_valid_execution_ring input.execution_ring)
      (Failure.invalid_execution_ring input.execution_ring)
  require (is_valid_guardrail_status input.guardrail_status)
      (Failure.invalid_guardrail_status input.guardrail_status)
  require (not (input.model_profile == "")) Failure.model_profile_required
  require (not (input.requested_by == "")) Failure.requested_by_required

unfoldable pub normalize_execute_run_input : ExecuteRunInput → ExecuteRunInput
normalize_execute_run_input input = record input {
  cycle_id = trim_pointer input.cycle_id;
  agent_namespace = trim_pointer input.agent_namespace;
  prompt = trim_space input.prompt;
  system_prompt = trim_space input.system_prompt;
  input_json = or_braces input.input_json;
  memory_note = trim_space input.memory_note;
}

-- The empty status is replaced before the status is trimmed.
unfoldable pub normalize_create_cycle_input : CreateCycleInput → Result CreateCycleInput
normalize_create_cycle_input given = do
  let input : CreateCycleInput = record {
    cycle_key = normalize_cycle_key given.cycle_key;
    focus = trim_space given.focus;
    objective = trim_space given.objective;
    detector_pack = trim_space given.detector_pack;
    execution_ring = or_text (trim_space given.execution_ring) "ring_1";
    summary_ref = trim_space given.summary_ref;
    carry_forward_summary_ref = trim_space given.carry_forward_summary_ref;
    status = trim_space (or_text given.status "pending");
    metadata_json = or_braces given.metadata_json;
  }
  require (not (input.cycle_key == "")) Failure.cycle_key_required
  require (is_valid_cycle_key input.cycle_key) (Failure.invalid_cycle_key input.cycle_key)
  require (is_valid_cycle_status input.status) (Failure.invalid_cycle_status input.status)
  require (is_valid_execution_ring input.execution_ring)
      (Failure.invalid_execution_ring input.execution_ring)
  ok input

unfoldable pub normalize_attach_artifact_input : AttachArtifactInput → Result AttachArtifactInput
normalize_attach_artifact_input given = do
  let input : AttachArtifactInput = record {
    cycle_id = trim_pointer given.cycle_id;
    artifact_type = trim_space given.artifact_type;
    uri = trim_space given.uri;
    content_type = or_text (trim_space given.content_type) "application/json";
    version = trim_space given.version;
    checksum = trim_space given.checksum;
    metadata_json = or_braces given.metadata_json;
  }
  require (not (input.artifact_type == "")) Failure.artifact_type_required
  require (not (input.uri == "")) Failure.uri_required
  ok input

unfoldable pub normalize_upsert_comparison_input :
    UpsertComparisonInput → Result UpsertComparisonInput
normalize_upsert_comparison_input given = do
  let status : String = trim_space (or_text given.review_status "review_pending")
  require (is_valid_comparison_review_status status) (Failure.invalid_review_status status)
  ok (record given {
    cycle_id = trim_pointer given.cycle_id;
    deterministic_summary = or_braces given.deterministic_summary;
    llm_summary = or_braces given.llm_summary;
    guardrail_summary = or_braces given.guardrail_summary;
    deltas = or_braces given.deltas;
    review_status = status;
    reviewer_notes = trim_space given.reviewer_notes;
    final_disposition = trim_space given.final_disposition;
    final_output = or_braces given.final_output;
  })

abbrev or_positive : ℤ → ℤ → ℤ
or_positive value fallback = if is_positive value then value else fallback

unfoldable pub normalize_model_profile_input : RegisterModelProfileInput → RegisterModelProfileInput
normalize_model_profile_input input = record input {
  name = trim_space input.name;
  provider = trim_space input.provider;
  base_url = trim_space input.base_url;
  primary_model = trim_space input.primary_model;
  guardrail_model = trim_space input.guardrail_model;
  helper_model = trim_space input.helper_model;
  timeout_seconds = or_positive input.timeout_seconds (pos 45);
  max_tokens = or_positive input.max_tokens (pos 4096);
  connection_metadata = or_braces input.connection_metadata;
}

unfoldable pub validate_model_profile_input : RegisterModelProfileInput → Result (Unit {0})
validate_model_profile_input input = do
  require (not (input.name == "")) Failure.name_required
  require (not (input.provider == "")) Failure.provider_required
  require (not (input.primary_model == "")) Failure.primary_model_required
  require (is_positive input.timeout_seconds) Failure.timeout_not_positive
  require (is_positive input.max_tokens) Failure.max_tokens_not_positive
  require (not (is_negative input.temperature)) Failure.temperature_negative

unfoldable pub normalize_review_action_input : ReviewActionInput → String → ReviewActionInput
normalize_review_action_input input actor = record {
  action = trim_space (to_lower input.action);
  reviewer_id = or_text (trim_space input.reviewer_id) (trim_space actor);
  reviewer_type = or_text (trim_space (to_lower input.reviewer_type)) "human";
  rationale = trim_space input.rationale;
  cycle_id = trim_pointer input.cycle_id;
  policy_decision_id = trim_pointer input.policy_decision_id;
}

unfoldable pub validate_review_action_input : ReviewActionInput → Result (Unit {0})
validate_review_action_input input = do
  require (not (input.reviewer_id == "")) Failure.reviewer_id_required
  require (one_of ("approve" ∷ "reject" ∷ "override" ∷ "defer" ∷ []) input.action)
      (Failure.unsupported_review_action input.action)
