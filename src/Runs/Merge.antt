-- ===== src/Runs/Merge.antt =====
-- Updates of a run and of a cycle: `mergeRun` and `mergeCycle` of internal/platform/runs/service.go.
pub mod Words
pub mod Tidy
pub mod Cycles
use clawbot_server.Base.{
  ℕ, String, Bool, true, not, List, Option, none, some, ◌==◌, if◌then◌else◌, or_else,
}
use clawbot_server.Json.{Raw, or_braces}
use clawbot_server.Text.{trim_space}
use clawbot_server.Runs.Types.{MemoryNamespace, Run, UpdateInput, Cycle, UpdateCycleInput}
use clawbot_server.Runs.Failure
use clawbot_server.Runs.Failure.{Failure, Result, ok, err, ◌>>=◌, ◌>>◌, require}
use clawbot_server.Runs.Status.{
  is_valid_run_status, is_valid_run_type, is_valid_execution_mode, is_valid_execution_ring,
  is_valid_guardrail_status, is_valid_cycle_status, is_valid_cycle_transition,
  default_execution_ring_for_mode,
}
use clawbot_server.Runs.Refs.{dedupe_and_trim_strings}
use clawbot_server.Runs.Namespace.{or_text, normalize_memory_namespace}

-- `if p != nil { field = strings.TrimSpace(*p) }`.
abbrev pub set_text : Option String → String → String
set_text none old = old
set_text (some value) old = trim_space value

-- `if p != nil { field = p }`, for a field that is a pointer.
abbrev pub set_pointer {ℓ} : {A : Type ℓ} → Option A → Option A → Option A
set_pointer none old = old
set_pointer (some value) old = some value

abbrev set_refs : Option (List String) → List String → List String
set_refs none old = old
set_refs (some values) old = dedupe_and_trim_strings values

-- The fields that an input sets, before the checks. `CompletedAt` is set after `FinishedAt`, each
-- with the other.
unfoldable pub assign_run : Run → UpdateInput → Run
assign_run existing input =
    let repo = set_text input.repo existing.repo in
    let domain = set_text input.domain existing.domain in
    let namespace = or_else input.memory_namespace existing.memory_namespace in
    record existing {
      name = set_text input.name existing.name;
      description = set_text input.description existing.description;
      status = set_text input.status existing.status;
      scenario_type = set_text input.scenario_type existing.scenario_type;
      run_type = set_text input.run_type existing.run_type;
      execution_mode = set_text input.execution_mode existing.execution_mode;
      execution_ring = set_text input.execution_ring existing.execution_ring;
      guardrail_status = set_text input.guardrail_status existing.guardrail_status;
      repo = repo;
      domain = domain;
      dataset_refs = set_refs input.dataset_refs existing.dataset_refs;
      prompt_pack_version = set_text input.prompt_pack_version existing.prompt_pack_version;
      rule_pack_version = set_text input.rule_pack_version existing.rule_pack_version;
      model_profile = set_text input.model_profile existing.model_profile;
      guardrail_profile = set_text input.guardrail_profile existing.guardrail_profile;
      memory_namespace = normalize_memory_namespace namespace repo domain existing.id;
      requested_by = set_text input.requested_by existing.requested_by;
      started_at = set_pointer input.started_at existing.started_at;
      finished_at =
          set_pointer input.completed_at (set_pointer input.finished_at existing.finished_at);
      completed_at =
          set_pointer input.completed_at (set_pointer input.finished_at existing.completed_at);
      artifact_bundle_refs = set_refs input.artifact_bundle_refs existing.artifact_bundle_refs;
      memory_snapshot_refs = set_refs input.memory_snapshot_refs existing.memory_snapshot_refs;
      review_metadata_json = or_else input.review_metadata_json existing.review_metadata_json;
      notes = set_text input.notes existing.notes;
      metadata_json = or_else input.metadata_json existing.metadata_json;
    }

unfoldable pub check_run : Run → Result (Unit {0})
check_run run = do
  require (not (run.name == "")) Failure.name_required
  require (is_valid_run_status run.status) (Failure.invalid_status run.status)
  require (is_valid_run_type run.run_type) (Failure.invalid_run_type run.run_type)
  require (is_valid_execution_mode run.execution_mode)
      (Failure.invalid_execution_mode run.execution_mode)
  require (is_valid_execution_ring run.execution_ring)
      (Failure.invalid_execution_ring run.execution_ring)
  require (is_valid_guardrail_status run.guardrail_status)
      (Failure.invalid_guardrail_status run.guardrail_status)

-- The defaults, which are filled in after the checks.
unfoldable pub default_run : Run → Run
default_run run = record run {
  model_profile = or_text run.model_profile "ach-default";
  execution_ring = or_text run.execution_ring (default_execution_ring_for_mode run.execution_mode);
  guardrail_status = or_text run.guardrail_status "guardrail_disabled";
  guardrail_profile = or_text run.guardrail_profile "ach-guardian-default";
  metadata_json = or_braces run.metadata_json;
  review_metadata_json = or_braces run.review_metadata_json;
}

unfoldable pub merge_run : Run → UpdateInput → Result Run
merge_run existing input = do
  let run = assign_run existing input
  check_run run
  ok (default_run run)

-- The new status of a cycle, if one is given.
unfoldable pub merge_status : String → Option String → Result String
merge_status current none = ok current
merge_status current (some given) = do
  let next = trim_space given
  require (is_valid_cycle_status next) (Failure.invalid_cycle_status next)
  require (is_valid_cycle_transition current next) (Failure.invalid_cycle_transition current next)
  ok next

unfoldable pub merge_cycle : Cycle → UpdateCycleInput → Result Cycle
merge_cycle existing input = do
  let ring = set_text input.execution_ring existing.execution_ring
  let guardrail = set_text input.guardrail_status existing.guardrail_status
  status ← merge_status existing.status input.status
  require (is_valid_execution_ring ring) (Failure.invalid_execution_ring ring)
  require (is_valid_guardrail_status guardrail) (Failure.invalid_guardrail_status guardrail)
  ok (record existing {
    focus = set_text input.focus existing.focus;
    objective = set_text input.objective existing.objective;
    detector_pack = set_text input.detector_pack existing.detector_pack;
    execution_ring = ring;
    guardrail_status = guardrail;
    summary_ref = set_text input.summary_ref existing.summary_ref;
    carry_forward_summary_ref =
        set_text input.carry_forward_summary_ref existing.carry_forward_summary_ref;
    status = status;
    started_at = set_pointer input.started_at existing.started_at;
    finished_at = set_pointer input.finished_at existing.finished_at;
    metadata_json = or_braces (or_else input.metadata_json existing.metadata_json);
  })
