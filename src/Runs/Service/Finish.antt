-- ===== src/Runs/Service/Finish.antt =====
-- The end of an execution: the statuses, references and logs that `executeRun` of
-- internal/platform/runs/service.go writes.
use clawbot_server.Base.{
  String, ◌||◌, List, [], ◌∷◌, length, Option, none, some, ◌==◌, if◌then◌else◌, map, ℕ,
}
use clawbot_server.Json.{str, whole, end, field}
use clawbot_server.Runs.Types.{Run, Cycle}
use clawbot_server.Runs.Types.Governance.{Artifact}
use clawbot_server.Runs.Refs.{append_unique}
use clawbot_server.Runs.Store.{of_fields, Env, Action, pure, lift, ◌>>=◌, ◌>>◌}
use clawbot_server.Runs.Repository.{update_run}
use clawbot_server.Runs.Repository.Cycles.{update_cycle_row}
use clawbot_server.Runs.Repository.Ledger.{
  append_governance_audit_event, record_audit, record_run_intent,
}
use clawbot_server.Runs.Service.{merge_json_objects, event_of}
use clawbot_server.Runs.Service.Phases.{Produced}

-- The status of a run at the end: an inference whose guardrail did not answer is deferred, and any
-- other waits for a review.
abbrev pub final_run_status : String → String → String
final_run_status mode guardrail =
    if mode == "deterministic"
    then "completed"
    else if guardrail == "guardrail_timeout" || guardrail == "guardrail_unavailable"
    then "guardrail_deferred"
    else "review_pending"

-- The status of its cycle, which the source decides anew.
abbrev pub final_cycle_status : String → String → String
final_cycle_status mode guardrail =
    if mode == "deterministic"
    then "completed"
    else if guardrail == "guardrail_timeout" || guardrail == "guardrail_unavailable"
    then "guardrail_deferred"
    else "review_pending"

-- Each reference that is created, one after the other.
abbrev append_all : List String → List String → List String
append_all refs [] = refs
append_all refs (uri ∷ uris) = append_all (append_unique refs uri) uris

-- The references of a run with that of a snapshot, unless it is empty.
abbrev with_snapshot : List String → String → List String
with_snapshot refs ref = if ref == "" then refs else append_unique refs ref

abbrev first_uri : String → List Artifact → String
first_uri given [] = given
first_uri given (artifact ∷ artifacts) = if given == "" then artifact.uri else given

-- The cycle at the end of its execution.
abbrev finished_cycle : Cycle → String → Produced → String → ℕ → Cycle
finished_cycle cycle mode produced ref at = record cycle {
  finished_at = some at;
  guardrail_status = produced.guardrail_status;
  status = final_cycle_status mode produced.guardrail_status;
  memory_snapshot_ref = if ref == "" then cycle.memory_snapshot_ref else ref;
  carry_forward_summary_ref = if ref == "" then cycle.carry_forward_summary_ref else ref;
  summary_ref = first_uri cycle.summary_ref produced.artifacts;
}

-- The second event of an execution whose guardrail did not pass or flag.
abbrev guardrail_action : String → Option String
guardrail_action status =
    if status == "guardrail_disabled"
    then some "guardrail.disabled"
    else if status == "guardrail_timeout" || status == "guardrail_unavailable"
    then some "guardrail.deferred"
    else none

module _ (env : Env) where
  unfoldable pub finish_cycle : Option Cycle → String → Produced → String → ℕ → Action (Unit {0})
  finish_cycle none mode produced ref at = pure tt
  finish_cycle (some cycle) mode produced ref at = do
    update_cycle_row env (finished_cycle cycle mode produced ref at)
    pure tt

  unfoldable pub record_guardrail :
      Option String → String → Run → Option String → String → String → Action (Unit {0})
  record_guardrail none actor run cycle_id decision_id status = pure tt
  record_guardrail (some action) actor run cycle_id decision_id status = do
    append_governance_audit_event env (
        event_of actor "user" action (some run.id) cycle_id (some decision_id)
          (field "guardrail_status" (str status) end))
    pure tt

  -- The run at the end of its execution, stored.
  unfoldable pub finish_run : Run → Produced → String → String → ℕ → Action Run
  finish_run run produced ref decision_id at = do
    review ← lift (
        merge_json_objects run.review_metadata_json (
          field "last_policy_decision_id" (str decision_id)
            (field "guardrail_status" (str produced.guardrail_status) end)))
    update_run env (record run {
      artifact_bundle_refs =
          append_all run.artifact_bundle_refs (map (λ artifact. artifact.uri) produced.artifacts);
      memory_snapshot_refs = with_snapshot run.memory_snapshot_refs ref;
      guardrail_status = produced.guardrail_status;
      review_metadata_json = review;
      finished_at = some at;
      completed_at = some at;
      status = final_run_status run.execution_mode produced.guardrail_status;
    })

  -- What the logs get at the end.
  unfoldable pub log_execution :
      String → Run → Option String → String → Produced → Action (Unit {0})
  log_execution actor run cycle_id decision_id produced = do
    let status = produced.guardrail_status
    let count = whole (length produced.artifacts)
    record_audit env "run" "run.executed" actor run.id (
        of_fields (
          field "run_id" (str run.id) (
            field "run_type" (str run.run_type) (
              field "execution_mode" (str run.execution_mode)
                (field "guardrail_status" (str status) (field "artifact_count" count end))))))
    append_governance_audit_event env (
        event_of actor "user" "run.execute" (some run.id) cycle_id (some decision_id) (
          field "execution_mode" (str run.execution_mode) (
            field "execution_ring" (str run.execution_ring)
              (field "guardrail_status" (str status) (field "artifact_count" count end)))))
    record_guardrail (guardrail_action status) actor run cycle_id decision_id status
    record_run_intent env run actor "run.executed"
