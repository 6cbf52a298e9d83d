-- ===== src/Runs/Service.antt =====
-- The service of internal/platform/runs/service.go: its configuration, the policy gate in front of an
-- operation, and the helpers that several operations share.
pub mod Guards
pub mod Runs
pub mod Cycles
pub mod Results
pub mod Execution
pub mod Phases
pub mod Inference
pub mod Finish
pub mod Execute
pub mod Requests
pub mod Reads
pub use clawbot_server.Runs.Config.{DependencyConfig}
use Prim.Native.String
use clawbot_server.Base.{
  ◌+◌, String, Bool, true, false, List, [], ◌∷◌, Option, none, some, ◌==◌, if◌then◌else◌, one_of,
}
use clawbot_server.Json.{
  Json, str, bool, arr, items, Fields, end, field, Raw, is_empty, is_braces, insert, marshal,
  Decoded, object, nil_map, failed, unmarshal,
}
use clawbot_server.Text.{trim_space, to_lower}
use clawbot_server.Runs.Types.{MemoryNamespace, Run, CreateInput, Cycle, CreateCycleInput}
use clawbot_server.Runs.Types.Governance.{
  AttachArtifactInput, PolicyDecision, GovernanceAuditEventInput,
}
use clawbot_server.Runs.Types.Execution.{ModelProfile, MemoryWriteInput}
use clawbot_server.Runs.Failure
use clawbot_server.Runs.Failure.{Failure, Result, ok, err}
use clawbot_server.Runs.Policy
use clawbot_server.Runs.Policy.{
  Value, text, flag, texts, PolicyInput, build_policy_input, evaluate_policy_outcome,
}
use clawbot_server.Runs.Store.{World, Env, Action, pure, fail, found, ◌>>=◌, ◌>>◌, require, called}
use clawbot_server.Runs.Repository.Decisions.{record_policy_decision}
use clawbot_server.Runs.Repository.Ledger.{append_governance_audit_event}

-- `json.Marshal` of the input of the policy.
abbrev value_json : Value → Json
value_json (text s) = str s
value_json (flag b) = bool b
value_json (texts ss) = arr (items ss)

abbrev input_fields : PolicyInput → Fields
input_fields [] = end
input_fields ((key, value) ∷ input) = insert key (value_json value) (input_fields input)

-- The entries of a patch, written into an object.
abbrev insert_all : Fields → Fields → Fields
insert_all end payload = payload
insert_all (field key value patch) payload = insert_all patch (insert key value payload)

-- The map that a patch is written into. Writing into the nil map, which the text `null` gives, is a
-- panic.
abbrev merge_decoded : Decoded → Fields → Result Raw
merge_decoded (object payload) patch = ok (marshal (insert_all patch payload))
merge_decoded nil_map patch = err Failure.nil_map_write
merge_decoded failed patch = ok (marshal (insert_all patch end))

unfoldable pub merge_json_objects : Raw → Fields → Result Raw
merge_json_objects raw patch =
    if is_empty raw
    then ok (marshal (insert_all patch end))
    else if is_braces raw
    then ok (marshal (insert_all patch end))
    else merge_decoded (unmarshal raw) patch

-- `optionalRunID` and `optionalCycleID`, on the identifier of a row that may be missing.
abbrev pub optional_id : Option String → Option String
optional_id none = none
optional_id (some id) = if trim_space id == "" then none else some id

abbrev pub run_id_of : Option Run → Option String
run_id_of none = none
run_id_of (some run) = some run.id

abbrev pub cycle_id_of : Option Cycle → Option String
cycle_id_of none = none
cycle_id_of (some cycle) = some cycle.id

abbrev pub policy_denied_error : PolicyDecision → Failure
policy_denied_error decision =
    Failure.policy_denied decision.reason_code decision.policy_bundle_id
      decision.policy_bundle_version

-- A governance event with no artifact.
abbrev pub event_of :
    String
    → String
    → String
    → Option String
    → Option String
    → Option String
    → Fields
    → GovernanceAuditEventInput
event_of actor actor_type action run cycle decision payload = record {
  actor_id = actor;
  actor_type = actor_type;
  action_type = action;
  target_run_id = run;
  target_cycle_id = cycle;
  target_artifact_id = none;
  policy_decision_id = decision;
  payload_summary = marshal payload;
}

module _ (env : Env) (deps : DependencyConfig) where
  unfoldable pub evaluate_and_record_policy :
      String
      → String
      → Option Run
      → Option Cycle
      → Option CreateInput
      → Option CreateCycleInput
      → Option AttachArtifactInput
      → Option ModelProfile
      → Action PolicyDecision
  evaluate_and_record_policy action actor run cycle create_run create_cycle artifact profile = do
    let input =
        build_policy_input action actor deps.environment run cycle create_run create_cycle artifact
          profile
    let outcome = evaluate_policy_outcome input
    decision ← record_policy_decision env record {
      action_type = action;
      target_run_id = optional_id (run_id_of run);
      target_cycle_id = optional_id (cycle_id_of cycle);
      actor_id = actor;
      actor_type = "user";
      policy_input = marshal (input_fields input);
      allow = outcome.allow;
      policy_bundle_id = deps.policy_bundle_id;
      policy_bundle_version = deps.policy_bundle_version;
      reason_code = outcome.reason_code;
      conditions_applied = outcome.conditions_applied;
      fallback_mode = outcome.fallback_mode;
    }
    append_governance_audit_event env (
        event_of actor "user" (if outcome.allow then "policy.allow" else "policy.deny")
          decision.target_run_id decision.target_cycle_id (some decision.id)
          (field "action" (str action) (
            field "allow" (bool outcome.allow) (
              field "reason_code" (str outcome.reason_code) (
                field "conditions_applied" (arr (items outcome.conditions_applied))
                  (field "fallback_mode" (str outcome.fallback_mode) end))))))
    pure decision

-- `m.memory.PersistScopedNotes`, which the memory service answers with a reference.
unfoldable pub persist_notes : Env → MemoryNamespace → MemoryWriteInput → Action String
persist_notes env namespace input w = elim (env.persist w.calls namespace input) [
  | none ↦ (err Failure.memory_persist_failed, called w)
  | some ref ↦ (ok ref, record w { calls = w.calls + 1; notes = (namespace, input) ∷ w.notes })
]
