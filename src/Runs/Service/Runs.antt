-- ===== src/Runs/Service/Runs.antt =====
-- Operations on runs: `Create`, `Update` and `ReviewAction` of internal/platform/runs/service.go.
use Prim.Native.String
use clawbot_server.Base.{String, not, Option, none, some, ◌==◌, if◌then◌else◌}
use clawbot_server.Json.{str, obj, end, field}
use clawbot_server.Text.{trim_space}
use clawbot_server.Text.Digits.{format_time}
use clawbot_server.Runs.Types.{Run, CreateInput, UpdateInput, Cycle}
use clawbot_server.Runs.Types.Governance.{ReviewActionInput}
use clawbot_server.Runs.Failure.{Failure}
use clawbot_server.Runs.Normalize.{
  normalize_create_input, validate_create_input, normalize_review_action_input,
  validate_review_action_input,
}
use clawbot_server.Runs.Merge.{merge_run}
use clawbot_server.Runs.Store.{
  of_run, of_fields, Env, Action, pure, lift, ◌>>=◌, ◌>>◌, require, time_now, in_tx,
}
use clawbot_server.Runs.Repository.{get_run, create_run, update_run}
use clawbot_server.Runs.Repository.Cycles.{get_cycle_row, update_cycle_row}
use clawbot_server.Runs.Repository.Decisions.{record_review_action}
use clawbot_server.Runs.Repository.Ledger.{
  append_governance_audit_event, record_audit, record_run_intent,
}
use clawbot_server.Runs.Service.{
  DependencyConfig, evaluate_and_record_policy, policy_denied_error, merge_json_objects, event_of,
}
use clawbot_server.Runs.Service.Guards.{
  map_review_action_to_run_status, map_review_action_to_cycle_status,
}

-- `if input.CycleID != nil && strings.TrimSpace(*input.CycleID) != ""`, with the trimmed identifier.
abbrev pub given_id : Option String → Option String
given_id none = none
given_id (some id) = if trim_space id == "" then none else some (trim_space id)

-- The cycle that is given, if one is.
unfoldable pub given_cycle : Env → String → Option String → Action (Option Cycle)
given_cycle env run none = pure none
given_cycle env run (some id) = do cycle ← get_cycle_row env run id; pure (some cycle)

unfoldable pub review_cycle : Env → String → Option String → String → Action (Unit {0})
review_cycle env run none action = pure tt
review_cycle env run (some id) action = do
  cycle ← get_cycle_row env run id
  status ← lift (map_review_action_to_cycle_status action)
  update_cycle_row env (record cycle { status = status })
  pure tt

-- `"run.review." + action`.
abbrev pub review_action_type : String → String
review_action_type action = String.◌++◌ "run.review." action

-- `if reviewInput.PolicyDecisionID == nil`.
abbrev or_decision : Option String → String → Option String
or_decision none id = some id
or_decision (some given) id = some given

module _ (env : Env) (deps : DependencyConfig) where
  unfoldable pub create : CreateInput → String → Action Run
  create given actor = do
    let input = normalize_create_input given actor
    lift (validate_create_input input)
    decision ←
        evaluate_and_record_policy env deps "run.create" actor none none (some input) none none none
    require decision.allow (policy_denied_error decision)
    review ← lift (
        merge_json_objects input.review_metadata_json (
          field "last_policy_decision_id" (str decision.id)
            (field "execution_ring" (str input.execution_ring) end)))
    in_tx env (do
      created ← create_run env (record input { review_metadata_json = review })
      record_audit env "run" "run.created" actor created.id (of_run created)
      append_governance_audit_event env (
          event_of actor "user" "run.create" (some created.id) none (some decision.id) (
            field "execution_mode" (str created.execution_mode)
              (field "execution_ring" (str created.execution_ring) end)))
      record_run_intent env created actor "run.created"
      pure created)

  unfoldable pub update : String → UpdateInput → String → Action Run
  update id input actor = in_tx env (do
    existing ← get_run env id
    merged ← lift (merge_run existing input)
    updated ← update_run env merged
    record_audit env "run" "run.updated" actor updated.id (of_run updated)
    record_run_intent env updated actor "run.updated"
    pure updated)

  -- The transaction of a review that the policy allows.
  unfoldable pub apply_review : String → ReviewActionInput → String → String → Action Run
  apply_review run_id input actor decision_id = do
    run ← get_run env run_id
    status ← lift (map_review_action_to_run_status input.action)
    at ← time_now env
    review ← lift (
        merge_json_objects run.review_metadata_json (
          field "review_action"
            (obj (
              field "action" (str input.action) (
                field "reviewer_id" (str input.reviewer_id) (
                  field "reviewer_type" (str input.reviewer_type) (
                    field "rationale" (str input.rationale) (
                      field "at" (str (format_time at)) (
                        field "prior_status" (str run.status)
                          (field "new_status" (str status) end))))))))
            end))
    updated ← update_run env (record run { status = status; review_metadata_json = review })
    record_review_action env run_id
        (record input { policy_decision_id = or_decision input.policy_decision_id decision_id })
        run.status status
    review_cycle env run_id (given_id input.cycle_id) input.action
    record_audit env "run" "run.review.action" actor updated.id (
        of_fields (
          field "action" (str input.action) (
            field "prior_status" (str run.status)
              (field "new_status" (str status) (field "reviewer_id" (str input.reviewer_id) end)))))
    append_governance_audit_event env (
        event_of input.reviewer_id input.reviewer_type (review_action_type input.action)
          (some updated.id) input.cycle_id (some decision_id)
          (field "prior_status" (str run.status)
            (field "new_status" (str status) (field "rationale" (str input.rationale) end))))
    record_run_intent env updated actor "run.review.action"
    pure updated

  unfoldable pub review_action : String → ReviewActionInput → String → Action Run
  unfolding apply_review
  review_action given_run given actor = do
    let run_id = trim_space given_run
    require (not (run_id == "")) Failure.run_id_required
    let input = normalize_review_action_input given actor
    lift (validate_review_action_input input)
    run ← get_run env run_id
    cycle ← given_cycle env run_id (given_id input.cycle_id)
    decision ←
        evaluate_and_record_policy env deps (review_action_type input.action) actor (some run) cycle
          none none none none
    require decision.allow (policy_denied_error decision)
    in_tx env (apply_review run_id input actor decision.id)
