-- ===== src/Runs/Service/Results.antt =====
-- Operations on artifacts, comparisons and model profiles of internal/platform/runs/service.go.
use clawbot_server.Base.{String, not, ◌||◌, List, none, some, ◌==◌}
use clawbot_server.Json.{str, bool, end, field}
use clawbot_server.Text.{trim_space}
use clawbot_server.Runs.Types.Governance.{
  Artifact, AttachArtifactInput, Comparison, UpsertComparisonInput,
}
use clawbot_server.Runs.Types.Execution.{ModelProfile, RegisterModelProfileInput}
use clawbot_server.Runs.Failure.{Failure}
use clawbot_server.Runs.Refs.{append_unique}
use clawbot_server.Runs.Normalize.{
  normalize_attach_artifact_input, normalize_upsert_comparison_input, normalize_model_profile_input,
  validate_model_profile_input,
}
use clawbot_server.Runs.Store.{
  of_artifact, of_comparison, of_profile, Env, Action, pure, lift, ◌>>=◌, ◌>>◌, require, in_tx,
}
use clawbot_server.Runs.Repository.{get_run, update_run}
use clawbot_server.Runs.Repository.Results.{
  create_artifact, list_artifact_rows, upsert_comparison_row, get_comparison_row,
  register_model_profile_row, get_model_profile_row,
}
use clawbot_server.Runs.Repository.Ledger.{append_governance_audit_event, record_audit}
use clawbot_server.Runs.Service.{
  DependencyConfig, evaluate_and_record_policy, policy_denied_error, event_of,
}
use clawbot_server.Runs.Service.Guards.{guardrail_status_from_summary}
use clawbot_server.Runs.Service.Runs.{given_id, given_cycle}

module _ (env : Env) (deps : DependencyConfig) where
  unfoldable pub attach_artifact : String → AttachArtifactInput → String → Action Artifact
  attach_artifact given_run given actor = do
    let run_id = trim_space given_run
    require (not (run_id == "")) Failure.run_id_required
    input ← lift (normalize_attach_artifact_input given)
    policy_run ← get_run env run_id
    decision ←
        evaluate_and_record_policy env deps "run.artifact.attach" actor (some policy_run) none none
          none (some input) none
    require decision.allow (policy_denied_error decision)
    in_tx env (do
      run ← get_run env run_id
      given_cycle env run_id (given_id input.cycle_id)
      artifact ← create_artifact env run_id input
      update_run env (record run {
        artifact_bundle_refs = append_unique run.artifact_bundle_refs artifact.uri;
      })
      append_governance_audit_event env
          (record (event_of actor "user" "run.artifact.attach" (some run.id) none (some decision.id)
            (field "artifact_type" (str artifact.artifact_type)
              (field "content_type" (str artifact.content_type) end))) {
                target_artifact_id = some artifact.id;
              })
      record_audit env "artifact" "run.artifact.attached" actor artifact.id (of_artifact artifact)
      pure artifact)

  unfoldable pub list_artifacts : String → Action (List Artifact)
  list_artifacts given_run = do
    let run_id = trim_space given_run
    require (not (run_id == "")) Failure.run_id_required
    get_run env run_id
    list_artifact_rows env run_id

  unfoldable pub upsert_comparison : String → UpsertComparisonInput → String → Action Comparison
  upsert_comparison given_run given actor = do
    let run_id = trim_space given_run
    require (not (run_id == "")) Failure.run_id_required
    input ← lift (normalize_upsert_comparison_input given)
    in_tx env (do
      get_run env run_id
      given_cycle env run_id (given_id input.cycle_id)
      comparison ← upsert_comparison_row env run_id input
      let status = guardrail_status_from_summary comparison.guardrail_summary
      append_governance_audit_event env (
          event_of actor "user" "run.comparison.upsert" (some run_id) none none (
            field "review_status" (str comparison.review_status) (
              field "guardrail_present"
                (bool (status == "guardrail_passed" || status == "guardrail_flagged")) end)))
      record_audit env "comparison" "run.comparison.upserted" actor comparison.id
          (of_comparison comparison)
      pure comparison)

  unfoldable pub get_comparison : String → Action Comparison
  get_comparison given_run = do
    let run_id = trim_space given_run
    require (not (run_id == "")) Failure.run_id_required
    get_comparison_row env run_id

  unfoldable pub register_model_profile : RegisterModelProfileInput → String → Action ModelProfile
  register_model_profile given actor = do
    let input = normalize_model_profile_input given
    lift (validate_model_profile_input input)
    in_tx env (do
      profile ← register_model_profile_row env input actor
      record_audit env "model_profile" "model_profile.registered" actor profile.id
          (of_profile profile)
      pure profile)

  unfoldable pub get_model_profile : String → Action ModelProfile
  get_model_profile given = do
    let key = trim_space given
    require (not (key == "")) Failure.model_profile_id_required
    get_model_profile_row env key
