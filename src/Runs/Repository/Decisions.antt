-- ===== src/Runs/Repository/Decisions.antt =====
-- The statements on policy decisions and review actions of internal/platform/runs/repository.go.
use clawbot_server.Base.{String, ◌∷◌}
use clawbot_server.Json.{or_braces}
use clawbot_server.Runs.Types.Governance.{
  PolicyDecisionInput, PolicyDecision, ReviewActionInput, ReviewActionRecord,
}
use clawbot_server.Runs.Store.{
  Env, Action, pure, lift, ◌>>=◌, ◌>>◌, tables, store, statement, draw_id,
}
use clawbot_server.Runs.Repository.{jsonb, nullable_string}

module _ (env : Env) where
  unfoldable pub record_policy_decision : PolicyDecisionInput → Action PolicyDecision
  record_policy_decision input = do
    policy_input ← lift (jsonb input.policy_input)
    now ← statement env
    id ← draw_id env
    db ← tables
    let row : PolicyDecision = record {
      id = id;
      action_type = input.action_type;
      target_run_id = nullable_string input.target_run_id;
      target_cycle_id = nullable_string input.target_cycle_id;
      actor_id = input.actor_id;
      actor_type = input.actor_type;
      policy_input = policy_input;
      allow = input.allow;
      policy_bundle_id = input.policy_bundle_id;
      policy_bundle_version = input.policy_bundle_version;
      reason_code = input.reason_code;
      conditions_applied = input.conditions_applied;
      fallback_mode = input.fallback_mode;
      created_at = now;
    }
    store (record db { decisions = row ∷ db.decisions })
    pure (record row { policy_input = or_braces row.policy_input })

  unfoldable pub record_review_action :
      String → ReviewActionInput → String → String → Action ReviewActionRecord
  record_review_action run input prior_status new_status = do
    now ← statement env
    id ← draw_id env
    db ← tables
    let row : ReviewActionRecord = record {
      id = id;
      run_id = run;
      cycle_id = nullable_string input.cycle_id;
      reviewer_id = input.reviewer_id;
      reviewer_type = input.reviewer_type;
      action_type = input.action;
      prior_status = prior_status;
      new_status = new_status;
      rationale = input.rationale;
      policy_decision_id = nullable_string input.policy_decision_id;
      created_at = now;
    }
    store (record db { reviews = row ∷ db.reviews })
    pure row
