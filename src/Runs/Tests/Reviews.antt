-- ===== src/Runs/Tests/Reviews.antt =====
-- Tests of the review of a run.
use clawbot_server.Base.{◌≡◌, refl, [], ◌∷◌, none, some}
use clawbot_server.Text.{trim_space, to_lower}
use clawbot_server.Text.Digits.{decimal, format_time}
use clawbot_server.Runs.Types.{Run}
use clawbot_server.Runs.Types.Governance.{ReviewActionInput}
use clawbot_server.Runs.Failure.{Result, ok, err}
use clawbot_server.Runs.Status.{
  default_execution_ring_for_mode, is_valid_execution_ring, minimum_ring_for_mode, ring_rank,
}
use clawbot_server.Runs.Namespace.{normalize_memory_namespace}
use clawbot_server.Runs.Normalize.{normalize_review_action_input, validate_review_action_input}
use clawbot_server.Runs.Policy.{
  build_policy_input, evaluate_policy_outcome, execution_ring_from_any, printed, denies_target,
  verdict,
}
use clawbot_server.Runs.Store.{
  World, ◌>>=◌, pure, lift, require, tables, store, statement, draw_id, time_now, in_tx, settle,
  found,
}
use clawbot_server.Runs.Repository.{get_run, update_run, scan_run}
use clawbot_server.Runs.Repository.Cycles.{get_cycle_row, update_cycle_row, scan_cycle}
use clawbot_server.Runs.Repository.Decisions.{record_policy_decision, record_review_action}
use clawbot_server.Runs.Repository.Ledger.{
  append_governance_audit_event, record_audit, record_run_intent,
}
use clawbot_server.Runs.Service.{evaluate_and_record_policy, merge_json_objects}
use clawbot_server.Runs.Service.Guards.{
  map_review_action_to_run_status, map_review_action_to_cycle_status,
}
use clawbot_server.Runs.Service.Runs.{given_cycle, review_cycle, apply_review, review_action}
use clawbot_server.Runs.Service.Requests.Reviews.{IsReviewed, review_action-reviews}
use clawbot_server.Runs.Tests.Samples.{week_run, first_day}
use clawbot_server.Runs.Tests.Worlds.{ticking, configured, empty_world}

abbrev one_run : World
one_run = record empty_world {
  db = record empty_world.db { runs = week_run ∷ []; cycles = first_day ∷ [] };
}

abbrev approval : ReviewActionInput
approval = record {
  action = " Approve";
  reviewer_id = "";
  reviewer_type = "";
  rationale = "as planned ";
  cycle_id = some "c1";
  policy_decision_id = none;
}

abbrev run_of : Result Run → Run
run_of (ok run) = run
run_of (err e) = week_run

abbrev approved : Run
approved = run_of (review_action ticking configured " r1" approval "bob" one_run).0

review_succeeds : (review_action ticking configured " r1" approval "bob" one_run).0 ≡ ok approved
unfolding review_action apply_review given_cycle review_cycle map_review_action_to_run_status
    map_review_action_to_cycle_status get_run get_cycle_row update_cycle_row scan_cycle update_run
    scan_run record_review_action evaluate_and_record_policy record_policy_decision
    append_governance_audit_event record_audit record_run_intent ◌>>=◌ pure lift require tables
    store statement draw_id time_now in_tx settle found merge_json_objects
    normalize_review_action_input validate_review_action_input default_execution_ring_for_mode
    minimum_ring_for_mode ring_rank normalize_memory_namespace build_policy_input
    evaluate_policy_outcome execution_ring_from_any printed denies_target verdict trim_space
    to_lower decimal format_time is_valid_execution_ring
review_succeeds = refl

review_action-reviews_example :
    IsReviewed
      (trim_space " r1")
      (normalize_review_action_input approval "bob")
      approved
      (review_action ticking configured " r1" approval "bob" one_run).1.db
review_action-reviews_example =
    review_action-reviews ticking configured " r1" approval "bob" one_run approved review_succeeds
