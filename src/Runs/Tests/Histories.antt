-- ===== src/Runs/Tests/Histories.antt =====
-- Tests of requests on a concrete database.
use clawbot_server.Base.{◌≡◌, refl, arith, true}
use clawbot_server.Text.{trim_space, to_lower}
use clawbot_server.Text.Digits.{decimal}
use clawbot_server.Runs.Failure.{Failure, Result, ok, err}
use clawbot_server.Runs.Types.{Run, CreateInput}
use clawbot_server.Runs.Status.{
  is_valid_run_status, is_valid_run_type, is_valid_execution_mode, is_valid_execution_ring,
  is_valid_guardrail_status, default_execution_ring_for_mode, minimum_ring_for_mode, ring_rank,
}
use clawbot_server.Runs.Refs.{dedupe_and_trim_strings}
use clawbot_server.Runs.Namespace.{normalize_memory_namespace}
use clawbot_server.Runs.Normalize.{normalize_create_input, validate_create_input}
use clawbot_server.Runs.Policy.{
  build_policy_input, evaluate_policy_outcome, execution_ring_from_any, printed, denies_target,
  verdict,
}
use clawbot_server.Runs.Store.{
  World, ◌>>=◌, pure, lift, require, tables, store, statement, draw_id, time_now, in_tx, settle,
}
use clawbot_server.Runs.Repository.{create_run, scan_run}
use clawbot_server.Runs.Repository.Decisions.{record_policy_decision}
use clawbot_server.Runs.Repository.Ledger.{
  append_governance_audit_event, record_audit, record_run_intent,
}
use clawbot_server.Runs.Repository.Ledger.Chain.{IsLinked, IsOrdered}
use clawbot_server.Runs.Service.{evaluate_and_record_policy, merge_json_objects}
use clawbot_server.Runs.Service.Runs.{create}
use clawbot_server.Runs.Service.Requests.{creates_run, serve, done, History, begun, served}
use clawbot_server.Runs.Service.Requests.Logs.{AreAppended, History-AreAppended}
use clawbot_server.Runs.Service.Requests.Keys.{HasDistinctKeys, History-HasDistinctKeys}
use clawbot_server.Runs.Service.Requests.Rows.{KeepsRows, History-KeepsRows}
use clawbot_server.Runs.Service.Requests.Linked.{History-IsLinked}
use clawbot_server.Runs.Service.Requests.Failures.{OnlyDecided, serve-OnlyDecided}
use clawbot_server.Runs.Service.Requests.Recorded.{IsRecorded}
use clawbot_server.Runs.Service.Requests.Gate.{serve-IsRecorded}
use clawbot_server.Runs.Service.Requests.Created.{IsReady, create-IsReady}
use clawbot_server.Runs.Policy.Rings.{suffices}
use clawbot_server.Runs.Service.Requests.Accepted.{is_not_null, parses, create-succeeds}
use clawbot_server.Runs.Tests.Inputs.{new_run-IsAcceptable}
use clawbot_server.Runs.Tests.Samples.{new_run, week_run}
use clawbot_server.Runs.Tests.Worlds.{ticking, ticking-PicksLatest, configured, empty_world}

abbrev low_run : CreateInput
low_run = record new_run { execution_ring = "ring_1" }

-- After the creation of a run with ring 2, and after one with ring 1, which a dual run is denied.
abbrev after_new : World
after_new = (serve ticking configured "ann" (creates_run new_run) empty_world).1

abbrev after_low : World
after_low = (serve ticking configured "ann" (creates_run low_run) empty_world).1

created_run : (serve ticking configured "ann" (creates_run new_run) empty_world).0 ≡ ok tt
unfolding serve done create evaluate_and_record_policy record_policy_decision
    append_governance_audit_event record_audit record_run_intent create_run scan_run ◌>>=◌ pure lift
    require tables store statement draw_id time_now in_tx settle merge_json_objects
    normalize_create_input validate_create_input is_valid_run_status is_valid_run_type
    is_valid_execution_mode is_valid_execution_ring is_valid_guardrail_status
    default_execution_ring_for_mode minimum_ring_for_mode ring_rank normalize_memory_namespace
    dedupe_and_trim_strings build_policy_input evaluate_policy_outcome execution_ring_from_any
    printed denies_target verdict trim_space to_lower decimal
created_run = refl

abbrev denial : Failure
denial = Failure.policy_denied "execution_ring_too_low" "ach-governance" "2026.1"

denied_run : (serve ticking configured "ann" (creates_run low_run) empty_world).0 ≡ err denial
unfolding serve done create evaluate_and_record_policy record_policy_decision
    append_governance_audit_event record_audit record_run_intent create_run scan_run ◌>>=◌ pure lift
    require tables store statement draw_id time_now in_tx settle merge_json_objects
    normalize_create_input validate_create_input is_valid_run_status is_valid_run_type
    is_valid_execution_mode is_valid_execution_ring is_valid_guardrail_status
    default_execution_ring_for_mode minimum_ring_for_mode ring_rank normalize_memory_namespace
    dedupe_and_trim_strings build_policy_input evaluate_policy_outcome execution_ring_from_any
    printed denies_target verdict trim_space to_lower decimal
denied_run = refl

abbrev history_new : History ticking configured empty_world after_new
history_new = served "ann" (creates_run new_run) begun

after_new-IsOrdered : IsOrdered after_new.db.chain
unfolding serve done create evaluate_and_record_policy record_policy_decision
    append_governance_audit_event record_audit record_run_intent create_run scan_run ◌>>=◌ pure lift
    require tables store statement draw_id time_now in_tx settle merge_json_objects
    normalize_create_input validate_create_input is_valid_run_status is_valid_run_type
    is_valid_execution_mode is_valid_execution_ring is_valid_guardrail_status
    default_execution_ring_for_mode minimum_ring_for_mode ring_rank normalize_memory_namespace
    dedupe_and_trim_strings build_policy_input evaluate_policy_outcome execution_ring_from_any
    printed denies_target verdict trim_space to_lower decimal
after_new-IsOrdered = omega arith

History-AreAppended_example : AreAppended empty_world.db after_new.db
History-AreAppended_example = History-AreAppended ticking configured history_new

History-KeepsRows_example : KeepsRows empty_world.db after_new.db
History-KeepsRows_example = History-KeepsRows ticking configured history_new

History-HasDistinctKeys_example : HasDistinctKeys after_new.db.cycles
History-HasDistinctKeys_example = History-HasDistinctKeys ticking configured tt history_new

History-IsLinked_example : IsLinked after_new.db.chain
History-IsLinked_example =
    History-IsLinked ticking configured ticking-PicksLatest (λ ordered. tt) history_new
      after_new-IsOrdered

serve-OnlyDecided_example : OnlyDecided empty_world.db after_low.db
serve-OnlyDecided_example =
    serve-OnlyDecided ticking configured "ann" (creates_run low_run) empty_world denial refl
      denied_run

serve-IsRecorded_example : IsRecorded "run.create" "ann" true after_new.db
serve-IsRecorded_example =
    serve-IsRecorded ticking configured "ann" (creates_run new_run) "run.create" empty_world refl
      created_run

abbrev run_of : Result Run → Run
run_of (ok run) = run
run_of (err e) = week_run

abbrev created : Run
created = run_of (create ticking configured new_run "ann" empty_world).0

create_succeeds : (create ticking configured new_run "ann" empty_world).0 ≡ ok created
unfolding create evaluate_and_record_policy record_policy_decision append_governance_audit_event
    record_audit record_run_intent create_run scan_run ◌>>=◌ pure lift require tables store
    statement draw_id time_now in_tx settle merge_json_objects normalize_create_input
    validate_create_input is_valid_run_status is_valid_run_type is_valid_execution_mode
    is_valid_execution_ring is_valid_guardrail_status default_execution_ring_for_mode
    minimum_ring_for_mode ring_rank normalize_memory_namespace dedupe_and_trim_strings
    build_policy_input evaluate_policy_outcome execution_ring_from_any printed denies_target verdict
    trim_space to_lower decimal
create_succeeds = refl

create-IsReady_example : IsReady created
create-IsReady_example =
    create-IsReady ticking configured new_run "ann" empty_world created create_succeeds

new_run-suffices :
    suffices
      (normalize_create_input new_run "ann").execution_mode
      (normalize_create_input new_run "ann").execution_ring
    ≡ true
unfolding normalize_create_input default_execution_ring_for_mode trim_space
new_run-suffices = refl

new_run-parses :
    (is_not_null (normalize_create_input new_run "ann").review_metadata_json ≡ true)
    × (parses (normalize_create_input new_run "ann").metadata_json ≡ true)
unfolding normalize_create_input
new_run-parses = (refl, refl)

create-succeeds_example :
    (run : Run) × ((create ticking configured new_run "ann" empty_world).0 ≡ ok run)
create-succeeds_example =
    create-succeeds ticking configured new_run "ann" empty_world (λ n. refl) new_run-IsAcceptable
      new_run-suffices new_run-parses.0 new_run-parses.1
