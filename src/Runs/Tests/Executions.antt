-- ===== src/Runs/Tests/Executions.antt =====
-- Tests of whole executions, on a concrete database and services that answer.
use clawbot_server.Base.{◌≡◌, ◌≤◌, refl, [], ◌∷◌, none, some, arith, length, take, map, All}
use clawbot_server.Json.{empty, str, end, field, obj, doc}
use clawbot_server.Text.{trim_space, to_lower, contains}
use clawbot_server.Text.Bytes.{byte_length}
use clawbot_server.Runs.Types.Execution.{
  ExecuteRunInput, ExecuteRunResult, MemoryContext, InferenceResponse,
}
use clawbot_server.Runs.Failure.{Result, ok, err}
use clawbot_server.Runs.Compact.{limit_strings, shorten}
use clawbot_server.Runs.Compact.Limits.{nonblank, limit_strings_lem}
use clawbot_server.Runs.Store.{
  World, Env, pure, lift, found, ◌>>=◌, require, tables, store, statement, draw_id, time_now,
  settle, in_tx,
}
use clawbot_server.Runs.Service.Execute.{
  execute_run, attempt, policy_profile, admit, start_cycle, perform,
}
use clawbot_server.Runs.Service.Execute.Ended.{IsEnded, execute_run-IsEnded}
use clawbot_server.Runs.Tests.Samples.{week_run, first_day, local_profile}
use clawbot_server.Runs.Tests.Worlds.{ticking, configured, empty_world}
use clawbot_server.Text.Digits.{decimal, format_time, format_compact}
use clawbot_server.Runs.Status.{
  is_valid_execution_ring, is_valid_guardrail_status, default_execution_ring_for_mode,
  minimum_ring_for_mode, ring_rank,
}
use clawbot_server.Runs.Refs.{dedupe_and_trim_strings, append_unique}
use clawbot_server.Runs.Namespace.{normalize_memory_namespace, compose_memory_namespace}
use clawbot_server.Runs.Normalize.{normalize_execute_run_input}
use clawbot_server.Runs.Policy.{
  build_policy_input, printed, execution_ring_from_any, is_external_target, denies_target, verdict,
  evaluate_policy_outcome,
}
use clawbot_server.Runs.Repository.{scan_run, get_run, update_run}
use clawbot_server.Runs.Repository.Cycles.{scan_cycle, get_cycle_row, update_cycle_row}
use clawbot_server.Runs.Repository.Results.{
  scan_artifact, scan_comparison, scan_model_profile, create_artifact, upsert_comparison_row,
  get_model_profile_row,
}
use clawbot_server.Runs.Repository.Decisions.{record_policy_decision}
use clawbot_server.Runs.Repository.Ledger.{
  append_governance_audit_event, record_audit, record_run_intent,
}
use clawbot_server.Runs.Payloads.{
  build_deterministic_execution_summary, build_inference_payload, build_memory_write_input,
  build_comparison_deltas, choose_prompt, choose_system_prompt,
}
use clawbot_server.Runs.Service.{merge_json_objects, evaluate_and_record_policy, persist_notes}
use clawbot_server.Runs.Service.Guards.{
  guardrail_status_from_summary, resolve_guardrail_status, ensure_guardrail_summary,
}
use clawbot_server.Runs.Service.Execution.{
  helper_requested, is_local_ollama_provider, resolve_execution_cycle,
}
use clawbot_server.Runs.Service.Phases.{
  execution_namespace, fetch_context, create_execution_artifact, run_deterministic,
  compare_summaries,
}
use clawbot_server.Runs.Service.Inference.{
  infer, execution_profile, keep_guardrail_report, run_inference,
}
use clawbot_server.Runs.Service.Finish.{finish_cycle, record_guardrail, finish_run, log_execution}

abbrev remembered : MemoryContext
remembered = record {
  prior_cycle_summaries = "before" ∷ [];
  carry_forward_risks = [];
  unresolved_gaps = [];
  backlog_items = [];
  reviewer_notes = [];
}

-- An inference whose guardrail did not answer in time.
abbrev late_guardrail : InferenceResponse
late_guardrail = record {
  primary_output = doc (obj (field "verdict" (str "fine") end));
  guardrail_output = empty;
  guardrail = empty;
  guardrail_status = "guardrail_timeout";
  guardrail_score = none;
  helper_output = empty;
  primary_text = "";
  guardrail_text = "";
  helper_text = "";
  latency_ms = 7;
  model_tag = "";
  guardrail_tag = "";
  helper_tag = "";
}

abbrev answering : Env
answering = record ticking {
  fetch = λ n namespace. some remembered;
  infer = λ n request. some late_guardrail;
}

abbrev nothing_asked : ExecuteRunInput
nothing_asked = record {
  cycle_id = none;
  agent_namespace = none;
  prompt = "";
  system_prompt = "";
  input_json = empty;
  memory_note = "";
}

abbrev dual_week : World
dual_week = record empty_world {
  db = record empty_world.db {
    runs = week_run ∷ [];
    cycles = first_day ∷ [];
    profiles = local_profile ∷ [];
  };
}

abbrev executed : Result ExecuteRunResult × World
executed = execute_run answering configured " r1 " (some "c1") nothing_asked "ann" dual_week

abbrev no_result : ExecuteRunResult
no_result = record {
  run_id = "";
  run_type = "";
  execution_mode = "";
  status = "";
  cycle_id = none;
  memory_snapshot_ref = "";
  deterministic_summary = empty;
  llm_summary = empty;
  guardrail_summary = empty;
  guardrail_status = "";
  artifacts = [];
  comparison = none;
}

-- The result, where there is one.
abbrev result_of : Result ExecuteRunResult → ExecuteRunResult
result_of (ok result) = result
result_of (err e) = no_result

executed_ok : executed.0 ≡ ok (result_of executed.0)
unfolding trim_space to_lower contains decimal format_time format_compact is_valid_guardrail_status
    default_execution_ring_for_mode minimum_ring_for_mode ring_rank dedupe_and_trim_strings
    append_unique normalize_memory_namespace compose_memory_namespace normalize_execute_run_input
    build_policy_input printed execution_ring_from_any is_external_target denies_target verdict
    evaluate_policy_outcome pure lift found ◌>>=◌ require tables store statement draw_id time_now
    settle in_tx scan_run get_run update_run scan_cycle get_cycle_row update_cycle_row scan_artifact
    scan_comparison scan_model_profile create_artifact upsert_comparison_row get_model_profile_row
    record_policy_decision append_governance_audit_event record_audit record_run_intent
    build_deterministic_execution_summary build_inference_payload build_memory_write_input
    build_comparison_deltas choose_prompt choose_system_prompt merge_json_objects
    evaluate_and_record_policy persist_notes guardrail_status_from_summary resolve_guardrail_status
    ensure_guardrail_summary helper_requested is_local_ollama_provider resolve_execution_cycle
    execution_namespace fetch_context create_execution_artifact run_deterministic compare_summaries
    infer execution_profile keep_guardrail_report run_inference finish_cycle record_guardrail
    finish_run log_execution attempt policy_profile admit start_cycle perform execute_run
    is_valid_execution_ring
executed_ok = refl

execute_run-IsEnded_example : IsEnded "r1" (result_of executed.0) executed.1.db
unfolding trim_space
execute_run-IsEnded_example =
    execute_run-IsEnded answering configured " r1 " (some "c1") nothing_asked "ann" dual_week
      (result_of executed.0) executed_ok

-- A run whose guardrail is late is deferred, with three artifacts; its two events have the same time.
deferred :
    ((result_of executed.0).status ≡ "guardrail_deferred")
    × (map (λ artifact. artifact.artifact_type) (result_of executed.0).artifacts
        ≡ "deterministic_output" ∷ "llm_output" ∷ "guardrail_report" ∷ [])
    × (map (λ event. event.action_type) executed.1.db.chain
        ≡ "guardrail.deferred" ∷ "run.execute" ∷ "policy.allow" ∷ [])
    × (map (λ event. event.created_at) (take 2 executed.1.db.chain) ≡ 109 ∷ 109 ∷ [])
unfolding trim_space to_lower contains decimal format_time format_compact is_valid_guardrail_status
    default_execution_ring_for_mode minimum_ring_for_mode ring_rank dedupe_and_trim_strings
    append_unique normalize_memory_namespace compose_memory_namespace normalize_execute_run_input
    build_policy_input printed execution_ring_from_any is_external_target denies_target verdict
    evaluate_policy_outcome pure lift found ◌>>=◌ require tables store statement draw_id time_now
    settle in_tx scan_run get_run update_run scan_cycle get_cycle_row update_cycle_row scan_artifact
    scan_comparison scan_model_profile create_artifact upsert_comparison_row get_model_profile_row
    record_policy_decision append_governance_audit_event record_audit record_run_intent
    build_deterministic_execution_summary build_inference_payload build_memory_write_input
    build_comparison_deltas choose_prompt choose_system_prompt merge_json_objects
    evaluate_and_record_policy persist_notes guardrail_status_from_summary resolve_guardrail_status
    ensure_guardrail_summary helper_requested is_local_ollama_provider resolve_execution_cycle
    execution_namespace fetch_context create_execution_artifact run_deterministic compare_summaries
    infer execution_profile keep_guardrail_report run_inference finish_cycle record_guardrail
    finish_run log_execution attempt policy_profile admit start_cycle perform execute_run
    is_valid_execution_ring
deferred = (refl, refl, refl, refl)

limit_strings_lem_example :
    (limit_strings (" a " ∷ " " ∷ "long text" ∷ "b" ∷ []) 2 4
      ≡ map (shorten 4) (take 2 (nonblank (" a " ∷ " " ∷ "long text" ∷ "b" ∷ []))))
    × (length (limit_strings (" a " ∷ " " ∷ "long text" ∷ "b" ∷ []) 2 4) ≤ 2)
    × All (λ s. byte_length s ≤ 13) (limit_strings (" a " ∷ " " ∷ "long text" ∷ "b" ∷ []) 2 4)
limit_strings_lem_example =
    limit_strings_lem (" a " ∷ " " ∷ "long text" ∷ "b" ∷ []) 2 4 (omega arith)
