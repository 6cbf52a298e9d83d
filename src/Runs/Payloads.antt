-- ===== src/Runs/Payloads.antt =====
-- What the execution of a run writes and sends: the summaries, the payload of the inference, the
-- notes for the memory service and the prompts, in internal/platform/runs/service.go.

use Prim.Native.String
use clawbot_server.Base.{
  String, Bool, not, ◌&&◌, ◌||◌, List, [], ◌∷◌, ◌++◌, length, Option, none, some, ◌==◌,
  if◌then◌else◌,
}
use clawbot_server.Json.{
  Json, str, bool, arr, obj, items, whole, Fields, end, field, Raw, empty, is_empty, is_braces,
  insert, marshal, raw_value,
}
use clawbot_server.Runs.Types.{Run, Cycle}
use clawbot_server.Runs.Types.Execution.{ExecuteRunInput, MemoryContext, MemoryWriteInput}
use clawbot_server.Runs.Compact.{build_compact_dual_inference_payload}
use clawbot_server.Runs.Refs.{dedupe_and_trim_strings}
use clawbot_server.Runs.Service.Guards.{guardrail_status_from_summary}

-- `json.Marshal` with the error ignored: the body is nil.
abbrev marshal_with : String → Option Json → Fields → Raw
marshal_with key none payload = empty
marshal_with key (some v) payload = marshal (insert key v payload)

abbrev with_cycle_keys : Option Cycle → Fields → Fields
with_cycle_keys none payload = payload
with_cycle_keys (some cycle) payload =
    insert "cycle_key" (str cycle.cycle_key) (insert "cycle_id" (str cycle.id) payload)

unfoldable pub build_deterministic_execution_summary :
    Run → Option Cycle → MemoryContext → ExecuteRunInput → Raw
build_deterministic_execution_summary run cycle memory input =
    let payload = with_cycle_keys cycle (
      field "run_id" (str run.id) (
        field "run_type" (str run.run_type) (
          field "execution_mode" (str run.execution_mode) (
            field "execution_ring" (str run.execution_ring) (
              field "dataset_ref_count" (whole (length run.dataset_refs)) (
                field "carry_forward_risk_count" (whole (length memory.carry_forward_risks)) (
                  field "unresolved_gap_count" (whole (length memory.unresolved_gaps)) (
                    field "reviewer_note_count" (whole (length memory.reviewer_notes))
                      (field "deterministic_signal_version" (str "v1") end))))))))) in
    if is_empty input.input_json || is_braces input.input_json
    then marshal payload
    else marshal_with "input" (raw_value input.input_json) payload

abbrev memory_json : MemoryContext → Json
memory_json memory = obj (
    field "prior_cycle_summaries" (arr (items memory.prior_cycle_summaries)) (
      field "carry_forward_risks" (arr (items memory.carry_forward_risks)) (
        field "unresolved_gaps" (arr (items memory.unresolved_gaps)) (
          field "backlog_items" (arr (items memory.backlog_items))
            (field "reviewer_notes" (arr (items memory.reviewer_notes)) end)))))

abbrev with_cycle_object : Option Cycle → Fields → Fields
with_cycle_object none payload = payload
with_cycle_object (some cycle) payload =
    insert "cycle"
      (obj (
        field "id" (str cycle.id) (
          field "cycle_key" (str cycle.cycle_key) (
            field "focus" (str cycle.focus) (
              field "objective" (str cycle.objective)
                (field "detector_pack" (str cycle.detector_pack) end))))))
      payload

abbrev inference_fields : Run → MemoryContext → Option Json → Option Json → Option Fields
inference_fields run memory none input = none
inference_fields run memory (some deterministic) none = none
inference_fields run memory (some deterministic) (some input) = some (
    field "run_id" (str run.id) (
      field "run_type" (str run.run_type) (
        field "execution_mode" (str run.execution_mode) (
          field "dataset_refs" (arr (items run.dataset_refs)) (
            field "prompt_pack_version" (str run.prompt_pack_version) (
              field "rule_pack_version" (str run.rule_pack_version) (
                field "memory_context" (memory_json memory)
                  (field "deterministic_summary" deterministic (field "input" input end)))))))))

abbrev marshal_cycle : Option Cycle → Option Fields → Raw
marshal_cycle cycle none = empty
marshal_cycle cycle (some payload) = marshal (with_cycle_object cycle payload)

unfoldable pub build_inference_payload :
    Run → Option Cycle → MemoryContext → Raw → ExecuteRunInput → Bool → Raw
unfolding build_compact_dual_inference_payload
build_inference_payload run cycle memory deterministic input compact =
    if compact && run.execution_mode == "dual"
    then build_compact_dual_inference_payload run cycle memory deterministic
    else marshal_cycle cycle
        (inference_fields run memory (raw_value deterministic) (raw_value input.input_json))

-- The note that stands for a missing one.
abbrev executed_note : Run → Option Cycle → String
executed_note run none =
    String.◌++◌ "run "
      (String.◌++◌ run.id (String.◌++◌ " executed in " (String.◌++◌ run.execution_mode " mode")))
executed_note run (some cycle) = String.◌++◌ "cycle " (
    String.◌++◌ cycle.cycle_key
      (String.◌++◌ " executed in " (String.◌++◌ run.execution_mode " mode")))

unfoldable pub build_memory_write_input :
    ExecuteRunInput → MemoryContext → Run → Option Cycle → Raw → Raw → MemoryWriteInput
build_memory_write_input input memory run cycle deterministic llm =
    let marks : Raw → String → List String =
      λ summary word. if is_braces summary then [] else word ∷ [] in
    record {
      note = if input.memory_note == "" then executed_note run cycle else input.memory_note;
      prior_cycle_summaries = dedupe_and_trim_strings (
          (memory.prior_cycle_summaries ++ marks deterministic "deterministic_summary_generated")
          ++ marks llm "llm_summary_generated");
      carry_forward_risks = dedupe_and_trim_strings memory.carry_forward_risks;
      unresolved_gaps = dedupe_and_trim_strings memory.unresolved_gaps;
      backlog_items = dedupe_and_trim_strings memory.backlog_items;
      reviewer_notes = dedupe_and_trim_strings memory.reviewer_notes;
    }

unfoldable pub build_comparison_deltas : Raw → Raw → Raw → Raw
build_comparison_deltas deterministic llm guardrail =
    let status = guardrail_status_from_summary guardrail in
    marshal (
      field "deterministic_present" (bool (not (is_braces deterministic))) (
        field "llm_present" (bool (not (is_braces llm))) (
          field "guardrail_present"
            (bool (status == "guardrail_passed" || status == "guardrail_flagged"))
            (field "guardrail_status" (str status) end))))

abbrev default_prompt : Run → Option Cycle → String
default_prompt run none =
    String.◌++◌ "Analyze run " (String.◌++◌ run.id " using strict JSON output.")
default_prompt run (some cycle) = String.◌++◌ "Analyze cycle " (
    String.◌++◌ cycle.cycle_key
      (String.◌++◌ " for run " (String.◌++◌ run.id " using strict JSON output.")))

unfoldable pub choose_prompt : String → Run → Option Cycle → String
choose_prompt candidate run cycle = if candidate == "" then default_prompt run cycle else candidate

unfoldable pub choose_system_prompt : String → Run → String
choose_system_prompt candidate run =
    if candidate == ""
    then String.◌++◌ "You are a compliance-oriented assistant for "
        (String.◌++◌ run.domain ". Return JSON only.")
    else candidate
