-- ===== src/Runs/Compact.antt =====
-- The compact payload of a dual inference: its summaries, cut to a few short texts, in
-- internal/platform/runs/service.go.
pub mod Limits
use Prim.Native.String
use clawbot_server.Base.{
  ℕ, zero, suc, String, Bool, true, false, not, ◌&&◌, ◌||◌, List, [], ◌∷◌, ◌++◌, length, Option,
  none, some, ltb, ◌==◌, if◌then◌else◌,
}
use clawbot_server.Json.{
  Json, str, bool, arr, obj, items, whole, Fields, end, field, Raw, empty, braces, is_empty,
  is_braces, lookup, insert, marshal, raw_value, Decoded, object, nil_map, failed, unmarshal,
}
use clawbot_server.Text.{trim_space}
use clawbot_server.Text.Bytes.{byte_length, cut}
use clawbot_server.Runs.Types.{Run, Cycle}
use clawbot_server.Runs.Types.Execution.{ExecuteRunInput, MemoryContext, MemoryWriteInput}

-- `if value, ok := decoded[key]; ok { out[key] = value }`.
abbrev copy_key : String → Option Json → Fields → Fields
copy_key key none out = out
copy_key key (some v) out = field key v out

abbrev copy_keys : List String → Fields → Fields
copy_keys [] decoded = end
copy_keys (key ∷ keys) decoded = copy_key key (lookup key decoded) (copy_keys keys decoded)

abbrev compact_decoded : Decoded → Fields
compact_decoded (object decoded) =
    copy_keys
      ("run_id" ∷ "cycle_key" ∷ "dataset_ref_count" ∷ "carry_forward_risk_count"
        ∷ "unresolved_gap_count" ∷ "reviewer_note_count" ∷ "deterministic_signal_version" ∷ [])
      decoded
compact_decoded nil_map = end
compact_decoded failed = field "summary_present" (bool true) end

unfoldable pub compact_deterministic_summary : Raw → Fields
compact_deterministic_summary summary =
    if is_empty summary || is_braces summary then end else compact_decoded (unmarshal summary)

-- `limitStrings`, for limits that are not negative: the text of an item is cut by its bytes.
abbrev pub shorten : ℕ → String → String
shorten max_chars item =
    if ltb 0 max_chars && ltb max_chars (byte_length item)
    then String.◌++◌ (cut max_chars item) "..."
    else item

unfoldable pub limit_strings : List String → ℕ → ℕ → List String
limit_strings values zero max_chars = []
limit_strings [] (suc room) max_chars = []
limit_strings (value ∷ values) (suc room) max_chars =
    let item = trim_space value in
    let skipped = limit_strings values (suc room) max_chars in
    let kept = shorten max_chars item ∷ limit_strings values room max_chars in
    if item == "" then skipped else kept

unfoldable pub compact_carry_forward_memory_summary : MemoryContext → Fields
unfolding limit_strings
compact_carry_forward_memory_summary memory =
    let texts : List String → ℕ → Json =
      λ values count. arr (items (limit_strings values count 220)) in
    field "prior_cycle_summaries" (texts memory.prior_cycle_summaries 3) (
      field "carry_forward_risks" (texts memory.carry_forward_risks 5) (
        field "unresolved_gaps" (texts memory.unresolved_gaps 5) (
          field "reviewer_notes" (texts memory.reviewer_notes 5) (
            field "counts"
              (obj (
                field "prior_cycle_summaries" (whole (length memory.prior_cycle_summaries)) (
                  field "carry_forward_risks" (whole (length memory.carry_forward_risks)) (
                    field "unresolved_gaps" (whole (length memory.unresolved_gaps))
                      (field "reviewer_notes" (whole (length memory.reviewer_notes)) end)))))
              end))))

abbrev with_cycle_texts : Option Cycle → Fields → Fields
with_cycle_texts none payload = payload
with_cycle_texts (some cycle) payload = insert "cycle_key" (str cycle.cycle_key) (
    insert "focus" (str cycle.focus) (
      insert "objective" (str cycle.objective)
        (insert "detector_pack" (str cycle.detector_pack) payload)))

unfoldable pub build_compact_dual_inference_payload : Run → Option Cycle → MemoryContext → Raw → Raw
unfolding compact_deterministic_summary compact_carry_forward_memory_summary
build_compact_dual_inference_payload run cycle memory deterministic = marshal (
    with_cycle_texts cycle (
      field "run_id" (str run.id) (
        field "run_type" (str run.run_type) (
          field "execution_mode" (str run.execution_mode) (
            field "cycle_key" (str "") (
              field "focus" (str "") (
                field "objective" (str "") (
                  field "detector_pack" (str "") (
                    field "dataset_refs" (arr (items run.dataset_refs)) (
                      field "prompt_pack_version" (str run.prompt_pack_version) (
                        field "rule_pack_version" (str run.rule_pack_version) (
                          field "deterministic_summary_compact"
                            (obj (compact_deterministic_summary deterministic))
                            (field "carry_forward_memory_compact"
                              (obj (compact_carry_forward_memory_summary memory)) end)))))))))))))
