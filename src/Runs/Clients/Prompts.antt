-- ===== src/Runs/Clients/Prompts.antt =====
-- What the models are sent: texts cut short, summaries of JSON and messages, in
-- internal/platform/runs/clients.go.
use Prim.Native.String
use clawbot_server.Base.{
  ℕ, zero, suc, String, Bool, ◌||◌, List, [], ◌∷◌, ◌++◌, Option, none, some, ◌==◌, if◌then◌else◌,
  leb, eqb,
}
use clawbot_server.Base.Int.{ℤ, pos, negsuc, is_negative}
use clawbot_server.Json.{
  Json, num, str, arr, obj, Items, nil, cons, Fields, end, field, Raw, empty, braces, invalid, doc,
  is_empty, is_braces, insert, whole, marshal,
}
use clawbot_server.Text.{trim_space, join}
use clawbot_server.Text.Bytes.{byte_length, cut}
use clawbot_server.Runs.Types.Execution.{InferenceRequest}
use clawbot_server.Runs.Clients.{Reader}

pub record OllamaMessage : Type 0 where
  pub role : String
  pub content : String

unfoldable pub truncate_text : String → ℕ → String
truncate_text given max_chars =
    let value = trim_space given in
    if eqb max_chars 0 || leb (byte_length value) max_chars
    then value
    else String.◌++◌ (cut max_chars value) "..."

abbrev first_fields : ℕ → Fields → Fields
first_fields zero fields = end
first_fields (suc n) end = end
first_fields (suc n) (field key value fields) = field key value (first_fields n fields)

abbrev field_count : Fields → ℕ
field_count end = 0
field_count (field key value fields) = suc (field_count fields)

abbrev item_count : Items → ℕ
item_count nil = 0
item_count (cons j js) = suc (item_count js)

module _ (r : Reader) where
  unfoldable pub truncate_any : Json → ℕ → Json
  unfolding truncate_text
  truncate_any (str s) max_chars = str (truncate_text s max_chars)
  truncate_any (obj fields) max_chars = str (truncate_text (r.print (marshal fields)) max_chars)
  truncate_any (arr js) max_chars = str (truncate_text (r.print (doc (arr js))) max_chars)
  truncate_any other max_chars = other

  -- `out[key] = truncateAny(value, maxChars)`, key by key.
  abbrev copied : Fields → ℕ → Fields → Fields
  copied end max_chars out = out
  copied (field key value fields) max_chars out =
      copied fields max_chars (insert key (truncate_any value max_chars) out)

  abbrev with_sample : Items → ℕ → Fields → Fields
  with_sample nil max_chars out = out
  with_sample (cons j js) max_chars out = insert "_sample" (truncate_any j max_chars) out

  abbrev summary_of : Json → ℕ → ℕ → Fields
  summary_of (obj fields) max_keys max_chars =
      insert "_key_count" (whole (field_count fields))
        (copied (first_fields max_keys (r.order fields)) max_chars end)
  summary_of (arr js) max_keys max_chars =
      with_sample js max_chars (insert "_array_len" (whole (item_count js)) end)
  summary_of other max_keys max_chars = insert "value" (truncate_any other max_chars) end

  -- For a limit of keys above 0, as every call has it.
  unfoldable pub compact_json_summary : Raw → ℕ → ℕ → Fields
  unfolding truncate_any
  compact_json_summary empty max_keys max_chars = end
  compact_json_summary braces max_keys max_chars = end
  compact_json_summary invalid max_keys max_chars =
      field "raw_preview" (str (truncate_text (r.print invalid) max_chars)) end
  compact_json_summary (doc j) max_keys max_chars = summary_of j max_keys max_chars

  abbrev printed_summary : Fields → ℕ → String
  printed_summary end max_chars = ""
  printed_summary (field key value fields) max_chars =
      truncate_text (r.print (marshal (field key value fields))) max_chars

  unfoldable pub compact_json_string : Raw → ℕ → ℕ → String
  unfolding compact_json_summary
  compact_json_string raw max_keys max_chars =
      printed_summary (compact_json_summary raw max_keys max_chars) max_chars

  abbrev line_of : String → String → List String
  line_of label text = if text == "" then [] else String.◌++◌ label text ∷ []

  unfoldable pub build_compact_guardrail_input : InferenceRequest → Raw → String
  unfolding compact_json_string
  build_compact_guardrail_input input primary_output = join "\n" (
      ("criterion: flag output when ACH/NACHA or fraud-risk concerns need reviewer escalation."
        ∷ "goal: decide if reviewer follow-up is required." ∷ [])
      ++ line_of "request_summary: " (trim_space (truncate_text input.prompt 220))
      ++ line_of "primary_summary: " (compact_json_string primary_output 6 220)
      ++ line_of "context_summary: " (compact_json_string input.input_json 5 180)
      ++ ("question: should this output be flagged? Return only <score> yes </score> or <score> no </score>."
          ∷ []))

  abbrev or_default : String → String
  or_default user = if user == "" then "Provide a JSON analysis response." else user

  abbrev with_context : String → Raw → String
  with_context user input =
      let gap = if user == "" then "" else String.◌++◌ user "\n\n" in
      if is_empty input || is_braces input
      then user
      else String.◌++◌ gap (String.◌++◌ "Context JSON:\n" (r.print input))

  abbrev message : String → String → OllamaMessage
  message role content = record { role = role; content = content }

  unfoldable pub build_primary_messages : InferenceRequest → List OllamaMessage
  build_primary_messages input =
      let user =
        message "user" (or_default (with_context (trim_space input.prompt) input.input_json)) in
      let system = trim_space input.system_prompt in
      if system == "" then user ∷ [] else message "system" system ∷ user ∷ []

abbrev some_fields : Fields → Option Fields
some_fields end = none
some_fields (field key value fields) = some (field key value fields)

-- `if input.MaxTokens > 0`.
abbrev token_limit : ℤ → Fields
token_limit (pos zero) = end
token_limit (pos (suc n)) = field "num_predict" (whole (suc n)) end
token_limit (negsuc n) = end

-- A missing option is one that the model chooses.
unfoldable pub build_ollama_options : InferenceRequest → Option Fields
build_ollama_options input =
    let limited = token_limit input.max_tokens in
    some_fields (
      if is_negative input.temperature
      then limited
      else insert "temperature" (num input.temperature) limited)

unfoldable pub local_ollama_format : Bool → Option String
local_ollama_format expect_json = if expect_json then some "json" else none
