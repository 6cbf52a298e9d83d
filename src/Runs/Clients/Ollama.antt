-- ===== src/Runs/Clients/Ollama.antt =====
-- The calls of a local model: `callOllamaChat` and `executeLocalOllama` of
-- internal/platform/runs/clients.go. A deadline that passes is a call that fails.
use Prim.Native.String
use clawbot_server.Base.{
  ℕ, String, Bool, true, false, not, ◌&&◌, List, [], ◌∷◌, Option, none, some, ◌==◌, if◌then◌else◌,
  leb,
}
use clawbot_server.Json.{Fields, end, field, str, obj, Raw, empty, marshal}
use clawbot_server.Text.{trim_space}
use clawbot_server.Text.Digits.{decimal}
use clawbot_server.Runs.Types.Execution.{InferenceRequest, InferenceResponse}
use clawbot_server.Runs.Clients.{Reader, Answer, answer, error}
use clawbot_server.Runs.Clients.Content.{map_ollama_content, classify_guardrail_failure}
use clawbot_server.Runs.Clients.Scores.{Reading, parse_local_guardrail_content}
use clawbot_server.Runs.Clients.Prompts.{
  OllamaMessage, truncate_text, compact_json_summary, build_compact_guardrail_input,
  build_primary_messages, build_ollama_options, local_ollama_format,
}

pub record OllamaChatRequest : Type 0 where
  pub model : String
  pub messages : List OllamaMessage
  pub format : Option String
  pub stream : Bool
  pub think : Option Bool
  pub keep_alive : String
  pub options : Option Fields

pub record OllamaChatResponse : Type 0 where
  pub content : String
  pub error_text : String

-- What comes of a POST: an error before it is sent, on the way, or while its body is read, each with
-- its text, or a status and a body, which may not decode.
pub data Reply : Type 0 where
  unbuilt unsent unread : String → Reply
  replied : ℕ → Answer OllamaChatResponse → Reply

-- A text after another, and one between two.
infixr 5 ◌+++◌
abbrev pub ◌+++◌ : String → String → String
s +++ t = String.◌++◌ s t

abbrev chat_content : Answer OllamaChatResponse → Answer String
chat_content (error e) = error ("decode ollama chat response: " +++ e)
chat_content (answer decoded) =
    if trim_space decoded.error_text == ""
    then if trim_space decoded.content == ""
      then error "ollama returned empty message content"
      else answer decoded.content
    else error ("ollama returned error: " +++ decoded.error_text)

unfoldable pub call_ollama_chat :
    (String → OllamaChatRequest → Reply) → String → OllamaChatRequest → Answer String
call_ollama_chat post phase payload = elim (post phase payload) [
  | unbuilt e ↦ error ("build ollama chat request: " +++ e)
  | unsent e ↦ error ("execute ollama " +++ phase +++ " request: " +++ e)
  | unread e ↦ error ("read ollama response body: " +++ e)
  | replied status body ↦
      if leb 300 status
      then error ("ollama " +++ phase +++ " request returned status " +++ decimal status)
      else chat_content body
]

abbrev system : String → OllamaMessage
system content = record { role = "system"; content = content }

abbrev user : String → OllamaMessage
user content = record { role = "user"; content = content }

-- A guardrail or a helper is asked where it is wanted and has a model.
abbrev pub guardrail_invoked : InferenceRequest → Bool
guardrail_invoked input = input.enable_guardrails && not (trim_space input.guardrail_model == "")

abbrev pub helper_invoked : InferenceRequest → Bool
helper_invoked input =
    input.enable_helper_model && input.helper_requested && not (trim_space input.helper_model == "")

module _ (r : Reader) (post : String → OllamaChatRequest → Reply) where
  unfoldable pub primary_request : InferenceRequest → OllamaChatRequest
  primary_request input = record {
    model = input.primary_model;
    messages = build_primary_messages r input;
    format = local_ollama_format input.expect_json;
    stream = false;
    think = none;
    keep_alive = "";
    options = build_ollama_options input;
  }

  unfoldable pub guardrail_request : InferenceRequest → Raw → OllamaChatRequest
  guardrail_request input primary_output = record {
    model = input.guardrail_model;
    messages =
        system
          "You are a strict guardrail scorer. Return only <score> yes </score> or <score> no </score>."
        ∷ user (build_compact_guardrail_input r input primary_output)
        ∷ [];
    format = none;
    stream = false;
    think = some false;
    keep_alive = "10m";
    options = build_ollama_options input;
  }

  unfoldable pub helper_request : InferenceRequest → Raw → OllamaChatRequest
  helper_request input primary_output = record {
    model = input.helper_model;
    messages =
        system "Provide helper transformation output. Return JSON when possible."
        ∷ user (
            r.print (
              marshal (
                field "context_summary" (obj (compact_json_summary r input.input_json 8 260)) (
                  field "primary_summary" (obj (compact_json_summary r primary_output 8 260))
                    (field "request_summary" (str (truncate_text input.prompt 260)) end)))))
        ∷ [];
    format = local_ollama_format input.expect_json;
    stream = false;
    think = none;
    keep_alive = "";
    options = build_ollama_options input;
  }

  -- The first call and what it means.
  unfoldable pub ask_primary : InferenceRequest → Answer (Raw × String)
  ask_primary input = elim (call_ollama_chat post "primary" (primary_request input)) [
    | error e ↦ error e
    | answer content ↦ elim (map_ollama_content r content input.expect_json) [
      | error e ↦ error ("map primary ollama response: " +++ e)
      | answer output ↦ answer output
    ]
  ]

  abbrev pub first_response : InferenceRequest → Raw × String → InferenceResponse
  first_response input (output, text) = record {
    primary_output = output;
    guardrail_output = empty;
    guardrail = empty;
    guardrail_status = "guardrail_disabled";
    guardrail_score = none;
    helper_output = empty;
    primary_text = text;
    guardrail_text = "";
    helper_text = "";
    latency_ms = 0;
    model_tag = input.primary_model;
    guardrail_tag = "";
    helper_tag = "";
  }

  abbrev pub with_reading :
      InferenceRequest → Answer Reading → InferenceResponse → InferenceResponse
  with_reading input (error e) response = record response {
    guardrail_status = "guardrail_unavailable";
    guardrail_text = "guardrail response mapping failed: " +++ e;
  }
  with_reading input (answer reading) response = record response {
    guardrail_status = reading.status;
    guardrail_score = reading.score;
    guardrail_output = reading.output;
    guardrail = reading.output;
    guardrail_text = reading.text;
    guardrail_tag = input.guardrail_model;
  }

  -- A guardrail that fails leaves its status and the text of the error.
  abbrev pub with_guardrail_content :
      InferenceRequest → Answer String → InferenceResponse → InferenceResponse
  with_guardrail_content input (error e) response = record response {
    guardrail_status = classify_guardrail_failure e;
    guardrail_text = e;
  }
  with_guardrail_content input (answer content) response =
      with_reading input (parse_local_guardrail_content r content) response

  unfoldable pub ask_guardrail : Bool → InferenceRequest → InferenceResponse → InferenceResponse
  ask_guardrail false input response = response
  ask_guardrail true input response =
      let asked = guardrail_request input response.primary_output in
      with_guardrail_content input (call_ollama_chat post "guardrail" asked) response

  abbrev pub with_help :
      InferenceRequest → Answer (Raw × String) → InferenceResponse → InferenceResponse
  with_help input (error e) response = record response {
    helper_text = "helper model response mapping failed: " +++ e;
  }
  with_help input (answer (output, text)) response = record response {
    helper_output = output;
    helper_text = text;
    helper_tag = input.helper_model;
  }

  abbrev pub with_helper_content :
      InferenceRequest → Answer String → InferenceResponse → InferenceResponse
  with_helper_content input (error e) response = record response {
    helper_text = "helper model call failed: " +++ e;
  }
  with_helper_content input (answer content) response =
      with_help input (map_ollama_content r content input.expect_json) response

  unfoldable pub ask_helper : Bool → InferenceRequest → InferenceResponse → InferenceResponse
  ask_helper false input response = response
  ask_helper true input response =
      let asked = helper_request input response.primary_output in
      with_helper_content input (call_ollama_chat post "helper" asked) response

  -- The rest of `executeLocalOllama`, with the milliseconds that it takes.
  abbrev pub respond : InferenceRequest → ℕ → Raw × String → InferenceResponse
  respond input elapsed output =
      let guarded = ask_guardrail (guardrail_invoked input) input (first_response input output) in
      record (ask_helper (helper_invoked input) input guarded) { latency_ms = elapsed }

  unfoldable pub execute_local_ollama : InferenceRequest → ℕ → Answer InferenceResponse
  execute_local_ollama input elapsed =
      if trim_space input.primary_model == ""
      then error "primary_model is required for local_ollama"
      else elim (ask_primary input) [
        | error e ↦ error e
        | answer output ↦ answer (respond input elapsed output)
      ]
