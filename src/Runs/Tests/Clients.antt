-- ===== src/Runs/Tests/Clients.antt =====
-- Tests of the inference client, with a reader that knows a few texts.
use clawbot_server.Base.{String, true, none, some, ◌≡◌, refl, ◌==◌, if◌then◌else◌}
use clawbot_server.Base.Int.{pos}
use clawbot_server.Json.{Raw, empty, invalid, doc, obj, str, end, field, braces}
use clawbot_server.Text.{trim_space, to_lower, trim_prefix, trim_suffix, replace_all, index, slice}
use clawbot_server.Runs.Types.Execution.{InferenceRequest, InferenceResponse}
use clawbot_server.Runs.Clients.{Reader, Answer, answer, error}
use clawbot_server.Runs.Clients.Content.{
  map_ollama_content, strip_think_wrappers, strip_json_fence, parse_score_token_content,
  is_guardrail_yes_token, is_guardrail_no_token,
}
use clawbot_server.Runs.Clients.Scores.{
  Reading, parse_local_guardrail_content, map_guardrail_score_token, map_guardrail_numeric_score,
}
use clawbot_server.Runs.Clients.Ollama.{
  OllamaChatRequest, Reply, unsent, replied, call_ollama_chat, ask_primary, execute_local_ollama,
}
use clawbot_server.Runs.Clients.Agrees.{AnswerAgrees, parse_local_guardrail_content-AnswerAgrees}
use clawbot_server.Runs.Service.Guards.{resolve_guardrail_status}
use clawbot_server.Runs.Service.Inference.{reported}
use clawbot_server.Runs.Clients.Answers.{IsStatusOf}
use clawbot_server.Runs.Clients.Resolved.{resolve-execute_local_ollama}

abbrev fine : Raw
fine = doc (obj (field "verdict" (str "fine") end))

abbrev knowing : Reader
knowing = record {
  parse = λ s. if s == "[fine]" then fine else invalid;
  print = λ raw. "[fine]";
  parse_float = λ s. if s == "0.9" then some (pos 900) else none;
  quoted = λ s. s;
  order = λ fields. fields;
}

-- The primary model answers, the guardrail says no, and the helper is not reached.
abbrev replies : String → OllamaChatRequest → Reply
replies phase request =
    if phase == "primary"
    then replied 200 (answer record { content = "```json [fine] ```"; error_text = "" })
    else if phase == "guardrail"
    then replied 200
        (answer record { content = "<think></think><score> NO </score>"; error_text = "" })
    else unsent "no route"

abbrev asked : InferenceRequest
asked = record {
  provider = "ollama";
  base_url = "";
  prompt = "Analyze";
  system_prompt = "";
  input_json = braces;
  primary_model = "m";
  guardrail_model = "g";
  helper_model = "h";
  temperature = pos 0;
  max_tokens = pos 256;
  expect_json = true;
  enable_guardrails = true;
  enable_helper_model = true;
  helper_requested = true;
  primary_timeout_seconds = pos 45;
  guardrail_timeout_seconds = pos 45;
  helper_timeout_seconds = pos 45;
  connection_meta = empty;
}

primary_answered : ask_primary knowing replies asked ≡ answer (fine, "[fine]")
unfolding ask_primary call_ollama_chat map_ollama_content strip_think_wrappers strip_json_fence
    trim_space trim_prefix trim_suffix replace_all
primary_answered = refl

resolve-execute_local_ollama_example :
    (response : InferenceResponse) × (execute_local_ollama knowing replies asked 12
      ≡ answer response)
    × IsStatusOf true response.guardrail_status
    × (resolve_guardrail_status true response.guardrail_status (reported response)
        ≡ response.guardrail_status)
unfolding trim_space
resolve-execute_local_ollama_example =
    resolve-execute_local_ollama knowing replies asked 12 (fine, "[fine]") refl primary_answered

parse_local_guardrail_content-AnswerAgrees_example :
    AnswerAgrees (parse_local_guardrail_content knowing "<score> 0.9 </score>")
parse_local_guardrail_content-AnswerAgrees_example =
    parse_local_guardrail_content-AnswerAgrees knowing "<score> 0.9 </score>"

abbrev status_in : Answer Reading → String
status_in (answer reading) = reading.status
status_in (error e) = e

-- A high score is flagged, a word of assent passes, and another word is refused.
readings :
    (status_in (parse_local_guardrail_content knowing "<score> 0.9 </score>") ≡ "guardrail_flagged")
    × (status_in (parse_local_guardrail_content knowing "<think>\n</think> Approved ")
        ≡ "guardrail_passed")
    × (status_in (parse_local_guardrail_content knowing "<score>maybe</score>")
        ≡ "unsupported guardrail score token maybe")
unfolding parse_local_guardrail_content map_guardrail_score_token map_guardrail_numeric_score
    strip_think_wrappers strip_json_fence parse_score_token_content is_guardrail_yes_token
    is_guardrail_no_token trim_space to_lower trim_prefix trim_suffix replace_all index slice
readings = (refl, refl, refl)
