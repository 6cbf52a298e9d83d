-- ===== src/Runs/Clients/Answers.antt =====
-- The response of a local model: `executeLocalOllama` of internal/platform/runs/clients.go.
use clawbot_server.Base.{
  ℕ, String, Bool, true, false, [], ◌∷◌, Option, none, some, ◌≡◌, refl, Bool-cases, inl, inr, ◌==◌,
  ◌||◌, one_of,
}
use clawbot_server.Base.Int.{ℤ}
use clawbot_server.Json
use clawbot_server.Json.{Raw}
use clawbot_server.Text.{trim_space, to_lower, contains}
use clawbot_server.Runs.Types.Execution.{InferenceRequest, InferenceResponse}
use clawbot_server.Runs.Clients.{Reader, Answer, answer, error}
use clawbot_server.Runs.Clients.Content.{map_ollama_content, classify_guardrail_failure}
use clawbot_server.Runs.Clients.Scores.{Reading, parse_local_guardrail_content}
use clawbot_server.Runs.Clients.Agrees.{
  Agrees, AnswerAgrees, parse_local_guardrail_content-AnswerAgrees,
}
use clawbot_server.Runs.Clients.Ollama.{
  OllamaChatRequest, Reply, call_ollama_chat, guardrail_invoked, helper_invoked, guardrail_request,
  helper_request, first_response, with_reading, with_guardrail_content, with_help,
  with_helper_content, ask_primary, ask_guardrail, ask_helper, respond, execute_local_ollama,
}

-- The status of a guardrail that was asked, or of one that was not.
abbrev pub IsStatusOf : Bool → String → Type 0
IsStatusOf false status = status ≡ "guardrail_disabled"
IsStatusOf true status =
    one_of
      ("guardrail_passed" ∷ "guardrail_flagged" ∷ "guardrail_timeout" ∷ "guardrail_unavailable"
        ∷ [])
      status
    ≡ true

Agrees-IsStatusOf :
    (status : String) (score : Option ℤ) → Agrees status score → IsStatusOf true status
Agrees-IsStatusOf status none (inl same) = rw same refl
Agrees-IsStatusOf status none (inr (inl same)) = rw same refl
Agrees-IsStatusOf status none (inr (inr same)) = rw same refl
Agrees-IsStatusOf status (some score) (inl (high, same)) = rw same refl
Agrees-IsStatusOf status (some score) (inr (low, same)) = rw same refl

classify_guardrail_failure-IsStatusOf :
    (e : String) → IsStatusOf true (classify_guardrail_failure e)
unfolding classify_guardrail_failure
classify_guardrail_failure-IsStatusOf e =
    elim (Bool-cases
      (contains (to_lower e) "deadline exceeded" || contains (to_lower e) "timeout")) [
        | inl late ↦ rw late refl
        | inr other ↦ rw other refl
      ]

-- A guardrail that is not asked reports nothing.
abbrev pub ReportsOf : Bool → Raw → Raw → Type 0
ReportsOf true output report = Unit {0}
ReportsOf false output report = (output ≡ Json.empty) × (report ≡ Json.empty)

-- What a response says of the primary output and of the guardrail.
abbrev pub Says : Bool → Raw → InferenceResponse → Type 0
Says invoked output response =
    (response.primary_output ≡ output)
    × IsStatusOf invoked response.guardrail_status
    × ReportsOf invoked response.guardrail_output response.guardrail

module _ (r : Reader) (post : String → OllamaChatRequest → Reply) (input : InferenceRequest) where
  with_reading-Says :
      (reading : Answer Reading) (response : InferenceResponse)
      → AnswerAgrees reading
      → Says true response.primary_output (with_reading r post input reading response)
  with_reading-Says (error e) response agrees = (refl, refl, tt)
  with_reading-Says (answer reading) response agrees =
      (refl, Agrees-IsStatusOf reading.status reading.score agrees, tt)

  with_guardrail_content-Says :
      (content : Answer String) (response : InferenceResponse)
      → Says true response.primary_output (with_guardrail_content r post input content response)
  with_guardrail_content-Says (error e) response =
      (refl, classify_guardrail_failure-IsStatusOf e, tt)
  with_guardrail_content-Says (answer content) response =
      with_reading-Says (parse_local_guardrail_content r content) response
        (parse_local_guardrail_content-AnswerAgrees r content)

  ask_guardrail-Says :
      (invoked : Bool) (output : Raw × String)
      → Says invoked output.0
          (ask_guardrail r post invoked input (first_response r post input output))
  unfolding ask_guardrail
  ask_guardrail-Says false output = (refl, refl, (refl, refl))
  ask_guardrail-Says true output =
      with_guardrail_content-Says
        (call_ollama_chat post "guardrail" (guardrail_request r post input output.0))
        (first_response r post input output)

  with_help-Says :
      (invoked : Bool) (output : Raw) (help : Answer (Raw × String)) (response : InferenceResponse)
      → Says invoked output response
      → Says invoked output (with_help r post input help response)
  with_help-Says invoked output (error e) response says = says
  with_help-Says invoked output (answer h) response says = says

  with_helper_content-Says :
      (invoked : Bool) (output : Raw) (content : Answer String) (response : InferenceResponse)
      → Says invoked output response
      → Says invoked output (with_helper_content r post input content response)
  with_helper_content-Says invoked output (error e) response says = says
  with_helper_content-Says invoked output (answer content) response says =
      with_help-Says invoked output (map_ollama_content r content input.expect_json) response says

  ask_helper-Says :
      (helped invoked : Bool) (output : Raw) (response : InferenceResponse)
      → Says invoked output response
      → Says invoked output (ask_helper r post helped input response)
  unfolding ask_helper
  ask_helper-Says false invoked output response says = says
  ask_helper-Says true invoked output response says =
      with_helper_content-Says invoked output
        (call_ollama_chat post "helper" (helper_request r post input response.primary_output))
        response says

-- With a primary model that answers, the inference succeeds whatever becomes of the calls of the
-- guardrail and of the helper. Its output is that of the primary model; the status of the guardrail is
-- `guardrail_disabled`, with no report, where the guardrail is not asked, and is passed, flagged,
-- timeout or unavailable where it is.
pub execute_local_ollama-Says :
    (r : Reader) (post : String → OllamaChatRequest → Reply) (input : InferenceRequest)
    (elapsed : ℕ) (output : Raw × String)
    → (trim_space input.primary_model == "") ≡ false
    → ask_primary r post input ≡ answer output
    → (response : InferenceResponse) × (execute_local_ollama r post input elapsed ≡ answer response)
      × Says (guardrail_invoked input) output.0 response
unfolding execute_local_ollama
execute_local_ollama-Says r post input elapsed output named asked = (
  respond r post input elapsed output,
  rw (named, asked) refl,
  ask_helper-Says r post input (helper_invoked input) (guardrail_invoked input) output.0 _
      (ask_guardrail-Says r post input (guardrail_invoked input) output),
)
