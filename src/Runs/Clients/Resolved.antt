-- ===== src/Runs/Clients/Resolved.antt =====
-- What the service makes of the response of a local model: `resolveGuardrailStatus` of
-- internal/platform/runs/service.go after `executeLocalOllama` of clients.go.
use clawbot_server.Base.{ℕ, String, Bool, true, false, [], ◌∷◌, ◌≡◌, refl, ◌==◌, All-one_of}
use clawbot_server.Json.{Raw, empty}
use clawbot_server.Text.{trim_space, to_lower}
use clawbot_server.Runs.Types.Execution.{InferenceRequest, InferenceResponse}
use clawbot_server.Runs.Service.Guards.{resolve_guardrail_status}
use clawbot_server.Runs.Service.Inference.{reported}
use clawbot_server.Runs.Clients.{Reader, answer}
use clawbot_server.Runs.Clients.Ollama.{
  OllamaChatRequest, Reply, guardrail_invoked, ask_primary, execute_local_ollama,
}
use clawbot_server.Runs.Clients.Answers.{IsStatusOf, Says, execute_local_ollama-Says}

-- The status of a run whose profile enables the guardrail or not, and names a model for it or not.
abbrev pub status_for : Bool → Bool → String → String
status_for false invoked answered = "guardrail_disabled"
status_for true false answered = "guardrail_unavailable"
status_for true true answered = answered

-- A status that a guardrail gives is kept.
IsKept : String → Type 0
IsKept status = (summary : Raw) → resolve_guardrail_status true status summary ≡ status

resolved-IsKept : (status : String) → IsStatusOf true status → IsKept status
unfolding IsKept resolve_guardrail_status trim_space to_lower
resolved-IsKept status known summary =
    All-one_of (λ s. resolve_guardrail_status true s summary ≡ s)
      ("guardrail_passed" ∷ "guardrail_flagged" ∷ "guardrail_timeout" ∷ "guardrail_unavailable"
        ∷ [])
      status (refl, (refl, (refl, (refl, tt)))) known

-- A guardrail that is not asked, where the profile enables it or not.
resolved_unasked :
    (enabled : Bool) (response : InferenceResponse)
    → response.guardrail_status ≡ "guardrail_disabled"
    → response.guardrail_output ≡ empty
    → response.guardrail ≡ empty
    → resolve_guardrail_status enabled response.guardrail_status (reported response)
      ≡ status_for enabled false response.guardrail_status
unfolding resolve_guardrail_status trim_space to_lower
resolved_unasked false response disabled no_output no_report = refl
resolved_unasked true response disabled no_output no_report =
    rw (disabled, no_output, no_report) refl

resolved_said :
    (enabled invoked : Bool) (output : Raw) (response : InferenceResponse)
    → Says invoked output response
    → resolve_guardrail_status enabled response.guardrail_status (reported response)
      ≡ status_for enabled invoked response.guardrail_status
unfolding resolve_guardrail_status IsKept
resolved_said false invoked output response says = refl
resolved_said true false output response (same, disabled, (no_output, no_report)) =
    resolved_unasked true response disabled no_output no_report
resolved_said true true output response (same, known, reports) =
    resolved-IsKept response.guardrail_status known (reported response)

-- With a primary model that answers, a local inference succeeds, and the guardrail status that the
-- service resolves from the response is: `guardrail_disabled` where the guardrail is not enabled;
-- `guardrail_unavailable`, which defers the run, where it is enabled without a model; and else the one
-- of the response, which is passed, flagged, timeout or unavailable.
pub resolve-execute_local_ollama :
    (r : Reader) (post : String → OllamaChatRequest → Reply) (input : InferenceRequest)
    (elapsed : ℕ) (output : Raw × String)
    → (trim_space input.primary_model == "") ≡ false
    → ask_primary r post input ≡ answer output
    → (response : InferenceResponse) × (execute_local_ollama r post input elapsed ≡ answer response)
      × IsStatusOf (guardrail_invoked input) response.guardrail_status
      × (resolve_guardrail_status input.enable_guardrails response.guardrail_status
            (reported response)
          ≡ status_for input.enable_guardrails (guardrail_invoked input) response.guardrail_status)
resolve-execute_local_ollama r post input elapsed output named asked =
    let (response, succeeded, (same, known, reports)) =
      execute_local_ollama-Says r post input elapsed output named asked in
    (
      response,
      succeeded,
      known,
      resolved_said input.enable_guardrails (guardrail_invoked input) output.0 response
          (same, known, reports),
    )
