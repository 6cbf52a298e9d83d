-- ===== src/Runs/Clients/Gateway.antt =====
-- The choice of the service and the gateway: `Execute`, `resolveBaseURL` and `executeGateway` of
-- internal/platform/runs/clients.go.
use clawbot_server.Base.{ℕ, String, Bool, ◌&&◌, ◌==◌, [], ◌∷◌, if◌then◌else◌, one_of, leb}
use clawbot_server.Json.{is_empty}
use clawbot_server.Text.{trim_space, to_lower, trim_right_slashes}
use clawbot_server.Text.Digits.{decimal}
use clawbot_server.Runs.Types.Execution.{InferenceRequest, InferenceResponse}
use clawbot_server.Runs.Clients.{Reader, Answer, answer, error}
use clawbot_server.Runs.Clients.Ollama.{OllamaChatRequest, Reply, ◌+++◌, execute_local_ollama}

unfoldable pub resolve_base_url : String → String → String
resolve_base_url own override =
    let given = trim_right_slashes (trim_space override) in if given == "" then own else given

-- What comes of the POST to the gateway, with a body that may not decode.
pub data GatewayReply : Type 0 where
  unmarshaled unbuilt_request unexecuted : String → GatewayReply
  responded : ℕ → Answer InferenceResponse → GatewayReply

-- Each of the two guardrail reports stands in for a missing other.
abbrev with_reports : InferenceResponse → InferenceResponse
with_reports response =
    let output =
      if is_empty response.guardrail_output
      then response.guardrail
      else response.guardrail_output in
    record response {
      guardrail_output = output;
      guardrail = if is_empty response.guardrail then output else response.guardrail;
    }

abbrev with_status : Bool → InferenceResponse → InferenceResponse
with_status enabled response =
    let default = if enabled then "guardrail_passed" else "guardrail_disabled" in
    if trim_space response.guardrail_status == ""
    then record response { guardrail_status = default }
    else response

abbrev gateway_response : InferenceRequest → Answer InferenceResponse → Answer InferenceResponse
gateway_response input (error e) = error ("decode inference response: " +++ e)
gateway_response input (answer decoded) =
    if input.expect_json && is_empty decoded.primary_output
    then error "structured output requested but primary_output is empty"
    else answer (with_status input.enable_guardrails (with_reports decoded))

unfoldable pub execute_gateway :
    (InferenceRequest → GatewayReply) → InferenceRequest → Answer InferenceResponse
execute_gateway send input = elim (send input) [
  | unmarshaled e ↦ error ("marshal inference request: " +++ e)
  | unbuilt_request e ↦ error ("build inference request: " +++ e)
  | unexecuted e ↦ error ("execute inference request: " +++ e)
  | responded status body ↦
      if leb 300 status
      then error ("execute inference request returned status " +++ decimal status)
      else gateway_response input body
]

-- `Execute`, where each service is reached at the base address.
unfoldable pub execute :
    Reader
    → (String → String → OllamaChatRequest → Reply)
    → (String → InferenceRequest → GatewayReply)
    → String
    → InferenceRequest
    → ℕ
    → Answer InferenceResponse
execute r post send own input elapsed =
    let base = resolve_base_url own input.base_url in
    if base == ""
    then error "inference base url is not configured"
    else if one_of ("local_ollama" ∷ "ollama" ∷ []) (to_lower (trim_space input.provider))
    then execute_local_ollama r (post base) input elapsed
    else execute_gateway (send base) input
