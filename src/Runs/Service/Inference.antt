-- ===== src/Runs/Service/Inference.antt =====
-- The inference of an execution, in `executeRun` of internal/platform/runs/service.go: the profile,
-- the request, and what becomes of the response.
use clawbot_server.Base.{
  String, Bool, true, false, not, ◌&&◌, ◌||◌, List, [], ◌∷◌, ◌++◌, Option, none, some,
  if◌then◌else◌,
}
use clawbot_server.Json.{Raw, is_empty, is_braces, or_braces}
use clawbot_server.Runs.Types.{Run, Cycle}
use clawbot_server.Runs.Types.Governance.{Artifact}
use clawbot_server.Runs.Types.Execution.{
  ModelProfile, ExecuteRunInput, MemoryContext, InferenceRequest, InferenceResponse,
}
use clawbot_server.Runs.Config.{DependencyConfig}
use clawbot_server.Runs.Failure.{Failure, ok, err}
use clawbot_server.Runs.Payloads.{build_inference_payload, choose_prompt, choose_system_prompt}
use clawbot_server.Runs.Timeouts.{derive_inference_phase_timeouts}
use clawbot_server.Runs.Store.{Env, Action, pure, lift, ◌>>=◌, called}
use clawbot_server.Runs.Repository.Results.{get_model_profile_row}
use clawbot_server.Runs.Service.Guards.{resolve_guardrail_status, ensure_guardrail_summary}
use clawbot_server.Runs.Service.Execution.{helper_requested, is_local_ollama_provider}
use clawbot_server.Runs.Service.Phases.{Produced, keep_summary}

module _ (env : Env) where
  -- `m.inference.Execute`.
  unfoldable pub infer : InferenceRequest → Action InferenceResponse
  infer request w = elim (env.infer w.calls request) [
    | none ↦ (err Failure.inference_failed, called w)
    | some response ↦ (ok response, called w)
  ]

  -- The profile that the policy was asked with, or the one that the run names now.
  unfoldable pub execution_profile : Option ModelProfile → Run → Action ModelProfile
  execution_profile none run = get_model_profile_row env run.model_profile
  execution_profile (some profile) run = pure profile

  -- `if len(guardrailSummary) > 0 && string(guardrailSummary) != "{}"`.
  unfoldable pub keep_guardrail_report :
      Bool → Run → Option String → Raw → List Artifact → Action (List Artifact)
  keep_guardrail_report true run cycle_id summary artifacts = pure artifacts
  keep_guardrail_report false run cycle_id summary artifacts = do
    report ← keep_summary env run cycle_id "guardrail_report" summary
    pure (artifacts ++ report ∷ [])

-- `GuardrailOutput`, or `Guardrail` where that is missing or empty.
abbrev pub reported : InferenceResponse → Raw
reported response =
    if is_braces (or_braces response.guardrail_output)
    then or_braces response.guardrail
    else or_braces response.guardrail_output

module _ (env : Env) (deps : DependencyConfig) where
  abbrev guarded : ModelProfile → Bool
  guarded profile =
      profile.enable_guardrails
      && not (deps.disable_local_ollama_guardrails && is_local_ollama_provider profile.provider)

  abbrev inference_request :
      ModelProfile → Run → Option Cycle → MemoryContext → ExecuteRunInput → Raw → InferenceRequest
  inference_request profile run cycle memory input deterministic =
      let timeouts = derive_inference_phase_timeouts profile deps in
      record {
        provider = profile.provider;
        base_url = profile.base_url;
        prompt = choose_prompt input.prompt run cycle;
        system_prompt = choose_system_prompt input.system_prompt run;
        input_json =
            build_inference_payload run cycle memory deterministic input
              deps.enable_compact_dual_payload;
        primary_model = profile.primary_model;
        guardrail_model = profile.guardrail_model;
        helper_model = profile.helper_model;
        temperature = profile.temperature;
        max_tokens = profile.max_tokens;
        expect_json = profile.json_mode || profile.structured_output;
        enable_guardrails = guarded profile;
        enable_helper_model = profile.enable_helper_model;
        helper_requested = helper_requested input.input_json;
        primary_timeout_seconds = timeouts.primary;
        guardrail_timeout_seconds = timeouts.guardrail;
        helper_timeout_seconds = timeouts.helper;
        connection_meta = profile.connection_metadata;
      }

  unfoldable pub run_inference :
      Bool
      → Run
      → Option Cycle
      → Option String
      → MemoryContext
      → ExecuteRunInput
      → Option ModelProfile
      → Produced
      → Action Produced
  run_inference false run cycle cycle_id memory input given produced = pure produced
  run_inference true run cycle cycle_id memory input given produced = do
    profile ← execution_profile env given run
    response ←
        infer env (inference_request profile run cycle memory input produced.deterministic_summary)
    let llm = or_braces response.primary_output
    let status =
        resolve_guardrail_status (guarded profile) response.guardrail_status (reported response)
    summary ← lift (
        ensure_guardrail_summary (reported response) status response.guardrail_text
          response.guardrail_score)
    output ← keep_summary env run cycle_id "llm_output" llm
    artifacts ←
        keep_guardrail_report env (is_empty summary || is_braces summary) run cycle_id summary
          (produced.artifacts ++ output ∷ [])
    pure (record produced {
      llm_summary = llm;
      guardrail_summary = summary;
      guardrail_status = status;
      artifacts = artifacts;
    })
