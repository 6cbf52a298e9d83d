-- ===== src/Runs/Service/Phases.antt =====
-- The phases of an execution: memory, the deterministic summary, the inference and the comparison,
-- in `executeRun` of internal/platform/runs/service.go.
use Prim.Native.String
use clawbot_server.Base.{String, Bool, true, false, ◌||◌, List, [], ◌∷◌, Option, none, some, ◌==◌}
use clawbot_server.Json.{Raw, braces}
use clawbot_server.Text.Digits.{format_compact}
use clawbot_server.Runs.Types.{MemoryNamespace, Run, Cycle}
use clawbot_server.Runs.Types.Governance.{Artifact, Comparison}
use clawbot_server.Runs.Types.Execution.{ExecuteRunInput, MemoryContext}
use clawbot_server.Runs.Failure.{Failure, ok, err}
use clawbot_server.Runs.Namespace.{normalize_memory_namespace, compose_memory_namespace, with_agent}
use clawbot_server.Runs.Payloads.{build_deterministic_execution_summary, build_comparison_deltas}
use clawbot_server.Runs.Store.{Env, Action, pure, ◌>>=◌, time_now, called}
use clawbot_server.Runs.Repository.Results.{create_artifact, upsert_comparison_row}

-- `run.ExecutionMode == "llm" || run.ExecutionMode == "dual"`, and the same for the other summary.
abbrev pub has_inference : String → Bool
has_inference mode = mode == "llm" || mode == "dual"

abbrev pub has_deterministic : String → Bool
has_deterministic mode = mode == "deterministic" || mode == "dual"

-- What the phases have made so far.
pub record Produced : Type 0 where
  pub deterministic_summary : Raw
  pub llm_summary : Raw
  pub guardrail_summary : Raw
  pub guardrail_status : String
  pub artifacts : List Artifact

abbrev pub nothing_produced : Produced
nothing_produced = record {
  deterministic_summary = braces;
  llm_summary = braces;
  guardrail_summary = braces;
  guardrail_status = "guardrail_disabled";
  artifacts = [];
}

unfoldable pub execution_namespace : Run → Option Cycle → Option String → MemoryNamespace
execution_namespace run none agent =
    with_agent agent (normalize_memory_namespace run.memory_namespace run.repo run.domain run.id)
execution_namespace run (some cycle) agent = compose_memory_namespace run cycle agent

module _ (env : Env) where
  -- `m.memory.FetchScopedContext`.
  unfoldable pub fetch_context : MemoryNamespace → Action MemoryContext
  fetch_context namespace w = elim (env.fetch w.calls namespace) [
    | none ↦ (err Failure.memory_fetch_failed, called w)
    | some context ↦ (ok context, called w)
  ]

  unfoldable pub create_execution_artifact :
      Run → Option String → String → Raw → String → String → Action Artifact
  create_execution_artifact run cycle_id artifact_type payload content_type version = do
    at ← time_now env
    create_artifact env run.id record {
      cycle_id = cycle_id;
      artifact_type = artifact_type;
      uri = String.◌++◌ "control-plane://runs/" (
          String.◌++◌ run.id (
            String.◌++◌ "/" (
              String.◌++◌ artifact_type
                (String.◌++◌ "-" (String.◌++◌ (format_compact at) ".json")))));
      content_type = content_type;
      version = version;
      checksum = "";
      metadata_json = payload;
    }

  -- The artifact that holds a summary.
  abbrev pub keep_summary : Run → Option String → String → Raw → Action Artifact
  keep_summary run cycle_id artifact_type summary =
      create_execution_artifact run cycle_id artifact_type summary "application/json" "v1"

  unfoldable pub run_deterministic :
      Bool → Run → Option Cycle → Option String → MemoryContext → ExecuteRunInput → Action Produced
  run_deterministic false run cycle cycle_id memory input = pure nothing_produced
  run_deterministic true run cycle cycle_id memory input = do
    let summary = build_deterministic_execution_summary run cycle memory input
    artifact ← keep_summary run cycle_id "deterministic_output" summary
    pure (record nothing_produced { deterministic_summary = summary; artifacts = artifact ∷ [] })

  unfoldable pub compare_summaries :
      Bool → Run → Option String → Produced → Action (Option Comparison)
  compare_summaries false run cycle_id produced = pure none
  compare_summaries true run cycle_id produced = do
    comparison ← upsert_comparison_row env run.id record {
      cycle_id = cycle_id;
      deterministic_summary = produced.deterministic_summary;
      llm_summary = produced.llm_summary;
      guardrail_summary = produced.guardrail_summary;
      deltas =
          build_comparison_deltas produced.deterministic_summary produced.llm_summary
            produced.guardrail_summary;
      review_status = "review_pending";
      reviewer_notes = "";
      final_disposition = "pending_review";
      final_output = braces;
    }
    pure (some comparison)
