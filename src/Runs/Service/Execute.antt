-- ===== src/Runs/Service/Execute.antt =====
-- The execution of a run: `executeRun`, `StartRun` and `ExecuteCycleRun` of
-- internal/platform/runs/service.go.
pub mod Stays
pub mod Final
pub mod Steps
pub mod Ended
use clawbot_server.Base.{String, Bool, true, false, not, ◌||◌, Option, none, some, ◌==◌, ℕ}
use clawbot_server.Text.{trim_space}
use clawbot_server.Runs.Types.{Run, Cycle}
use clawbot_server.Runs.Types.Governance.{PolicyDecision}
use clawbot_server.Runs.Types.Execution.{ModelProfile, ExecuteRunInput, ExecuteRunResult}
use clawbot_server.Runs.Config.{DependencyConfig}
use clawbot_server.Runs.Failure.{Failure, ok}
use clawbot_server.Runs.Normalize.{normalize_execute_run_input}
use clawbot_server.Runs.Payloads.{build_memory_write_input}
use clawbot_server.Runs.Store.{Env, Action, pure, fail, ◌>>=◌, ◌>>◌, require, time_now, in_tx}
use clawbot_server.Runs.Repository.{or_pointer, get_run, update_run}
use clawbot_server.Runs.Repository.Cycles.{update_cycle_row}
use clawbot_server.Runs.Repository.Results.{get_model_profile_row}
use clawbot_server.Runs.Service.{evaluate_and_record_policy, policy_denied_error, persist_notes}
use clawbot_server.Runs.Service.Execution.{resolve_execution_cycle, mark_execution_policy_failure}
use clawbot_server.Runs.Service.Finish.{finish_cycle, finish_run, log_execution}
use clawbot_server.Runs.Service.Inference.{run_inference}
use clawbot_server.Runs.Service.Phases.{
  has_inference, has_deterministic, execution_namespace, fetch_context, run_deterministic,
  compare_summaries,
}

-- The action with its failure ignored.
unfoldable pub attempt : {A : Type 0} → Action A → Action (Unit {0})
attempt m w = (ok tt, (m w).1)

module _ (env : Env) where
  -- The profile that the policy is asked with.
  unfoldable pub policy_profile : Bool → Run → Action (Option ModelProfile)
  policy_profile false run = pure none
  policy_profile true run = do
    profile ← get_model_profile_row env run.model_profile
    pure (some profile)

  -- Where the policy denies the execution, the run is marked, and a failure to do so is ignored.
  unfoldable pub admit : Bool → String → Option Cycle → PolicyDecision → Action (Unit {0})
  admit true run_id cycle decision = pure tt
  admit false run_id cycle decision = do
    attempt (mark_execution_policy_failure env run_id cycle)
    fail (policy_denied_error decision)

  unfoldable pub start_cycle : Option Cycle → ℕ → Action (Option Cycle)
  start_cycle none at = pure none
  start_cycle (some cycle) at = do
    let started : Cycle = record cycle {
      started_at = or_pointer cycle.started_at (some at);
      status = "running";
    }
    update_cycle_row env started
    pure (some started)

module _ (env : Env) (deps : DependencyConfig) where
  -- The transaction of an execution that the policy allows.
  unfoldable pub perform :
      String
      → Option String
      → ExecuteRunInput
      → String
      → Option ModelProfile
      → String
      → Action ExecuteRunResult
  perform run_id forced input actor profile decision_id = do
    read ← get_run env run_id
    require (read.run_type == "agent_run" || read.run_type == "week_run")
        (Failure.execution_unsupported read.run_type)
    resolved ← resolve_execution_cycle env read forced input.cycle_id
    at ← time_now env
    let run : Run = record read {
      started_at = or_pointer read.started_at (some at);
      status = "running";
    }
    update_run env run
    cycle ← start_cycle env resolved.0 at
    let namespace = execution_namespace run cycle input.agent_namespace
    memory ← fetch_context env namespace
    first ←
        run_deterministic env (has_deterministic run.execution_mode) run cycle resolved.1 memory
          input
    produced ←
        run_inference env deps (has_inference run.execution_mode) run cycle resolved.1 memory input
          profile first
    comparison ← compare_summaries env (run.execution_mode == "dual") run resolved.1 produced
    ref ← persist_notes env namespace (
        build_memory_write_input input memory run cycle produced.deterministic_summary
          produced.llm_summary)
    finished ← time_now env
    updated ← finish_run env run produced ref decision_id finished
    finish_cycle env cycle run.execution_mode produced ref finished
    log_execution env actor updated resolved.1 decision_id produced
    pure record {
      run_id = updated.id;
      run_type = updated.run_type;
      execution_mode = updated.execution_mode;
      status = updated.status;
      cycle_id = resolved.1;
      memory_snapshot_ref = ref;
      deterministic_summary = produced.deterministic_summary;
      llm_summary = produced.llm_summary;
      guardrail_summary = produced.guardrail_summary;
      guardrail_status = produced.guardrail_status;
      artifacts = produced.artifacts;
      comparison = comparison;
    }

  unfoldable pub execute_run :
      String → Option String → ExecuteRunInput → String → Action ExecuteRunResult
  execute_run given_run forced given actor = do
    let run_id = trim_space given_run
    require (not (run_id == "")) Failure.run_id_required
    let input = normalize_execute_run_input given
    policy_run ← get_run env run_id
    resolved ← resolve_execution_cycle env policy_run forced input.cycle_id
    profile ← policy_profile env (has_inference policy_run.execution_mode) policy_run
    decision ←
        evaluate_and_record_policy env deps "run.execute" actor (some policy_run) resolved.0 none
          none none profile
    admit env decision.allow run_id resolved.0 decision
    in_tx env (perform run_id forced input actor profile decision.id)

  unfoldable pub start_run : String → ExecuteRunInput → String → Action ExecuteRunResult
  start_run run_id input actor = execute_run run_id none input actor

  unfoldable pub execute_cycle_run :
      String → String → ExecuteRunInput → String → Action ExecuteRunResult
  execute_cycle_run run_id given_cycle input actor = do
    let cycle_id = trim_space given_cycle
    require (not (cycle_id == "")) Failure.cycle_id_required
    execute_run run_id (some cycle_id) (record input { cycle_id = some cycle_id }) actor
