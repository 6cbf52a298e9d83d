-- ===== src/Runs/Service/Requests/Executes.antt =====
-- What the execution of a run keeps of the tables.
use clawbot_server.Base.{String, Option}
use clawbot_server.Runs.Types.Execution.{ModelProfile, ExecuteRunInput}
use clawbot_server.Runs.Config.{DependencyConfig}
use clawbot_server.Runs.Store.{Env}
use clawbot_server.Runs.Store.Steps.{Preorder, Keeps}
use clawbot_server.Runs.Repository.Tables.{Allows}
use clawbot_server.Runs.Service.Execute.{perform, execute_run, start_run, execute_cycle_run}
use clawbot_server.Runs.Service.Requests.Rules.{request_rules}
use clawbot_server.Runs.Service.Requests.Phases.{
  reading_rules, Keeps-admit, Keeps-start_cycle, Keeps-run_deterministic, Keeps-run_inference,
  Keeps-compare_summaries, Keeps-finish_run, Keeps-finish_cycle, Keeps-log_execution,
}

ruleset phase_rules = (
  request_rules, reading_rules, Keeps-admit, Keeps-start_cycle, Keeps-run_deterministic,
  Keeps-run_inference, Keeps-compare_summaries, Keeps-finish_run, Keeps-finish_cycle,
  Keeps-log_execution,
)

module _ (env : Env) (deps : DependencyConfig) (F : Preorder) (allows : Allows env F) where
  pub Keeps-perform :
      (run : String) (forced : Option String) (input : ExecuteRunInput) (actor : String)
      (profile : Option ModelProfile) (decision : String)
      → Keeps F (perform env deps run forced input actor profile decision)
  unfolding perform
  Keeps-perform run forced input actor profile decision = search phase_rules depth 40

  pub Keeps-execute_run :
      (run : String) (forced : Option String) (input : ExecuteRunInput) (actor : String)
      → Keeps F (execute_run env deps run forced input actor)
  unfolding execute_run
  Keeps-execute_run run forced input actor =
      search (phase_rules, Keeps-perform, allows.policy) depth 20

  pub Keeps-start_run :
      (run : String) (input : ExecuteRunInput) (actor : String)
      → Keeps F (start_run env deps run input actor)
  unfolding start_run
  Keeps-start_run run input actor = Keeps-execute_run _ _ _ _

  pub Keeps-execute_cycle_run :
      (run cycle : String) (input : ExecuteRunInput) (actor : String)
      → Keeps F (execute_cycle_run env deps run cycle input actor)
  unfolding execute_cycle_run
  Keeps-execute_cycle_run run cycle input actor = search (phase_rules, Keeps-execute_run) depth 8
