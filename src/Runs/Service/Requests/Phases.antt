-- ===== src/Runs/Service/Requests/Phases.antt =====
-- What each step of the execution of a run keeps of the tables.
use clawbot_server.Base.{
  String, Bool, true, false, Option, none, some, ◌==◌, Bool-cases, inl, inr, ℕ, arith, List,
}
use clawbot_server.Json.{Raw}
use clawbot_server.Runs.Types.{MemoryNamespace, Run, Cycle}
use clawbot_server.Runs.Types.Governance.{Artifact, PolicyDecision}
use clawbot_server.Runs.Types.Execution.{
  ModelProfile, ExecuteRunInput, MemoryContext, InferenceRequest,
}
use clawbot_server.Runs.Config.{DependencyConfig}
use clawbot_server.Runs.Store.{Env, Action}
use clawbot_server.Runs.Store.Quiet.{IsQuiet, quiet_rules}
use clawbot_server.Runs.Store.Steps.{Preorder, Keeps}
use clawbot_server.Runs.Repository.Tables.{
  Allows, IsQuiet-get_cycle_row, IsQuiet-get_model_profile_row,
}
use clawbot_server.Runs.Service.Execution.{
  resolve_execution_cycle, fail_cycle, mark_execution_policy_failure,
}
use clawbot_server.Runs.Service.Phases.{
  Produced, fetch_context, create_execution_artifact, run_deterministic, compare_summaries,
}
use clawbot_server.Runs.Service.Inference.{
  infer, execution_profile, keep_guardrail_report, run_inference,
}
use clawbot_server.Runs.Service.Finish.{finish_cycle, finish_run, record_guardrail, log_execution}
use clawbot_server.Runs.Service.Execute.{attempt, policy_profile, admit, start_cycle}
use clawbot_server.Runs.Service.Requests.Rules.{request_rules}

-- The steps that read.
module _ (env : Env) where
  pub IsQuiet-resolve_execution_cycle :
      (run : Run) (forced requested : Option String)
      → IsQuiet (resolve_execution_cycle env run forced requested)
  unfolding resolve_execution_cycle
  IsQuiet-resolve_execution_cycle run forced requested =
      elim (Bool-cases (run.run_type == "week_run")) [
        | inl week ↦ rw week (search (quiet_rules, IsQuiet-get_cycle_row) depth 8)
        | inr other ↦ rw other (search quiet_rules depth 8)
      ]

  pub IsQuiet-policy_profile : (asked : Bool) (run : Run) → IsQuiet (policy_profile env asked run)
  unfolding policy_profile
  IsQuiet-policy_profile false run = search quiet_rules
  IsQuiet-policy_profile true run = search (quiet_rules, IsQuiet-get_model_profile_row)

  pub IsQuiet-fetch_context : (namespace : MemoryNamespace) → IsQuiet (fetch_context env namespace)
  unfolding fetch_context
  IsQuiet-fetch_context namespace = record { same = λ w. ground arith }

  pub IsQuiet-infer : (request : InferenceRequest) → IsQuiet (infer env request)
  unfolding infer
  IsQuiet-infer request = record { same = λ w. ground arith }

  pub IsQuiet-execution_profile :
      (given : Option ModelProfile) (run : Run) → IsQuiet (execution_profile env given run)
  unfolding execution_profile
  IsQuiet-execution_profile none run = search (quiet_rules, IsQuiet-get_model_profile_row)
  IsQuiet-execution_profile (some profile) run = search quiet_rules

pub ruleset reading_rules = (
  IsQuiet-resolve_execution_cycle, IsQuiet-policy_profile, IsQuiet-fetch_context, IsQuiet-infer,
  IsQuiet-execution_profile,
)

module _ (env : Env) (F : Preorder) (allows : Allows env F) where
  pub Keeps-attempt : {A : Type 0} (m : Action A) → Keeps F m → Keeps F (attempt m)
  unfolding attempt
  Keeps-attempt m k = record { at = λ w. k.at w }

  pub Keeps-fail_cycle : (run : String) (cycle : Option Cycle) → Keeps F (fail_cycle env run cycle)
  unfolding fail_cycle
  Keeps-fail_cycle run none = search request_rules
  Keeps-fail_cycle run (some cycle) = search request_rules depth 12

  pub Keeps-mark_execution_policy_failure :
      (run : String) (cycle : Option Cycle) → Keeps F (mark_execution_policy_failure env run cycle)
  unfolding mark_execution_policy_failure
  Keeps-mark_execution_policy_failure run cycle = search (request_rules, Keeps-fail_cycle) depth 12

  pub Keeps-admit :
      (allowed : Bool) (run : String) (cycle : Option Cycle) (decision : PolicyDecision)
      → Keeps F (admit env allowed run cycle decision)
  unfolding admit
  Keeps-admit true run cycle decision = search request_rules
  Keeps-admit false run cycle decision =
      search (request_rules, Keeps-attempt, Keeps-mark_execution_policy_failure) depth 12

  pub Keeps-create_execution_artifact :
      (run : Run) (cycle_id : Option String) (artifact_type : String) (payload : Raw)
      (content_type version : String)
      → Keeps F
          (create_execution_artifact env run cycle_id artifact_type payload content_type version)
  unfolding create_execution_artifact
  Keeps-create_execution_artifact run cycle_id artifact_type payload content_type version =
      search request_rules depth 8

  pub Keeps-run_deterministic :
      (made : Bool) (run : Run) (cycle : Option Cycle) (cycle_id : Option String)
      (memory : MemoryContext) (input : ExecuteRunInput)
      → Keeps F (run_deterministic env made run cycle cycle_id memory input)
  unfolding run_deterministic
  Keeps-run_deterministic false run cycle cycle_id memory input = search request_rules
  Keeps-run_deterministic true run cycle cycle_id memory input =
      search (request_rules, Keeps-create_execution_artifact) depth 8

  pub Keeps-keep_guardrail_report :
      (blank : Bool) (run : Run) (cycle_id : Option String) (summary : Raw) (made : List Artifact)
      → Keeps F (keep_guardrail_report env blank run cycle_id summary made)
  unfolding keep_guardrail_report
  Keeps-keep_guardrail_report true run cycle_id summary made = search request_rules
  Keeps-keep_guardrail_report false run cycle_id summary made =
      search (request_rules, Keeps-create_execution_artifact) depth 8

  pub Keeps-run_inference :
      (deps : DependencyConfig) (made : Bool) (run : Run) (cycle : Option Cycle)
      (cycle_id : Option String) (memory : MemoryContext) (input : ExecuteRunInput)
      (given : Option ModelProfile) (produced : Produced)
      → Keeps F (run_inference env deps made run cycle cycle_id memory input given produced)
  unfolding run_inference
  Keeps-run_inference deps false run cycle cycle_id memory input given produced =
      search request_rules
  Keeps-run_inference deps true run cycle cycle_id memory input given produced =
      search
        (request_rules, reading_rules, Keeps-create_execution_artifact, Keeps-keep_guardrail_report)
        depth 16

  pub Keeps-compare_summaries :
      (made : Bool) (run : Run) (cycle_id : Option String) (produced : Produced)
      → Keeps F (compare_summaries env made run cycle_id produced)
  unfolding compare_summaries
  Keeps-compare_summaries false run cycle_id produced = search request_rules
  Keeps-compare_summaries true run cycle_id produced = search request_rules depth 8

  pub Keeps-start_cycle : (cycle : Option Cycle) (at : ℕ) → Keeps F (start_cycle env cycle at)
  unfolding start_cycle
  Keeps-start_cycle none at = search request_rules
  Keeps-start_cycle (some cycle) at = search request_rules depth 8

  pub Keeps-finish_cycle :
      (cycle : Option Cycle) (mode : String) (produced : Produced) (ref : String) (at : ℕ)
      → Keeps F (finish_cycle env cycle mode produced ref at)
  unfolding finish_cycle
  Keeps-finish_cycle none mode produced ref at = search request_rules
  Keeps-finish_cycle (some cycle) mode produced ref at = search request_rules depth 8

  pub Keeps-finish_run :
      (run : Run) (produced : Produced) (ref decision : String) (at : ℕ)
      → Keeps F (finish_run env run produced ref decision at)
  unfolding finish_run
  Keeps-finish_run run produced ref decision at = search request_rules depth 8

  pub Keeps-record_guardrail :
      (action : Option String) (actor : String) (run : Run) (cycle_id : Option String)
      (decision status : String)
      → Keeps F (record_guardrail env action actor run cycle_id decision status)
  unfolding record_guardrail
  Keeps-record_guardrail none actor run cycle_id decision status = search request_rules
  Keeps-record_guardrail (some action) actor run cycle_id decision status =
      search (request_rules, allows.policy) depth 8

  pub Keeps-log_execution :
      (actor : String) (run : Run) (cycle_id : Option String) (decision : String)
      (produced : Produced)
      → Keeps F (log_execution env actor run cycle_id decision produced)
  unfolding log_execution
  Keeps-log_execution actor run cycle_id decision produced =
      search (request_rules, Keeps-record_guardrail, allows.policy) depth 12
