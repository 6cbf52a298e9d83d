-- ===== src/Runs/Service/Requests/Rules.antt =====
-- The rules for what the operations keep of the tables.
use clawbot_server.Base.{String, Option, none, some, arith}
use clawbot_server.Runs.Types.{MemoryNamespace, Run, CreateInput, Cycle, CreateCycleInput}
use clawbot_server.Runs.Types.Governance.{AttachArtifactInput}
use clawbot_server.Runs.Types.Execution.{ModelProfile, MemoryWriteInput}
use clawbot_server.Runs.Store.{Env}
use clawbot_server.Runs.Store.Quiet.{IsQuiet, quiet_rules}
use clawbot_server.Runs.Store.Steps.{Preorder, Keeps, Keeps-bind, Keeps-quiet, Keeps-in_tx}
use clawbot_server.Runs.Repository.Tables.{
  AllowsPolicy, Allows, IsQuiet-get_run, IsQuiet-get_cycle_row, Keeps-create_run, Keeps-update_run,
  Keeps-create_artifact, Keeps-upsert_comparison_row, Keeps-register_model_profile_row,
  Keeps-record_policy_decision, Keeps-record_review_action, Keeps-record_audit,
  Keeps-record_run_intent, Keeps-append_governance_audit_event, Keeps-create_cycle_row,
  Keeps-update_cycle_row,
}
use clawbot_server.Runs.Service.{DependencyConfig, evaluate_and_record_policy, persist_notes}
use clawbot_server.Runs.Service.Runs.{given_cycle}
use clawbot_server.Runs.Service.Cycles.{create_cycle}

module _ (env : Env) where
  pub IsQuiet-given_cycle : (run : String) (id : Option String) → IsQuiet (given_cycle env run id)
  unfolding given_cycle
  IsQuiet-given_cycle run none = search quiet_rules
  IsQuiet-given_cycle run (some id) = search (quiet_rules, IsQuiet-get_cycle_row)

  pub IsQuiet-persist_notes :
      (namespace : MemoryNamespace) (input : MemoryWriteInput)
      → IsQuiet (persist_notes env namespace input)
  unfolding persist_notes
  IsQuiet-persist_notes namespace input = record { same = λ w. ground arith }

pub ruleset keeps_rules = (
  quiet_rules, IsQuiet-get_run, IsQuiet-get_cycle_row, IsQuiet-given_cycle, IsQuiet-persist_notes,
  Keeps-bind, Keeps-quiet, Keeps-in_tx,
)

module _ (env : Env) (deps : DependencyConfig) (F : Preorder) (allows : AllowsPolicy env F) where
  pub Keeps-evaluate_and_record_policy :
      (action actor : String) (run : Option Run) (cycle : Option Cycle)
      (create_run : Option CreateInput) (create_cycle : Option CreateCycleInput)
      (artifact : Option AttachArtifactInput) (profile : Option ModelProfile)
      → Keeps F (
          evaluate_and_record_policy env deps action actor run cycle create_run create_cycle
            artifact profile)
  unfolding evaluate_and_record_policy
  Keeps-evaluate_and_record_policy action actor run cycle create_run create_cycle artifact profile =
      search (keeps_rules, Keeps-record_policy_decision, Keeps-append_governance_audit_event) depth
        12

pub ruleset request_rules = (
  keeps_rules, Keeps-evaluate_and_record_policy, Keeps-create_run, Keeps-update_run,
  Keeps-create_artifact, Keeps-upsert_comparison_row, Keeps-register_model_profile_row,
  Keeps-record_review_action, Keeps-record_audit, Keeps-record_run_intent,
  Keeps-append_governance_audit_event, Keeps-create_cycle_row, Keeps-update_cycle_row,
)
