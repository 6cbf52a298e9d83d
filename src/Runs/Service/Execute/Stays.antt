-- ===== src/Runs/Service/Execute/Stays.antt =====
-- The logs of an execution leave the runs and the cycles as they are.
use clawbot_server.Base.{String, Option, none, some, ◌≡◌, refl, ◌∙◌, arith}
use clawbot_server.Runs.Types.{Run}
use clawbot_server.Runs.Store.{Payload, Env, ◌>>=◌, statement, draw_id, pure, tables, store}
use clawbot_server.Runs.Store.Steps.{Preorder, Keeps}
use clawbot_server.Runs.Repository.Tables.{AllowsPolicy, Keeps-append_governance_audit_event}
use clawbot_server.Runs.Types.Governance.{ReviewActionInput}
use clawbot_server.Runs.Repository.Decisions.{record_review_action}
use clawbot_server.Runs.Repository.Ledger.{record_audit, record_run_intent}
use clawbot_server.Runs.Service.Phases.{Produced}
use clawbot_server.Runs.Service.Finish.{record_guardrail, log_execution}
use clawbot_server.Runs.Service.Requests.Rules.{keeps_rules}

-- The runs and the cycles are the same.
abbrev pub rows_stay : Preorder
rows_stay = record {
  relates = λ before after. (after.runs ≡ before.runs) × (after.cycles ≡ before.cycles);
  reflexive = λ db. (refl, refl);
  transitive = λ a b c (r, k) (r', k'). (r' ∙ r, k' ∙ k);
}

pub AllowsPolicy-rows_stay : (env : Env) → AllowsPolicy env rows_stay
AllowsPolicy-rows_stay env = record {
  decision_added = λ db row. (refl, refl);
  event_added = λ db row h. (refl, refl);
}

module _ (env : Env) where
  pub stays-record_review_action :
      (run : String) (input : ReviewActionInput) (prior status : String)
      → Keeps rows_stay (record_review_action env run input prior status)
  unfolding record_review_action ◌>>=◌ statement tables store draw_id pure
  stays-record_review_action run input prior status = record { at = λ w. ground arith }

  pub stays-record_audit :
      (entity event actor id : String) (payload : Payload)
      → Keeps rows_stay (record_audit env entity event actor id payload)
  unfolding record_audit ◌>>=◌ statement tables store
  stays-record_audit entity event actor id payload = record { at = λ w. ground arith }

  stays-record_guardrail :
      (action : Option String) (actor : String) (run : Run) (cycle_id : Option String)
      (decision status : String)
      → Keeps rows_stay (record_guardrail env action actor run cycle_id decision status)
  unfolding record_guardrail
  stays-record_guardrail none actor run cycle_id decision status = search keeps_rules
  stays-record_guardrail (some action) actor run cycle_id decision status =
      search (keeps_rules, Keeps-append_governance_audit_event, AllowsPolicy-rows_stay) depth 8

  pub stays-log_execution :
      (actor : String) (run : Run) (cycle_id : Option String) (decision : String)
      (produced : Produced)
      → Keeps rows_stay (log_execution env actor run cycle_id decision produced)
  unfolding log_execution record_run_intent
  stays-log_execution actor run cycle_id decision produced =
      search
        (
          keeps_rules, Keeps-append_governance_audit_event, AllowsPolicy-rows_stay,
          stays-record_audit, stays-record_guardrail,
        )
        depth 12
