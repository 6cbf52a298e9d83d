-- ===== src/Runs/Repository/Ledger.antt =====
-- The two logs: the chain of governance events (`AppendGovernanceAuditEvent` of
-- internal/platform/runs/repository.go) and the audit events (`recordAudit` of service.go,
-- internal/platform/audit/service.go and internal/platform/scheduler/service.go).
pub mod Chain
use clawbot_server.Base.{String, List, [], ◌∷◌, Option, none, some}
use clawbot_server.Json.{str, end, field, or_braces}
use clawbot_server.Runs.Types.{Run}
use clawbot_server.Runs.Types.Governance.{GovernanceAuditEventInput, GovernanceAuditEvent}
use clawbot_server.Runs.Store.{
  Payload, of_fields, AuditEvent, Env, Action, pure, lift, ◌>>=◌, ◌>>◌, tables, store, statement,
  draw_id, time_now,
}
use clawbot_server.Runs.Repository.{jsonb, nullable_string}

-- `previousHash`, which is empty where the query finds no row.
abbrev pub hash_of : Option GovernanceAuditEvent → String
hash_of none = ""
hash_of (some event) = event.current_event_hash

abbrev pub newest : List GovernanceAuditEvent → Option GovernanceAuditEvent
newest [] = none
newest (event ∷ events) = some event

module _ (env : Env) where
  unfoldable pub append_governance_audit_event :
      GovernanceAuditEventInput → Action GovernanceAuditEvent
  append_governance_audit_event input = do
    statement env
    before ← tables
    let previous = hash_of (env.latest before.chain)
    let payload = or_braces input.payload_summary
    at ← time_now env
    column ← lift (jsonb payload)
    now ← statement env
    id ← draw_id env
    db ← tables
    let row : GovernanceAuditEvent = record {
      id = id;
      previous_event_hash = previous;
      current_event_hash = env.digest previous input payload at;
      actor_id = input.actor_id;
      actor_type = input.actor_type;
      action_type = input.action_type;
      target_run_id = nullable_string input.target_run_id;
      target_cycle_id = nullable_string input.target_cycle_id;
      target_artifact_id = nullable_string input.target_artifact_id;
      policy_decision_id = nullable_string input.policy_decision_id;
      payload_summary = column;
      created_at = now;
    }
    store (record db { chain = row ∷ db.chain })
    pure (record row { payload_summary = or_braces row.payload_summary })

  unfoldable pub record_audit : String → String → String → String → Payload → Action (Unit {0})
  record_audit entity_type event_type actor entity_id payload = do
    statement env
    db ← tables
    let event : AuditEvent = record {
      event_type = event_type;
      entity_type = entity_type;
      entity_id = entity_id;
      actor = actor;
      payload = payload;
    }
    store (record db { audits = event ∷ db.audits })

  -- The signal is given by the run that it is about, the actor and the reason.
  unfoldable pub record_run_intent : Run → String → String → Action (Unit {0})
  unfolding record_audit
  record_run_intent run actor reason = record_audit "run" "scheduler.intent.recorded" actor run.id (
      of_fields (
        field "run_id" (str run.id) (
          field "run_name" (str run.name) (
            field "status" (str run.status) (
              field "reason" (str reason) (
                field "note"
                  (str
                    "This scheduler records run intent only. Execution belongs to downstream integrations.")
                  end))))))
