-- ===== src/Runs/Repository/Tables.antt =====
-- How each statement changes the tables.
use clawbot_server.Base.{ℕ, String, Bool, true, false, not, List, ◌∷◌, ◌≡◌, arith}
use clawbot_server.Runs.Types.{Run, CreateInput, Cycle, CreateCycleInput}
use clawbot_server.Runs.Types.Governance.{
  Artifact, AttachArtifactInput, Comparison, UpsertComparisonInput, PolicyDecisionInput,
  PolicyDecision, ReviewActionInput, ReviewActionRecord, GovernanceAuditEventInput,
  GovernanceAuditEvent,
}
use clawbot_server.Runs.Types.Execution.{ModelProfile, RegisterModelProfileInput}
use clawbot_server.Runs.Store.{Payload, AuditEvent, Db, Env}
use clawbot_server.Runs.Store.Quiet.{IsQuiet, quiet_rules}
use clawbot_server.Runs.Store.Steps.{
  Preorder, Keeps, Keeps-of_KeepsFrom, KeepsFrom-bind, KeepsFrom-tables, KeepsFrom-require,
  KeepsFrom-store, KeepsFrom-last,
}
use clawbot_server.Runs.Repository.{replace_by, get_run, create_run, update_run}
use clawbot_server.Runs.Repository.Cycles.{
  has_key, create_cycle_row, get_cycle_row, update_cycle_row,
}
use clawbot_server.Runs.Repository.Results.{
  create_artifact, list_artifact_rows, upsert_comparison_row, get_comparison_row,
  register_model_profile_row, get_model_profile_row,
}
use clawbot_server.Runs.Repository.Decisions.{record_policy_decision, record_review_action}
use clawbot_server.Runs.Repository.Ledger.{
  hash_of, append_governance_audit_event, record_audit, record_run_intent,
}

-- What no update changes of a run.
abbrev pub run_origin : Run → String × String × ℕ
run_origin run = (run.id, run.created_by, run.created_at)

-- What no update changes of a cycle.
abbrev pub cycle_origin : Cycle → String × String × String × ℕ
cycle_origin cycle = (cycle.id, cycle.run_id, cycle.cycle_key, cycle.created_at)

-- What a relation has to allow for a recorded policy decision to keep it.
pub record AllowsPolicy (env : Env) (F : Preorder) : Type 0 where
  pub decision_added :
      (db : Db) (row : PolicyDecision) → F.relates db (record db { decisions = row ∷ db.decisions })
  pub event_added :
      (db : Db) (row : GovernanceAuditEvent)
      → row.previous_event_hash ≡ hash_of (env.latest db.chain)
      → F.relates db (record db { chain = row ∷ db.chain })

-- What a relation has to allow for the statements to keep it.
pub record Allows (env : Env) (F : Preorder) : Type 0 where
  pub policy : AllowsPolicy env F
  pub run_added : (db : Db) (row : Run) → F.relates db (record db { runs = row ∷ db.runs })
  pub run_changed :
      (db : Db) (id : String) (change : Run → Run)
      → ((row : Run) → run_origin (change row) ≡ run_origin row)
      → F.relates db (record db { runs = replace_by (λ run. run.id) id change db.runs })
  pub cycle_added :
      (db : Db) (row : Cycle)
      → has_key row.run_id row.cycle_key db.cycles ≡ false
      → F.relates db (record db { cycles = row ∷ db.cycles })
  pub cycle_changed :
      (db : Db) (id : String) (change : Cycle → Cycle)
      → ((row : Cycle) → cycle_origin (change row) ≡ cycle_origin row)
      → F.relates db (record db { cycles = replace_by (λ cycle. cycle.id) id change db.cycles })
  pub artifact_added :
      (db : Db) (row : Artifact) → F.relates db (record db { artifacts = row ∷ db.artifacts })
  pub comparisons_set :
      (db : Db) (rows : List Comparison) → F.relates db (record db { comparisons = rows })
  pub profiles_set :
      (db : Db) (rows : List ModelProfile) → F.relates db (record db { profiles = rows })
  pub review_added :
      (db : Db) (row : ReviewActionRecord) → F.relates db (record db { reviews = row ∷ db.reviews })
  pub audit_added :
      (db : Db) (row : AuditEvent) → F.relates db (record db { audits = row ∷ db.audits })

module _ (env : Env) where
  pub IsQuiet-get_run : (id : String) → IsQuiet (get_run env id)
  unfolding get_run
  IsQuiet-get_run id = search quiet_rules

  pub IsQuiet-get_cycle_row : (run id : String) → IsQuiet (get_cycle_row env run id)
  unfolding get_cycle_row
  IsQuiet-get_cycle_row run id = search quiet_rules

  pub IsQuiet-list_artifact_rows : (run : String) → IsQuiet (list_artifact_rows env run)
  unfolding list_artifact_rows
  IsQuiet-list_artifact_rows run = search quiet_rules

  pub IsQuiet-get_comparison_row : (run : String) → IsQuiet (get_comparison_row env run)
  unfolding get_comparison_row
  IsQuiet-get_comparison_row run = search quiet_rules

  pub IsQuiet-get_model_profile_row : (key : String) → IsQuiet (get_model_profile_row env key)
  unfolding get_model_profile_row
  IsQuiet-get_model_profile_row key = search quiet_rules

not-true : (b : Bool) → not b ≡ true → b ≡ false
not-true b h = ground arith

-- A statement that reads, then writes.
pub ruleset write_rules =
    (quiet_rules, KeepsFrom-bind, KeepsFrom-tables, KeepsFrom-store, KeepsFrom-last)

module _ (env : Env) (F : Preorder) (allows : AllowsPolicy env F) where
  pub Keeps-record_policy_decision :
      (input : PolicyDecisionInput) → Keeps F (record_policy_decision env input)
  unfolding record_policy_decision
  Keeps-record_policy_decision input =
      Keeps-of_KeepsFrom F λ db. search (write_rules, allows.decision_added) depth 16

  pub Keeps-append_governance_audit_event :
      (input : GovernanceAuditEventInput) → Keeps F (append_governance_audit_event env input)
  unfolding append_governance_audit_event
  Keeps-append_governance_audit_event input =
      Keeps-of_KeepsFrom F λ db. search (write_rules, allows.event_added) depth 20

module _ (env : Env) (F : Preorder) (allows : Allows env F) where
  pub Keeps-create_run : (input : CreateInput) → Keeps F (create_run env input)
  unfolding create_run
  Keeps-create_run input =
      Keeps-of_KeepsFrom F λ db. search (write_rules, allows.run_added) depth 16

  pub Keeps-update_run : (item : Run) → Keeps F (update_run env item)
  unfolding update_run
  Keeps-update_run item =
      Keeps-of_KeepsFrom F λ db. search (write_rules, allows.run_changed) depth 16

  pub Keeps-create_artifact :
      (run : String) (input : AttachArtifactInput) → Keeps F (create_artifact env run input)
  unfolding create_artifact
  Keeps-create_artifact run input =
      Keeps-of_KeepsFrom F λ db. search (write_rules, allows.artifact_added) depth 16

  pub Keeps-upsert_comparison_row :
      (run : String) (input : UpsertComparisonInput) → Keeps F (upsert_comparison_row env run input)
  unfolding upsert_comparison_row
  Keeps-upsert_comparison_row run input =
      Keeps-of_KeepsFrom F λ db. search (write_rules, allows.comparisons_set) depth 16

  pub Keeps-register_model_profile_row :
      (input : RegisterModelProfileInput) (actor : String)
      → Keeps F (register_model_profile_row env input actor)
  unfolding register_model_profile_row
  Keeps-register_model_profile_row input actor =
      Keeps-of_KeepsFrom F λ db. search (write_rules, allows.profiles_set) depth 16

  pub Keeps-record_review_action :
      (run : String) (input : ReviewActionInput) (prior new_status : String)
      → Keeps F (record_review_action env run input prior new_status)
  unfolding record_review_action
  Keeps-record_review_action run input prior new_status =
      Keeps-of_KeepsFrom F λ db. search (write_rules, allows.review_added) depth 16

  pub Keeps-record_audit :
      (entity_type event_type actor entity_id : String) (payload : Payload)
      → Keeps F (record_audit env entity_type event_type actor entity_id payload)
  unfolding record_audit
  Keeps-record_audit entity_type event_type actor entity_id payload =
      Keeps-of_KeepsFrom F λ db. search (write_rules, allows.audit_added) depth 16

  pub Keeps-record_run_intent :
      (run : Run) (actor reason : String) → Keeps F (record_run_intent env run actor reason)
  unfolding record_run_intent
  Keeps-record_run_intent run actor reason = Keeps-record_audit _ _ _ _ _

  pub Keeps-create_cycle_row :
      (run : String) (input : CreateCycleInput) → Keeps F (create_cycle_row env run input)
  unfolding create_cycle_row
  Keeps-create_cycle_row run input =
      Keeps-of_KeepsFrom F
        λ db. search (write_rules, KeepsFrom-require, allows.cycle_added, not-true) depth 20

  pub Keeps-update_cycle_row : (item : Cycle) → Keeps F (update_cycle_row env item)
  unfolding update_cycle_row
  Keeps-update_cycle_row item =
      Keeps-of_KeepsFrom F λ db. search (write_rules, allows.cycle_changed) depth 20
