-- ===== src/Runs/Types/Governance.antt =====
-- Artifacts, comparisons, policy decisions, reviews and audit events: the structs of internal/platform/runs/types.go. A time is a number of nanoseconds, a pointer
-- an option, and a `float64` is counted in thousandths.
use clawbot_server.Base.{ℕ, String, Bool, Option, List}
use clawbot_server.Json.{Raw}

pub record Artifact : Type 0 where
  pub id : String
  pub run_id : String
  pub cycle_id : Option String
  pub artifact_type : String
  pub uri : String
  pub content_type : String
  pub version : String
  pub checksum : String
  pub metadata_json : Raw
  pub created_at : ℕ

pub record AttachArtifactInput : Type 0 where
  pub cycle_id : Option String
  pub artifact_type : String
  pub uri : String
  pub content_type : String
  pub version : String
  pub checksum : String
  pub metadata_json : Raw

pub record Comparison : Type 0 where
  pub id : String
  pub run_id : String
  pub cycle_id : Option String
  pub deterministic_summary : Raw
  pub llm_summary : Raw
  pub guardrail_summary : Raw
  pub deltas : Raw
  pub review_status : String
  pub reviewer_notes : String
  pub final_disposition : String
  pub final_output : Raw
  pub created_at : ℕ
  pub updated_at : ℕ

pub record UpsertComparisonInput : Type 0 where
  pub cycle_id : Option String
  pub deterministic_summary : Raw
  pub llm_summary : Raw
  pub guardrail_summary : Raw
  pub deltas : Raw
  pub review_status : String
  pub reviewer_notes : String
  pub final_disposition : String
  pub final_output : Raw

pub record PolicyDecisionInput : Type 0 where
  pub action_type : String
  pub target_run_id : Option String
  pub target_cycle_id : Option String
  pub actor_id : String
  pub actor_type : String
  pub policy_input : Raw
  pub allow : Bool
  pub policy_bundle_id : String
  pub policy_bundle_version : String
  pub reason_code : String
  pub conditions_applied : List String
  pub fallback_mode : String

pub record PolicyDecision : Type 0 where
  pub id : String
  pub action_type : String
  pub target_run_id : Option String
  pub target_cycle_id : Option String
  pub actor_id : String
  pub actor_type : String
  pub policy_input : Raw
  pub allow : Bool
  pub policy_bundle_id : String
  pub policy_bundle_version : String
  pub reason_code : String
  pub conditions_applied : List String
  pub fallback_mode : String
  pub created_at : ℕ

pub record ReviewActionInput : Type 0 where
  pub action : String
  pub reviewer_id : String
  pub reviewer_type : String
  pub rationale : String
  pub cycle_id : Option String
  pub policy_decision_id : Option String

pub record ReviewActionRecord : Type 0 where
  pub id : String
  pub run_id : String
  pub cycle_id : Option String
  pub reviewer_id : String
  pub reviewer_type : String
  pub action_type : String
  pub prior_status : String
  pub new_status : String
  pub rationale : String
  pub policy_decision_id : Option String
  pub created_at : ℕ

pub record GovernanceAuditEventInput : Type 0 where
  pub actor_id : String
  pub actor_type : String
  pub action_type : String
  pub target_run_id : Option String
  pub target_cycle_id : Option String
  pub target_artifact_id : Option String
  pub policy_decision_id : Option String
  pub payload_summary : Raw

pub record GovernanceAuditEvent : Type 0 where
  pub id : String
  pub previous_event_hash : String
  pub current_event_hash : String
  pub actor_id : String
  pub actor_type : String
  pub action_type : String
  pub target_run_id : Option String
  pub target_cycle_id : Option String
  pub target_artifact_id : Option String
  pub policy_decision_id : Option String
  pub payload_summary : Raw
  pub created_at : ℕ
