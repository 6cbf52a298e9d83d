-- ===== src/Runs/Types/Execution.antt =====
-- Model profiles, executions, and the messages of the memory and inference services: the structs of internal/platform/runs/types.go and clients.go. A time is a number of nanoseconds, a pointer
-- an option, and a `float64` is counted in thousandths.
use clawbot_server.Base.{ℕ, String, Bool, Option, List}
use clawbot_server.Base.Int.{ℤ}
use clawbot_server.Json.{Raw}
use clawbot_server.Runs.Types.Governance.{Artifact, Comparison}

pub record ModelProfile : Type 0 where
  pub id : String
  pub name : String
  pub provider : String
  pub base_url : String
  pub primary_model : String
  pub guardrail_model : String
  pub helper_model : String
  pub timeout_seconds : ℤ
  pub temperature : ℤ
  pub max_tokens : ℤ
  pub json_mode : Bool
  pub structured_output : Bool
  pub enable_guardrails : Bool
  pub enable_helper_model : Bool
  pub connection_metadata : Raw
  pub created_by : String
  pub created_at : ℕ
  pub updated_at : ℕ

pub record RegisterModelProfileInput : Type 0 where
  pub name : String
  pub provider : String
  pub base_url : String
  pub primary_model : String
  pub guardrail_model : String
  pub helper_model : String
  pub timeout_seconds : ℤ
  pub temperature : ℤ
  pub max_tokens : ℤ
  pub json_mode : Option Bool
  pub structured_output : Option Bool
  pub enable_guardrails : Option Bool
  pub enable_helper_model : Option Bool
  pub connection_metadata : Raw

pub record ExecuteRunInput : Type 0 where
  pub cycle_id : Option String
  pub agent_namespace : Option String
  pub prompt : String
  pub system_prompt : String
  pub input_json : Raw
  pub memory_note : String

pub record ExecuteRunResult : Type 0 where
  pub run_id : String
  pub run_type : String
  pub execution_mode : String
  pub status : String
  pub cycle_id : Option String
  pub memory_snapshot_ref : String
  pub deterministic_summary : Raw
  pub llm_summary : Raw
  pub guardrail_summary : Raw
  pub guardrail_status : String
  pub artifacts : List Artifact
  pub comparison : Option Comparison

pub record MemoryContext : Type 0 where
  pub prior_cycle_summaries : List String
  pub carry_forward_risks : List String
  pub unresolved_gaps : List String
  pub backlog_items : List String
  pub reviewer_notes : List String

pub record MemoryWriteInput : Type 0 where
  pub note : String
  pub prior_cycle_summaries : List String
  pub carry_forward_risks : List String
  pub unresolved_gaps : List String
  pub backlog_items : List String
  pub reviewer_notes : List String

pub record InferenceRequest : Type 0 where
  pub provider : String
  pub base_url : String
  pub prompt : String
  pub system_prompt : String
  pub input_json : Raw
  pub primary_model : String
  pub guardrail_model : String
  pub helper_model : String
  pub temperature : ℤ
  pub max_tokens : ℤ
  pub expect_json : Bool
  pub enable_guardrails : Bool
  pub enable_helper_model : Bool
  pub helper_requested : Bool
  pub primary_timeout_seconds : ℤ
  pub guardrail_timeout_seconds : ℤ
  pub helper_timeout_seconds : ℤ
  pub connection_meta : Raw

pub record InferenceResponse : Type 0 where
  pub primary_output : Raw
  pub guardrail_output : Raw
  pub guardrail : Raw
  pub guardrail_status : String
  pub guardrail_score : Option ℤ
  pub helper_output : Raw
  pub primary_text : String
  pub guardrail_text : String
  pub helper_text : String
  pub latency_ms : ℕ
  pub model_tag : String
  pub guardrail_tag : String
  pub helper_tag : String
