-- ===== src/Runs/Types.antt =====
-- Runs and cycles, with the inputs that create and change them: the structs of internal/platform/runs/types.go. A time is a number of nanoseconds, a pointer
-- an option, and a `float64` is counted in thousandths.
pub mod Governance
pub mod Execution
use clawbot_server.Base.{ℕ, String, Bool, Option, List}
use clawbot_server.Base.Int.{ℤ}
use clawbot_server.Json.{Raw}

pub record MemoryNamespace : Type 0 where
  pub repo_namespace : String
  pub run_namespace : String
  pub cycle_namespace : String
  pub agent_namespace : String

pub record Run : Type 0 where
  pub id : String
  pub name : String
  pub description : String
  pub status : String
  pub scenario_type : String
  pub run_type : String
  pub execution_mode : String
  pub execution_ring : String
  pub guardrail_status : String
  pub repo : String
  pub domain : String
  pub dataset_refs : List String
  pub prompt_pack_version : String
  pub rule_pack_version : String
  pub model_profile : String
  pub guardrail_profile : String
  pub memory_namespace : MemoryNamespace
  pub requested_by : String
  pub created_by : String
  pub created_at : ℕ
  pub updated_at : ℕ
  pub started_at : Option ℕ
  pub finished_at : Option ℕ
  pub completed_at : Option ℕ
  pub artifact_bundle_refs : List String
  pub memory_snapshot_refs : List String
  pub review_metadata_json : Raw
  pub notes : String
  pub metadata_json : Raw

pub record CreateInput : Type 0 where
  pub name : String
  pub description : String
  pub status : String
  pub scenario_type : String
  pub run_type : String
  pub execution_mode : String
  pub execution_ring : String
  pub guardrail_status : String
  pub repo : String
  pub domain : String
  pub dataset_refs : List String
  pub prompt_pack_version : String
  pub rule_pack_version : String
  pub model_profile : String
  pub guardrail_profile : String
  pub memory_namespace : MemoryNamespace
  pub requested_by : String
  pub created_by : String
  pub started_at : Option ℕ
  pub finished_at : Option ℕ
  pub artifact_bundle_refs : List String
  pub memory_snapshot_refs : List String
  pub review_metadata_json : Raw
  pub notes : String
  pub metadata_json : Raw

pub record UpdateInput : Type 0 where
  pub name : Option String
  pub description : Option String
  pub status : Option String
  pub scenario_type : Option String
  pub run_type : Option String
  pub execution_mode : Option String
  pub execution_ring : Option String
  pub guardrail_status : Option String
  pub repo : Option String
  pub domain : Option String
  pub dataset_refs : Option (List String)
  pub prompt_pack_version : Option String
  pub rule_pack_version : Option String
  pub model_profile : Option String
  pub guardrail_profile : Option String
  pub memory_namespace : Option MemoryNamespace
  pub requested_by : Option String
  pub started_at : Option ℕ
  pub finished_at : Option ℕ
  pub completed_at : Option ℕ
  pub artifact_bundle_refs : Option (List String)
  pub memory_snapshot_refs : Option (List String)
  pub review_metadata_json : Option Raw
  pub notes : Option String
  pub metadata_json : Option Raw

pub record Cycle : Type 0 where
  pub id : String
  pub run_id : String
  pub cycle_key : String
  pub focus : String
  pub objective : String
  pub detector_pack : String
  pub execution_ring : String
  pub guardrail_status : String
  pub summary_ref : String
  pub carry_forward_summary_ref : String
  pub memory_snapshot_ref : String
  pub status : String
  pub started_at : Option ℕ
  pub finished_at : Option ℕ
  pub metadata_json : Raw
  pub created_at : ℕ
  pub updated_at : ℕ

pub record CreateCycleInput : Type 0 where
  pub cycle_key : String
  pub focus : String
  pub objective : String
  pub detector_pack : String
  pub execution_ring : String
  pub summary_ref : String
  pub carry_forward_summary_ref : String
  pub status : String
  pub metadata_json : Raw

pub record UpdateCycleInput : Type 0 where
  pub focus : Option String
  pub objective : Option String
  pub detector_pack : Option String
  pub execution_ring : Option String
  pub guardrail_status : Option String
  pub summary_ref : Option String
  pub carry_forward_summary_ref : Option String
  pub status : Option String
  pub started_at : Option ℕ
  pub finished_at : Option ℕ
  pub metadata_json : Option Raw
  pub memory_note : Option String
  pub agent_namespace : Option String
