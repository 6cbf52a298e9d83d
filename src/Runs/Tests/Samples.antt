-- ===== src/Runs/Tests/Samples.antt =====
-- Sample values for the tests of the runs platform.
use clawbot_server.Base.{String, true, [], ◌∷◌, none, some}
use clawbot_server.Base.Int.{pos}
use clawbot_server.Json.{empty, braces}
use clawbot_server.Runs.Types.{
  MemoryNamespace, Run, CreateInput, UpdateInput, Cycle, UpdateCycleInput,
}
use clawbot_server.Runs.Types.Governance.{AttachArtifactInput}
use clawbot_server.Runs.Types.Execution.{ModelProfile}

abbrev pub blank_namespace : MemoryNamespace
blank_namespace = record {
  repo_namespace = "";
  run_namespace = "";
  cycle_namespace = "";
  agent_namespace = "";
}

abbrev pub full_namespace : MemoryNamespace
full_namespace = record {
  repo_namespace = "ach";
  run_namespace = "run-r1";
  cycle_namespace = "";
  agent_namespace = "";
}

abbrev pub week_run : Run
week_run = record {
  id = "r1";
  name = "week";
  description = "";
  status = "running";
  scenario_type = "";
  run_type = "week_run";
  execution_mode = "dual";
  execution_ring = "ring_2";
  guardrail_status = "guardrail_disabled";
  repo = "ach";
  domain = "";
  dataset_refs = "d1" ∷ [];
  prompt_pack_version = "";
  rule_pack_version = "";
  model_profile = "local";
  guardrail_profile = "ach-guardian-default";
  memory_namespace = full_namespace;
  requested_by = "ann";
  created_by = "ann";
  created_at = 10;
  updated_at = 10;
  started_at = none;
  finished_at = none;
  completed_at = none;
  artifact_bundle_refs = [];
  memory_snapshot_refs = [];
  review_metadata_json = braces;
  notes = "";
  metadata_json = braces;
}

abbrev pub new_run : CreateInput
new_run = record {
  name = " week ";
  description = "";
  status = "";
  scenario_type = "";
  run_type = "week_run";
  execution_mode = "dual";
  execution_ring = "";
  guardrail_status = "";
  repo = "ach";
  domain = "";
  dataset_refs = "d1" ∷ " d1 " ∷ [];
  prompt_pack_version = "";
  rule_pack_version = "";
  model_profile = "local";
  guardrail_profile = "";
  memory_namespace = blank_namespace;
  requested_by = "";
  created_by = "";
  started_at = none;
  finished_at = none;
  artifact_bundle_refs = [];
  memory_snapshot_refs = [];
  review_metadata_json = empty;
  notes = "";
  metadata_json = empty;
}

-- An update that sets nothing but the status.
abbrev pub set_run_status : String → UpdateInput
set_run_status s = record {
  name = none;
  description = none;
  status = some s;
  scenario_type = none;
  run_type = none;
  execution_mode = none;
  execution_ring = none;
  guardrail_status = none;
  repo = none;
  domain = none;
  dataset_refs = none;
  prompt_pack_version = none;
  rule_pack_version = none;
  model_profile = none;
  guardrail_profile = none;
  memory_namespace = none;
  requested_by = none;
  started_at = none;
  finished_at = none;
  completed_at = none;
  artifact_bundle_refs = none;
  memory_snapshot_refs = none;
  review_metadata_json = none;
  notes = none;
  metadata_json = none;
}

abbrev pub first_day : Cycle
first_day = record {
  id = "c1";
  run_id = "r1";
  cycle_key = "day-1";
  focus = "";
  objective = "";
  detector_pack = "";
  execution_ring = "ring_1";
  guardrail_status = "guardrail_disabled";
  summary_ref = "";
  carry_forward_summary_ref = "";
  memory_snapshot_ref = "";
  status = "pending";
  started_at = none;
  finished_at = none;
  metadata_json = braces;
  created_at = 11;
  updated_at = 11;
}

-- An update that sets nothing but the status.
abbrev pub set_cycle_status : String → UpdateCycleInput
set_cycle_status s = record {
  focus = none;
  objective = none;
  detector_pack = none;
  execution_ring = none;
  guardrail_status = none;
  summary_ref = none;
  carry_forward_summary_ref = none;
  status = some s;
  started_at = none;
  finished_at = none;
  metadata_json = none;
  memory_note = none;
  agent_namespace = none;
}

abbrev pub local_profile : ModelProfile
local_profile = record {
  id = "p1";
  name = "local";
  provider = "ollama";
  base_url = "http://localhost:11434";
  primary_model = "m";
  guardrail_model = "g";
  helper_model = "";
  timeout_seconds = pos 45;
  temperature = pos 0;
  max_tokens = pos 4096;
  json_mode = true;
  structured_output = true;
  enable_guardrails = true;
  enable_helper_model = true;
  connection_metadata = braces;
  created_by = "ann";
  created_at = 1;
  updated_at = 1;
}

abbrev pub web_report : AttachArtifactInput
web_report = record {
  cycle_id = none;
  artifact_type = "report";
  uri = "https://example.org/report";
  content_type = "";
  version = "";
  checksum = "";
  metadata_json = empty;
}
