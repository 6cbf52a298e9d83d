-- ===== src/Runs/Repository/Results.antt =====
-- The statements on artifacts, comparisons and model profiles of
-- internal/platform/runs/repository.go.
use clawbot_server.Base.{
  String, true, ◌||◌, List, [], ◌∷◌, Option, none, some, ◌==◌, if◌then◌else◌, or_else,
}
use clawbot_server.Json.{or_braces}
use clawbot_server.Runs.Types.Governance.{
  Artifact, AttachArtifactInput, Comparison, UpsertComparisonInput,
}
use clawbot_server.Runs.Types.Execution.{ModelProfile, RegisterModelProfileInput}
use clawbot_server.Runs.Failure.{Failure}
use clawbot_server.Runs.Store.{
  Env, Action, pure, lift, found, ◌>>=◌, ◌>>◌, tables, store, statement, draw_id,
}
use clawbot_server.Runs.Repository.{jsonb, nullable_string, find_by, replace_by}

unfoldable pub scan_artifact : Artifact → Artifact
scan_artifact row = record row { metadata_json = or_braces row.metadata_json }

unfoldable pub scan_comparison : Comparison → Comparison
scan_comparison row = record row {
  deterministic_summary = or_braces row.deterministic_summary;
  llm_summary = or_braces row.llm_summary;
  guardrail_summary = or_braces row.guardrail_summary;
  deltas = or_braces row.deltas;
  final_output = or_braces row.final_output;
}

unfoldable pub scan_model_profile : ModelProfile → ModelProfile
scan_model_profile row = record row { connection_metadata = or_braces row.connection_metadata }

-- `WHERE run_id = $1`.
abbrev pub artifacts_of : String → List Artifact → List Artifact
artifacts_of run [] = []
artifacts_of run (row ∷ rows) =
    let rest = artifacts_of run rows in if row.run_id == run then scan_artifact row ∷ rest else rest

-- `WHERE id::text = $1 OR name = $1 LIMIT 1`, when one row at most matches.
abbrev pub find_profile : String → List ModelProfile → Option ModelProfile
find_profile key [] = none
find_profile key (row ∷ rows) =
    if row.id == key || row.name == key then some row else find_profile key rows

-- The inserted row, or the update of the row that a conflict finds.
abbrev upserted : {A : Type 0} → Option A → A → (A → A) → A
upserted none row change = row
upserted (some old) row change = change old

abbrev upsert_by :
    {A : Type 0} (id_of : A → String) → String → Option A → A → (A → A) → List A → List A
upsert_by id_of key none row change rows = row ∷ rows
upsert_by id_of key (some old) row change rows = replace_by id_of key change rows

module _ (env : Env) where
  unfoldable pub create_artifact : String → AttachArtifactInput → Action Artifact
  create_artifact run input = do
    metadata ← lift (jsonb input.metadata_json)
    now ← statement env
    id ← draw_id env
    db ← tables
    let row : Artifact = record {
      id = id;
      run_id = run;
      cycle_id = nullable_string input.cycle_id;
      artifact_type = input.artifact_type;
      uri = input.uri;
      content_type = input.content_type;
      version = input.version;
      checksum = input.checksum;
      metadata_json = metadata;
      created_at = now;
    }
    store (record db { artifacts = row ∷ db.artifacts })
    pure (scan_artifact row)

  unfoldable pub list_artifact_rows : String → Action (List Artifact)
  list_artifact_rows run = do statement env; db ← tables; pure (artifacts_of run db.artifacts)

  unfoldable pub upsert_comparison_row : String → UpsertComparisonInput → Action Comparison
  upsert_comparison_row run input = do
    deterministic ← lift (jsonb input.deterministic_summary)
    llm ← lift (jsonb input.llm_summary)
    guardrail ← lift (jsonb input.guardrail_summary)
    deltas ← lift (jsonb input.deltas)
    final ← lift (jsonb input.final_output)
    now ← statement env
    id ← draw_id env
    db ← tables
    let row : Comparison = record {
      id = id;
      run_id = run;
      cycle_id = nullable_string input.cycle_id;
      deterministic_summary = deterministic;
      llm_summary = llm;
      guardrail_summary = guardrail;
      deltas = deltas;
      review_status = input.review_status;
      reviewer_notes = input.reviewer_notes;
      final_disposition = input.final_disposition;
      final_output = final;
      created_at = now;
      updated_at = now;
    }
    let change : Comparison → Comparison =
        λ old. record row { id = old.id; created_at = old.created_at }
    let old : Option Comparison = find_by (λ c. c.run_id) run db.comparisons
    store (record db { comparisons = upsert_by (λ c. c.run_id) run old row change db.comparisons })
    pure (scan_comparison (upserted old row change))

  unfoldable pub get_comparison_row : String → Action Comparison
  get_comparison_row run = do
    statement env
    db ← tables
    row ← found (find_by (λ c. c.run_id) run db.comparisons) Failure.not_found
    pure (scan_comparison row)

  -- On a conflict the name, the creator and the time of creation stay.
  unfoldable pub register_model_profile_row :
      RegisterModelProfileInput → String → Action ModelProfile
  register_model_profile_row input actor = do
    metadata ← lift (jsonb input.connection_metadata)
    now ← statement env
    id ← draw_id env
    db ← tables
    let row : ModelProfile = record {
      id = id;
      name = input.name;
      provider = input.provider;
      base_url = input.base_url;
      primary_model = input.primary_model;
      guardrail_model = input.guardrail_model;
      helper_model = input.helper_model;
      timeout_seconds = input.timeout_seconds;
      temperature = input.temperature;
      max_tokens = input.max_tokens;
      json_mode = or_else input.json_mode true;
      structured_output = or_else input.structured_output true;
      enable_guardrails = or_else input.enable_guardrails true;
      enable_helper_model = or_else input.enable_helper_model true;
      connection_metadata = metadata;
      created_by = actor;
      created_at = now;
      updated_at = now;
    }
    let change : ModelProfile → ModelProfile =
        λ old. record row { id = old.id; created_by = old.created_by; created_at = old.created_at }
    let old : Option ModelProfile = find_by (λ p. p.name) input.name db.profiles
    store (record db { profiles = upsert_by (λ p. p.name) input.name old row change db.profiles })
    pure (scan_model_profile (upserted old row change))

  unfoldable pub get_model_profile_row : String → Action ModelProfile
  get_model_profile_row key = do
    statement env
    db ← tables
    row ← found (find_profile key db.profiles) Failure.not_found
    pure (scan_model_profile row)
