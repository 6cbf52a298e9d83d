-- ===== src/Runs/Repository.antt =====
-- What the statements of internal/platform/runs/repository.go share, and the statements on runs.
-- A statement that the database refuses for a reason that is not written out here (a connection, an
-- identifier that is no UUID, a foreign key) is one that `statement` fails.
pub mod Cycles
pub mod Results
pub mod Decisions
pub mod Ledger
pub mod Tables
use clawbot_server.Base.{
  String, Bool, true, false, not, ◌||◌, List, [], ◌∷◌, Option, none, some, ◌==◌, if◌then◌else◌,
}
use clawbot_server.Json.{Json, Raw, empty, braces, invalid, doc, obj, end, or_braces}
use clawbot_server.Text.{trim_space}
use clawbot_server.Runs.Types.{Run, CreateInput}
use clawbot_server.Runs.Failure
use clawbot_server.Runs.Failure.{Failure, Result, ok, err}
use clawbot_server.Runs.Status.{default_execution_ring_for_mode}
use clawbot_server.Runs.Namespace.{or_text, normalize_memory_namespace}
use clawbot_server.Runs.Store.{
  Db, Env, Action, pure, lift, found, ◌>>=◌, ◌>>◌, require, tables, store, statement, draw_id,
}

-- `nullableString`.
abbrev pub nullable_string : Option String → Option String
nullable_string none = none
nullable_string (some value) = if value == "" then none else some value

-- What a JSONB column makes of a text that `defaultRaw` has filled in: a text that does not parse is
-- refused, and an empty object is printed as `{}`.
abbrev pub jsonb : Raw → Result Raw
jsonb empty = ok braces
jsonb braces = ok braces
jsonb invalid = err Failure.storage_failed
jsonb (doc (obj end)) = ok braces
jsonb (doc j) = ok (doc j)

-- The row with an identifier, and a change of it.
module _ {A : Type 0} (id_of : A → String) where
  abbrev pub find_by : String → List A → Option A
  find_by id [] = none
  find_by id (row ∷ rows) = if id_of row == id then some row else find_by id rows

  abbrev pub replace_by : String → (A → A) → List A → List A
  replace_by id change [] = []
  replace_by id change (row ∷ rows) =
      let rest = replace_by id change rows in
      if id_of row == id then change row ∷ rest else row ∷ rest

-- `if strings.TrimSpace(value) == "" { value = fallback }`.
abbrev pub or_blank : String → String → String
or_blank value fallback = if trim_space value == "" then fallback else value

abbrev pub or_pointer {ℓ} : {A : Type ℓ} → Option A → Option A → Option A
or_pointer none other = other
or_pointer (some a) other = some a

unfoldable pub scan_run : Run → Run
scan_run row = record row {
  memory_namespace = normalize_memory_namespace row.memory_namespace row.repo row.domain row.id;
  requested_by = or_text row.requested_by row.created_by;
  finished_at = or_pointer row.finished_at row.completed_at;
  execution_ring = or_blank row.execution_ring (default_execution_ring_for_mode row.execution_mode);
  guardrail_status = or_blank row.guardrail_status "guardrail_disabled";
  review_metadata_json = or_braces row.review_metadata_json;
  metadata_json = or_braces row.metadata_json;
}

abbrev scan_runs : List Run → List Run
scan_runs [] = []
scan_runs (row ∷ rows) = scan_run row ∷ scan_runs rows

module _ (env : Env) where
  -- The rows, newest first, as the table keeps them.
  unfoldable pub list_run_rows : Action (List Run)
  list_run_rows = do statement env; db ← tables; pure (scan_runs db.runs)

  unfoldable pub get_run : String → Action Run
  get_run id = do
    statement env
    db ← tables
    row ← found (find_by (λ run. run.id) id db.runs) Failure.not_found
    pure (scan_run row)

  unfoldable pub create_run : CreateInput → Action Run
  create_run input = do
    review ← lift (jsonb input.review_metadata_json)
    metadata ← lift (jsonb input.metadata_json)
    now ← statement env
    id ← draw_id env
    db ← tables
    let row : Run = record {
      id = id;
      name = input.name;
      description = input.description;
      status = input.status;
      scenario_type = input.scenario_type;
      run_type = input.run_type;
      execution_mode = input.execution_mode;
      execution_ring = input.execution_ring;
      guardrail_status = input.guardrail_status;
      repo = input.repo;
      domain = input.domain;
      dataset_refs = input.dataset_refs;
      prompt_pack_version = input.prompt_pack_version;
      rule_pack_version = input.rule_pack_version;
      model_profile = input.model_profile;
      guardrail_profile = input.guardrail_profile;
      memory_namespace = input.memory_namespace;
      requested_by = input.requested_by;
      created_by = input.created_by;
      created_at = now;
      updated_at = now;
      started_at = input.started_at;
      finished_at = input.finished_at;
      completed_at = input.finished_at;
      artifact_bundle_refs = input.artifact_bundle_refs;
      memory_snapshot_refs = input.memory_snapshot_refs;
      review_metadata_json = review;
      notes = input.notes;
      metadata_json = metadata;
    }
    store (record db { runs = row ∷ db.runs })
    pure (scan_run row)

  -- `completed_at` is set to the same value as `finished_at`; who created the run and when stays.
  unfoldable pub update_run : Run → Action Run
  update_run item = do
    review ← lift (jsonb item.review_metadata_json)
    metadata ← lift (jsonb item.metadata_json)
    now ← statement env
    db ← tables
    old ← found (find_by (λ run. run.id) item.id db.runs) Failure.no_rows
    let change : Run → Run = λ row. record item {
      id = row.id;
      created_by = row.created_by;
      created_at = row.created_at;
      updated_at = now;
      completed_at = item.finished_at;
      review_metadata_json = review;
      metadata_json = metadata;
    }
    store (record db { runs = replace_by (λ run. run.id) item.id change db.runs })
    pure (scan_run (change old))
