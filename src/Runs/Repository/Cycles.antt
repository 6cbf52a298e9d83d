-- ===== src/Runs/Repository/Cycles.antt =====
-- The statements on cycles: `CreateCycle`, `GetCycle`, `UpdateCycle` and `scanCycle` of
-- internal/platform/runs/repository.go.
use clawbot_server.Base.{
  String, Bool, false, not, ◌&&◌, ◌||◌, List, [], ◌∷◌, Option, none, some, ◌==◌, if◌then◌else◌,
}
use clawbot_server.Json.{or_braces}
use clawbot_server.Runs.Types.{Cycle, CreateCycleInput}
use clawbot_server.Runs.Failure.{Failure}
use clawbot_server.Runs.Store.{
  Env, Action, pure, lift, found, ◌>>=◌, ◌>>◌, require, tables, store, statement, draw_id,
}
use clawbot_server.Runs.Repository.{jsonb, or_blank, find_by, replace_by}

unfoldable pub scan_cycle : Cycle → Cycle
scan_cycle row = record row {
  metadata_json = or_braces row.metadata_json;
  execution_ring = or_blank row.execution_ring "ring_1";
  guardrail_status = or_blank row.guardrail_status "guardrail_disabled";
}

-- `UNIQUE (run_id, cycle_key)` of internal/db/migrations/0002_ach_control_plane_contracts.up.sql.
abbrev pub has_key : String → String → List Cycle → Bool
has_key run key [] = false
has_key run key (row ∷ rows) = (row.run_id == run && row.cycle_key == key) || has_key run key rows

-- `WHERE run_id = $1 AND id = $2`.
abbrev pub find_cycle : String → String → List Cycle → Option Cycle
find_cycle run id [] = none
find_cycle run id (row ∷ rows) =
    if row.run_id == run && row.id == id then some row else find_cycle run id rows

module _ (env : Env) where
  -- A second cycle of the run with the same key is refused by the constraint UNIQUE (run_id, cycle_key)
  -- of internal/db/migrations/0002_ach_control_plane_contracts.up.sql.
  unfoldable pub create_cycle_row : String → CreateCycleInput → Action Cycle
  create_cycle_row run input = do
    metadata ← lift (jsonb input.metadata_json)
    now ← statement env
    id ← draw_id env
    db ← tables
    require (not (has_key run input.cycle_key db.cycles)) Failure.unique_violation
    let row : Cycle = record {
      id = id;
      run_id = run;
      cycle_key = input.cycle_key;
      focus = input.focus;
      objective = input.objective;
      detector_pack = input.detector_pack;
      execution_ring = input.execution_ring;
      guardrail_status = "guardrail_disabled";
      summary_ref = input.summary_ref;
      carry_forward_summary_ref = input.carry_forward_summary_ref;
      memory_snapshot_ref = "";
      status = input.status;
      started_at = none;
      finished_at = none;
      metadata_json = metadata;
      created_at = now;
      updated_at = now;
    }
    store (record db { cycles = row ∷ db.cycles })
    pure (scan_cycle row)

  unfoldable pub get_cycle_row : String → String → Action Cycle
  get_cycle_row run id = do
    statement env
    db ← tables
    row ← found (find_cycle run id db.cycles) Failure.not_found
    pure (scan_cycle row)

  unfoldable pub update_cycle_row : Cycle → Action Cycle
  update_cycle_row item = do
    metadata ← lift (jsonb item.metadata_json)
    now ← statement env
    db ← tables
    old ← found (find_by (λ cycle. cycle.id) item.id db.cycles) Failure.no_rows
    let change : Cycle → Cycle = λ row. record item {
      id = row.id;
      run_id = row.run_id;
      cycle_key = row.cycle_key;
      created_at = row.created_at;
      updated_at = now;
      metadata_json = metadata;
    }
    store (record db { cycles = replace_by (λ cycle. cycle.id) item.id change db.cycles })
    pure (scan_cycle (change old))
