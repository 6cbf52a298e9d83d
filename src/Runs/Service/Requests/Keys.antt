-- ===== src/Runs/Service/Requests/Keys.antt =====
-- No two cycles of a run have the same key.
use clawbot_server.Base.{ap, String, false, List, [], ◌∷◌, ◌≡◌, refl, ◌==◌, Bool-cases, inl, inr}
use clawbot_server.Runs.Types.{Cycle}
use clawbot_server.Runs.Store.{World, Env}
use clawbot_server.Runs.Store.Steps.{Preorder}
use clawbot_server.Runs.Repository.{replace_by}
use clawbot_server.Runs.Repository.Cycles.{has_key}
use clawbot_server.Runs.Repository.Tables.{cycle_origin, Allows}
use clawbot_server.Runs.Service.{DependencyConfig}
use clawbot_server.Runs.Service.Requests.{History, begun, served}
use clawbot_server.Runs.Service.Requests.Tables.{Keeps-serve}

-- No key stands twice among the cycles of one run.
abbrev pub HasDistinctKeys : List Cycle → Type 0
HasDistinctKeys [] = Unit
HasDistinctKeys (row ∷ rows) =
    (has_key row.run_id row.cycle_key rows ≡ false) × HasDistinctKeys rows

module _ (id : String) (change : Cycle → Cycle)
    (same : (row : Cycle) → cycle_origin (change row) ≡ cycle_origin row) where
  has_key-replace_by :
      (run key : String) (rows : List Cycle)
      → has_key run key (replace_by (λ cycle. cycle.id) id change rows) ≡ has_key run key rows
  has_key-replace_by run key [] = refl
  has_key-replace_by run key (row ∷ rows) = elim (Bool-cases (row.id == id)) [
    | inl found ↦
        rw
          (
            found,
            ap (λ o. o.1) (same row),
            ap (λ o. o.2) (same row),
            has_key-replace_by run key rows,
          )
          refl
    | inr other ↦ rw (other, has_key-replace_by run key rows) refl
  ]

  HasDistinctKeys-replace_by :
      (rows : List Cycle)
      → HasDistinctKeys rows
      → HasDistinctKeys (replace_by (λ cycle. cycle.id) id change rows)
  HasDistinctKeys-replace_by [] h = tt
  HasDistinctKeys-replace_by (row ∷ rows) (fresh, h) = elim (Bool-cases (row.id == id)) [
    | inl found ↦ rw found (
      rw
          (
            ap (λ o. o.1) (same row),
            ap (λ o. o.2) (same row),
            has_key-replace_by row.run_id row.cycle_key rows,
          )
          fresh,
      HasDistinctKeys-replace_by rows h,
    )
    | inr other ↦ rw other (
      rw (has_key-replace_by row.run_id row.cycle_key rows) fresh,
      HasDistinctKeys-replace_by rows h,
    )
  ]

abbrev distinct_keys : Preorder
distinct_keys = record {
  relates = λ before after. HasDistinctKeys before.cycles → HasDistinctKeys after.cycles;
  reflexive = λ db h. h;
  transitive = λ a b c f g h. g (f h);
}

Allows-distinct_keys : (env : Env) → Allows env distinct_keys
Allows-distinct_keys env = record {
  policy = record { decision_added = λ db row h. h; event_added = λ db row e h. h };
  run_added = λ db row h. h;
  run_changed = λ db id change same h. h;
  cycle_added = λ db row fresh h. (fresh, h);
  cycle_changed = λ db id change same h. HasDistinctKeys-replace_by id change same db.cycles h;
  artifact_added = λ db row h. h;
  comparisons_set = λ db rows h. h;
  profiles_set = λ db rows h. h;
  review_added = λ db row h. h;
  audit_added = λ db row h. h;
}

-- No history of requests gives two cycles of a run the same key, if none had it at the start.
pub History-HasDistinctKeys :
    (env : Env) (deps : DependencyConfig) {start now : World}
    → HasDistinctKeys start.db.cycles
    → History env deps start now
    → HasDistinctKeys now.db.cycles
History-HasDistinctKeys env deps h begun = h
History-HasDistinctKeys env deps h (served {w} actor request earlier) =
    (Keeps-serve env deps distinct_keys (Allows-distinct_keys env) actor request).at w
      (History-HasDistinctKeys env deps h earlier)
