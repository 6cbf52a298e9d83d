-- ===== src/Runs/Service/Requests/Rows.antt =====
-- No request removes a row, and some fields of a row never change.
use clawbot_server.Base.{String, List, [], ◌∷◌, map, ◌≡◌, refl, ◌==◌, Bool-cases, inl, inr}
use clawbot_server.Runs.Store.{World, Db, Env}
use clawbot_server.Runs.Store.Steps.{Preorder}
use clawbot_server.Runs.Repository.{replace_by}
use clawbot_server.Runs.Repository.Tables.{run_origin, cycle_origin, Allows}
use clawbot_server.Runs.Service.{DependencyConfig}
use clawbot_server.Runs.Service.Requests.{History, begun, served, serve}
use clawbot_server.Runs.Service.Requests.Tables.{Keeps-serve}
use clawbot_server.Runs.Service.Requests.Logs.{Extends, Extends-same, Extends-one, Extends-both}

-- What a change of rows keeps of each, it keeps of all.
map-replace_by :
    {A B : Type 0} (origin : A → B) (id_of : A → String) (id : String) (change : A → A)
    (rows : List A)
    → ((row : A) → origin (change row) ≡ origin row)
    → map origin (replace_by id_of id change rows) ≡ map origin rows
map-replace_by origin id_of id change [] same = refl
map-replace_by origin id_of id change (row ∷ rows) same = elim (Bool-cases (id_of row == id)) [
  | inl found ↦ rw (found, same row, map-replace_by origin id_of id change rows same) refl
  | inr other ↦ rw (other, map-replace_by origin id_of id change rows same) refl
]

Extends-equal : {A : Type 0} (xs ys : List A) → ys ≡ xs → Extends xs ys
Extends-equal xs ys e = ([], e)

-- The rows before are still there, in their order and with the same origin, and new ones come in
-- front.
abbrev pub KeepsRows : Db → Db → Type 0
KeepsRows before after =
    Extends (map run_origin before.runs) (map run_origin after.runs)
    × Extends (map cycle_origin before.cycles) (map cycle_origin after.cycles)
    × Extends before.artifacts after.artifacts

same_rows : (db : Db) → KeepsRows db db
same_rows db = (
  Extends-same (map run_origin db.runs),
  Extends-same (map cycle_origin db.cycles),
  Extends-same db.artifacts,
)

abbrev kept_rows : Preorder
kept_rows = record {
  relates = KeepsRows;
  reflexive = same_rows;
  transitive = λ a b c (r, y, t) (r', y', t'). (
    Extends-both (map run_origin a.runs) (map run_origin b.runs) (map run_origin c.runs) r r',
    Extends-both (map cycle_origin a.cycles) (map cycle_origin b.cycles) (map cycle_origin c.cycles)
        y y',
    Extends-both a.artifacts b.artifacts c.artifacts t t',
  );
}

Allows-kept_rows : (env : Env) → Allows env kept_rows
Allows-kept_rows env = record {
  policy = record {
    decision_added = λ db row. same_rows db;
    event_added = λ db row h. same_rows db;
  };
  run_added = λ db row. (
    Extends-one (run_origin row) (map run_origin db.runs),
    Extends-same (map cycle_origin db.cycles),
    Extends-same db.artifacts,
  );
  run_changed = λ db id change same. (
    Extends-equal _ _ (map-replace_by run_origin (λ run. run.id) id change db.runs same),
    Extends-same (map cycle_origin db.cycles),
    Extends-same db.artifacts,
  );
  cycle_added = λ db row fresh. (
    Extends-same (map run_origin db.runs),
    Extends-one (cycle_origin row) (map cycle_origin db.cycles),
    Extends-same db.artifacts,
  );
  cycle_changed = λ db id change same. (
    Extends-same (map run_origin db.runs),
    Extends-equal _ _ (map-replace_by cycle_origin (λ cycle. cycle.id) id change db.cycles same),
    Extends-same db.artifacts,
  );
  artifact_added = λ db row. (
    Extends-same (map run_origin db.runs),
    Extends-same (map cycle_origin db.cycles),
    Extends-one row db.artifacts,
  );
  comparisons_set = λ db rows. same_rows db;
  profiles_set = λ db rows. same_rows db;
  review_added = λ db row. same_rows db;
  audit_added = λ db row. same_rows db;
}

-- Over any history of requests no run, no cycle and no artifact goes; a run keeps its identifier, its
-- creator and its time of creation, a cycle its identifier, its run, its key and its time of
-- creation, and an artifact all its fields.
pub History-KeepsRows :
    (env : Env) (deps : DependencyConfig) {start now : World}
    → History env deps start now
    → KeepsRows start.db now.db
History-KeepsRows env deps {start} begun = same_rows start.db
History-KeepsRows env deps {start} (served {w} actor request earlier) =
    let after = (serve env deps actor request w).1.db in
    kept_rows.transitive start.db w.db after (History-KeepsRows env deps earlier)
      ((Keeps-serve env deps kept_rows (Allows-kept_rows env) actor request).at w)
