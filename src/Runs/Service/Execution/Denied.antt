-- ===== src/Runs/Service/Execution/Denied.antt =====
-- What an execution that the policy denies leaves in the tables.
use clawbot_server.Base.{
  String, ◌&&◌, List, [], ◌∷◌, Option, none, some, ◌≡◌, refl, sym, ◌∙◌, ap, ◌==◌, Bool-cases, inl,
  inr, eq_of_test, arith, subst,
}
use clawbot_server.Runs.Types.{Run, Cycle}
use clawbot_server.Runs.Store.{Db, Env}
use clawbot_server.Runs.Store.Quiet.{quiet_rules}
use clawbot_server.Runs.Store.Outcomes.{
  Ensures, Anything, Ensures-bind, Ensures-pure, Ensures-after, Ensures-given, Ensures-quiet,
  Ensures-tables, Ensures-found, Ensures-store,
}
use clawbot_server.Runs.Repository.{find_by, replace_by, get_run, scan_run}
use clawbot_server.Runs.Repository.Cycles.{find_cycle, get_cycle_row, update_cycle_row, scan_cycle}

-- The row that is found by an identifier has it, and a change that keeps the identifiers is found
-- again by it.
module _ {A : Type 0} (id_of : A → String) where
  pub find_by_id :
      (id : String) (rows : List A) (row : A) → find_by id_of id rows ≡ some row → id_of row ≡ id
  find_by_id id [] row h = cc
  find_by_id id (r ∷ rows) row h = elim (Bool-cases (id_of r == id)) [
    | inl same ↦ cc (eq_of_test (id_of r) id same, rw same at h)
    | inr other ↦ find_by_id id rows row (rw other at h)
  ]

  pub find_by-replace_by :
      (id : String) (change : A → A) (rows : List A) (row : A)
      → ((r : A) → id_of (change r) ≡ id_of r)
      → find_by id_of id rows ≡ some row
      → find_by id_of id (replace_by id_of id change rows) ≡ some (change row)
  find_by-replace_by id change [] row kept h = cc
  find_by-replace_by id change (r ∷ rows) row kept h = elim (Bool-cases (id_of r == id)) [
    | inl same ↦ rw (same, kept r, same) (cc (rw same at h))
    | inr other ↦ rw (other, other) (find_by-replace_by id change rows row kept (rw other at h))
  ]

find_cycle_same :
    (run id : String) (rows : List Cycle) (row : Cycle)
    → find_cycle run id rows ≡ some row
    → (row.run_id ≡ run) × (row.id ≡ id)
find_cycle_same run id [] row h = cc
find_cycle_same run id (r ∷ rows) row h = elim (Bool-cases (r.run_id == run && r.id == id)) [
  | inl same ↦
      let equal : r ≡ row = cc (rw same at h) in
      subst (λ c. (c.run_id ≡ run) × (c.id ≡ id)) equal
        (eq_of_test r.run_id run (ground arith), eq_of_test r.id id (ground arith))
  | inr other ↦ find_cycle_same run id rows row (rw other at h)
]

-- The run with this identifier is stored with this status; the same for a cycle.
abbrev pub RunHas : String → String → Db → Type 0
RunHas id status db =
    (row : Run) × (find_by (λ run. run.id) id db.runs ≡ some row) × (row.status ≡ status)

abbrev pub CycleHas : String → String → Db → Type 0
CycleHas id status db =
    (row : Cycle) × (find_by (λ cycle. cycle.id) id db.cycles ≡ some row) × (row.status ≡ status)

module _ (env : Env) where
  pub get_run-id : (id : String) → Ensures Anything (get_run env id) (λ run db. run.id ≡ id)
  unfolding get_run scan_run
  get_run-id id = Ensures-after _ _ λ now. Ensures-after _ _ λ db.
      Ensures-bind _ _ (Ensures-found _ _) λ row.
        Ensures-given
          λ (u, same). Ensures-pure _ (λ after h. find_by_id (λ run. run.id) id db.runs row same)

  pub get_cycle_row-id :
      {P : Db → Type 0} (run id : String)
      → Ensures P
          (get_cycle_row env run id)
          (λ cycle db. P db × (cycle.run_id ≡ run) × (cycle.id ≡ id))
  unfolding get_cycle_row scan_cycle
  get_cycle_row-id {P} run id =
      Ensures-bind _ _ (Ensures-quiet {P = P} _ (search quiet_rules)) λ now.
        Ensures-bind _ _ (Ensures-quiet {P = P} _ (search quiet_rules)) λ db.
          Ensures-bind _ _ (Ensures-found _ _) λ row. Ensures-pure _ (λ after (p, same).
            let (in_run, named) = find_cycle_same run id db.cycles row same in (p, in_run, named))

  pub update_cycle_row-CycleHas :
      (run status : String) (item : Cycle)
      → Ensures
          (RunHas run status)
          (update_cycle_row env item)
          (λ cycle db. RunHas run status db × CycleHas item.id item.status db)
  unfolding update_cycle_row
  update_cycle_row-CycleHas run status item =
      Ensures-bind _ _ (Ensures-quiet {P = RunHas run status} _ (search quiet_rules)) λ metadata.
        Ensures-bind _ _ (Ensures-quiet {P = RunHas run status} _ (search quiet_rules)) λ now.
          Ensures-bind _ _ (Ensures-tables {P = RunHas run status}) λ db. Ensures-given λ stored.
            Ensures-bind _ _ (Ensures-found {P = Anything} _ _) λ old. Ensures-given λ (u, same).
              Ensures-bind _ _ (Ensures-store _) λ v. Ensures-pure _ (λ after equal. (
                subst (RunHas run status) (sym equal) stored,
                (
                  _,
                  ap (λ t. find_by (λ cycle. cycle.id) item.id t.cycles) equal
                      ∙ find_by-replace_by (λ cycle. cycle.id) item.id _ db.cycles old (λ r. refl)
                          same,
                  refl,
                ),
              ))

-- What is stored of the cycle of an execution, if there is one.
abbrev pub GivenCycleHas : Option Cycle → String → Db → Type 0
GivenCycleHas none status db = Unit {0}
GivenCycleHas (some cycle) status db = CycleHas cycle.id status db
