-- ===== src/Runs/Service/Execute/Steps.antt =====
-- The statuses that the steps of an execution leave.
use clawbot_server.Base.{
  String, Bool, true, false, Option, none, some, ◌≡◌, refl, ap, subst, ◌∙◌, ℕ, inl, inr,
}
use clawbot_server.Runs.Types.{Run, Cycle}
use clawbot_server.Runs.Types.Execution.{ModelProfile, ExecuteRunInput, MemoryContext}
use clawbot_server.Runs.Config.{DependencyConfig}
use clawbot_server.Runs.Status.{is_valid_guardrail_status}
use clawbot_server.Runs.Store.{Db, Env, Action}
use clawbot_server.Runs.Store.Outcomes.{
  Ensures, Anything, Ensures-bind, Ensures-pure, Ensures-after, Ensures-given, Ensures-found,
  Ensures-store,
}
use clawbot_server.Runs.Repository.{find_by, update_run, scan_run}
use clawbot_server.Runs.Service.Guards.Known.{IsKnown, resolve_guardrail_status-IsKnown}
use clawbot_server.Runs.Service.Execution.Denied.{
  RunHas, CycleHas, find_by_id, find_by-replace_by, update_cycle_row-CycleHas,
}
use clawbot_server.Runs.Service.Execution.Resolved.{IsResolved}
use clawbot_server.Runs.Service.Phases.{Produced, run_deterministic}
use clawbot_server.Runs.Service.Inference.{run_inference}
use clawbot_server.Runs.Service.Finish.{
  final_run_status, final_cycle_status, finish_cycle, finish_run,
}
use clawbot_server.Runs.Service.Execute.Stays.{rows_stay}
use clawbot_server.Runs.Service.Execute.{start_cycle}

module _ (env : Env) where
  pub run_deterministic-status :
      (made : Bool) (run : Run) (cycle : Option Cycle) (cycle_id : Option String)
      (memory : MemoryContext) (input : ExecuteRunInput)
      → Ensures Anything
          (run_deterministic env made run cycle cycle_id memory input)
          (λ produced db. IsKnown produced.guardrail_status)
  unfolding run_deterministic is_valid_guardrail_status
  run_deterministic-status false run cycle cycle_id memory input = Ensures-pure _ (λ db h. refl)
  run_deterministic-status true run cycle cycle_id memory input =
      Ensures-after _ _ λ artifact. Ensures-pure _ (λ db h. refl)

  pub run_inference-status :
      (deps : DependencyConfig) (made : Bool) (run : Run) (cycle : Option Cycle)
      (cycle_id : Option String) (memory : MemoryContext) (input : ExecuteRunInput)
      (given : Option ModelProfile) (first : Produced)
      → IsKnown first.guardrail_status
      → Ensures Anything
          (run_inference env deps made run cycle cycle_id memory input given first)
          (λ produced db. IsKnown produced.guardrail_status)
  unfolding run_inference
  run_inference-status deps false run cycle cycle_id memory input given first known =
      Ensures-pure _ (λ db h. known)
  run_inference-status deps true run cycle cycle_id memory input given first known =
      Ensures-after _ _ λ profile. Ensures-after _ _ λ response. Ensures-after _ _ λ summary.
        Ensures-after _ _ λ output.
          Ensures-after _ _
            λ artifacts. Ensures-pure _ (λ db h. resolve_guardrail_status-IsKnown _ _ _)

-- The cycle and the identifier belong together.
abbrev pub Matches : Option Cycle → Option String → Type 0
Matches none none = Unit {0}
Matches none (some id) = ⊥
Matches (some cycle) none = ⊥
Matches (some cycle) (some id) = cycle.id ≡ id

-- The cycle with the identifier, if there is one, is stored with the status.
abbrev pub CycleEnds : Option String → String → Db → Type 0
CycleEnds none status db = Unit {0}
CycleEnds (some id) status db = CycleHas id status db

pub IsResolved-Matches :
    (run : Run) (cycle : Option Cycle) (id : Option String)
    → IsResolved run (cycle, id)
    → Matches cycle id
IsResolved-Matches run cycle id (inl (week, (own, same, named, in_run))) = rw (same, named) refl
IsResolved-Matches run cycle id (inr (other, absent, unnamed)) = rw (absent, unnamed) tt

pub RunHas-stays :
    (id status : String) (before after : Db)
    → rows_stay.relates before after
    → RunHas id status before
    → RunHas id status after
RunHas-stays id status before after (runs, cycles) (row, found, has) =
    (row, ap (find_by (λ run. run.id) id) runs ∙ found, has)

pub CycleEnds-stays :
    (id : Option String) (status : String) (before after : Db)
    → rows_stay.relates before after
    → CycleEnds id status before
    → CycleEnds id status after
CycleEnds-stays none status before after same h = tt
CycleEnds-stays (some id) status before after (runs, cycles) (row, found, has) =
    (row, ap (find_by (λ cycle. cycle.id) id) cycles ∙ found, has)

-- A fact that holds whatever the tables is a hypothesis of what follows.
pub Ensures-and :
    {X : Type 0} {P : Db → Type 0} {A : Type 0} {m : Action A} {Q : A → Db → Type 0}
    → (X → Ensures P m Q)
    → Ensures (λ db. X × P db) m Q
Ensures-and h = record { holds = λ w (x, p) a same. (h x).holds w p a same }

-- What storing a run returns.
abbrev pub Stored : Run → Run → Type 0
Stored item run =
    (run.id ≡ item.id) × (run.status ≡ item.status) × (run.execution_mode ≡ item.execution_mode)

module _ (env : Env) where
  pub update_run-Stored :
      (item : Run)
      → Ensures Anything
          (update_run env item)
          (λ run db. Stored item run × RunHas item.id item.status db)
  unfolding update_run scan_run
  update_run-Stored item = Ensures-after _ _ λ review. Ensures-after _ _ λ metadata.
      Ensures-after _ _ λ now. Ensures-after _ _ λ db.
        Ensures-bind _ _ (Ensures-found {P = Anything} _ _) λ old. Ensures-given λ (u, same).
          Ensures-bind _ _ (Ensures-store _) λ v. Ensures-pure _ (λ after equal. (
            (find_by_id (λ run. run.id) item.id db.runs old same, refl, refl),
            (
              _,
              ap (λ t. find_by (λ run. run.id) item.id t.runs) equal
                  ∙ find_by-replace_by (λ run. run.id) item.id _ db.runs old (λ r. refl) same,
              refl,
            ),
          ))

  pub start_cycle-Matches :
      (cycle : Option Cycle) (id : Option String) (at : ℕ)
      → Matches cycle id
      → Ensures Anything (start_cycle env cycle at) (λ started db. Matches started id)
  unfolding start_cycle
  start_cycle-Matches none id at h = Ensures-pure none (λ db u. h)
  start_cycle-Matches (some cycle) none at h = absurd h
  start_cycle-Matches (some cycle) (some id) at h =
      Ensures-after _ _ λ stored. Ensures-pure _ (λ db u. h)

  pub finish_cycle-CycleEnds :
      (run status : String) (cycle : Option Cycle) (id : Option String) (mode : String)
      (produced : Produced) (ref : String) (at : ℕ)
      → Matches cycle id
      → Ensures (RunHas run status) (finish_cycle env cycle mode produced ref at) (λ u db.
        RunHas run status db × CycleEnds id (final_cycle_status mode produced.guardrail_status) db)
  unfolding finish_cycle
  finish_cycle-CycleEnds run status none none mode produced ref at h =
      Ensures-pure tt (λ db stored. (stored, tt))
  finish_cycle-CycleEnds run status none (some id) mode produced ref at h = absurd h
  finish_cycle-CycleEnds run status (some cycle) none mode produced ref at h = absurd h
  finish_cycle-CycleEnds run status (some cycle) (some id) mode produced ref at h =
      Ensures-bind _ _ (update_cycle_row-CycleHas env run status _) λ stored.
        Ensures-pure tt (λ db (kept, ends). (
          kept,
          subst (λ name. CycleHas name (final_cycle_status mode produced.guardrail_status) db) h
              ends,
        ))

  pub finish_run-Stored :
      (run : Run) (produced : Produced) (ref decision : String) (at : ℕ)
      → Ensures Anything (finish_run env run produced ref decision at) (λ stored db.
        ((stored.id ≡ run.id)
          × (stored.status ≡ final_run_status run.execution_mode produced.guardrail_status)
          × (stored.execution_mode ≡ run.execution_mode))
        × RunHas run.id (final_run_status run.execution_mode produced.guardrail_status) db)
  unfolding finish_run
  finish_run-Stored run produced ref decision at = Ensures-after _ _ λ review. update_run-Stored _
