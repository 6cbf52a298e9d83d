-- ===== src/Runs/Service/Execution/Resolved.antt =====
-- Which cycle the execution of a run is about.
use clawbot_server.Base.{
  String, true, false, Option, none, some, ◌≡◌, refl, sym, ap, ◌==◌, Bool-cases, inl, inr, ◌⊎◌,
}
use clawbot_server.Runs.Types.{Run, Cycle}
use clawbot_server.Runs.Failure.{ok}
use clawbot_server.Runs.Store.{World, Env}
use clawbot_server.Runs.Store.Outcomes.{
  Ensures, Anything, Ensures-bind, Ensures-pure, Ensures-after,
}
use clawbot_server.Runs.Service.Execution.{resolve_execution_cycle}
use clawbot_server.Runs.Service.Execution.Denied.{get_cycle_row-id}

-- A week run has one of its own cycles, and any other run has none.
abbrev pub IsResolved : Run → Option Cycle × Option String → Type 0
IsResolved run (cycle, id) =
    (((run.run_type == "week_run") ≡ true)
      × ((own : Cycle) × (cycle ≡ some own) × (id ≡ some own.id) × (own.run_id ≡ run.id)))
    ⊎ (((run.run_type == "week_run") ≡ false) × (cycle ≡ none) × (id ≡ none))

module _ (env : Env) (run : Run) (forced requested : Option String) where
  pub resolve_execution_cycle-Ensures :
      Ensures Anything
        (resolve_execution_cycle env run forced requested)
        (λ resolved db. IsResolved run resolved)
  unfolding resolve_execution_cycle
  resolve_execution_cycle-Ensures = elim (Bool-cases (run.run_type == "week_run")) [
    | inl week ↦ rw week (
        Ensures-after _ _ λ named.
          Ensures-bind _ _ (get_cycle_row-id env {P = Anything} run.id _) λ cycle.
            Ensures-pure _
              (λ db (u, in_run, same). inl (refl, (cycle, refl, ap some (sym same), in_run))))
    | inr other ↦
        rw other (Ensures-after _ _ λ absent. Ensures-pure _ (λ db h. inr (refl, refl, refl)))
  ]

-- When the choice of a cycle succeeds, a week run gets one of its own cycles, with the identifier of
-- this cycle, and any other run gets none.
pub resolve_execution_cycle-IsResolved :
    (env : Env) (run : Run) (forced requested : Option String) (w : World)
    (resolved : Option Cycle × Option String)
    → (resolve_execution_cycle env run forced requested w).0 ≡ ok resolved
    → IsResolved run resolved
resolve_execution_cycle-IsResolved env run forced requested w resolved succeeded =
    (resolve_execution_cycle-Ensures env run forced requested).holds w tt resolved succeeded
