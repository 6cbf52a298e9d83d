-- ===== src/Runs/Service/Requests/Denials.antt =====
-- What an execution that fails leaves behind, unless the policy denies it.
use clawbot_server.Base.{String, Bool, true, false, Option, ◌≡◌}
use clawbot_server.Runs.Types.{Cycle}
use clawbot_server.Runs.Types.Governance.{PolicyDecision}
use clawbot_server.Runs.Types.Execution.{ExecuteRunInput}
use clawbot_server.Runs.Config.{DependencyConfig}
use clawbot_server.Runs.Failure.{Failure, Result, ok, err}
use clawbot_server.Runs.Store.{World, Env, Action, continue, ◌>>=◌, in_tx, fail, pure}
use clawbot_server.Runs.Store.Steps.{Preorder, Keeps, FailsSafe, FailsSafe-in_tx}
use clawbot_server.Runs.Repository.Tables.{AllowsPolicy}
use clawbot_server.Runs.Service.Execute.{attempt, admit, execute_run, start_run, execute_cycle_run}
use clawbot_server.Runs.Service.Requests.Rules.{keeps_rules, Keeps-evaluate_and_record_policy}
use clawbot_server.Runs.Service.Requests.Phases.{reading_rules}

-- The error of an action that the policy denies.
abbrev pub is_denial : Failure → Bool
is_denial (Failure.policy_denied reason bundle version) = true
is_denial _ = false

-- When it fails with any other error, the action relates the tables before it to those after it.
pub record FailsUndenied (F : Preorder) {A : Type 0} (m : Action A) : Type 0 where
  pub after :
      (w : World) (e : Failure) → is_denial e ≡ false → (m w).0 ≡ err e → F.relates w.db (m w).1.db

module _ (F : Preorder) where
  FailsUndenied-safe : {A : Type 0} {m : Action A} → FailsSafe F m → FailsUndenied F m
  FailsUndenied-safe h = record { after = λ w e other failed. h.after w e failed }

  FailsUndenied-continue :
      {A B : Type 0} (r : Result A) (f : A → Action B) (w : World)
      → ((a : A) → FailsUndenied F (f a))
      → (e : Failure) → is_denial e ≡ false
      → (continue r f w).0 ≡ err e
      → F.relates w.db (continue r f w).1.db
  FailsUndenied-continue (ok a) f w h e other failed = (h a).after w e other failed
  FailsUndenied-continue (err c) f w h e other failed = F.reflexive w.db

  FailsUndenied-bind :
      {A B : Type 0} (m : Action A) (f : A → Action B)
      → Keeps F m
      → ((a : A) → FailsUndenied F (f a))
      → FailsUndenied F (m >>= f)
  unfolding ◌>>=◌
  FailsUndenied-bind m f k h = record {
    after = λ w e other failed.
        F.transitive w.db (m w).1.db _ (k.at w)
          (FailsUndenied-continue (m w).0 f (m w).1 h e other failed);
  }

  -- A denial stops the execution with its error.
  FailsUndenied-admit :
      (env : Env) {A : Type 0} (allowed : Bool) (run : String) (cycle : Option Cycle)
      (decision : PolicyDecision) (body : Action A)
      → FailsUndenied F (admit env allowed run cycle decision >>= λ u. in_tx env body)
  unfolding admit attempt ◌>>=◌ fail pure
  FailsUndenied-admit env true run cycle decision body = record {
    after = λ w e other failed. (FailsSafe-in_tx F env body).after w e failed;
  }
  FailsUndenied-admit env false run cycle decision body = record { after = λ w e other failed. cc }

ruleset undenied_rules = (
  keeps_rules, reading_rules, Keeps-evaluate_and_record_policy, FailsUndenied-bind,
  FailsUndenied-admit,
)

module _ (env : Env) (deps : DependencyConfig) (F : Preorder) (allows : AllowsPolicy env F) where
  pub FailsUndenied-execute_run :
      (run : String) (forced : Option String) (input : ExecuteRunInput) (actor : String)
      → FailsUndenied F (execute_run env deps run forced input actor)
  unfolding execute_run
  FailsUndenied-execute_run run forced input actor = search undenied_rules depth 12

  pub FailsUndenied-start_run :
      (run : String) (input : ExecuteRunInput) (actor : String)
      → FailsUndenied F (start_run env deps run input actor)
  unfolding start_run
  FailsUndenied-start_run run input actor = FailsUndenied-execute_run _ _ _ _

  pub FailsUndenied-execute_cycle_run :
      (run cycle : String) (input : ExecuteRunInput) (actor : String)
      → FailsUndenied F (execute_cycle_run env deps run cycle input actor)
  unfolding execute_cycle_run
  FailsUndenied-execute_cycle_run run cycle input actor =
      search (undenied_rules, FailsUndenied-execute_run) depth 6
