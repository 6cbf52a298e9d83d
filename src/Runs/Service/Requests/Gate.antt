-- ===== src/Runs/Service/Requests/Gate.antt =====
-- The policy gate in front of the requests.
use clawbot_server.Base.{String, true, Option, none, some, ◌≡◌, refl}
use clawbot_server.Runs.Failure.{Result, ok, err}
use clawbot_server.Runs.Normalize.{normalize_review_action_input}
use clawbot_server.Runs.Store.{World, Db, Env, Action}
use clawbot_server.Runs.Store.Outcomes.{Ensures, Anything}
use clawbot_server.Runs.Service.{DependencyConfig}
use clawbot_server.Runs.Service.Runs.{review_action_type}
use clawbot_server.Runs.Service.Execute.{start_run}
use clawbot_server.Runs.Service.Requests.{
  Request, creates_run, updates_run, reviews_run, creates_cycle, updates_cycle, attaches_artifact,
  sets_comparison, registers_profile, starts_run, executes_cycle, serve, forget, done,
}
use clawbot_server.Runs.Service.Requests.Recorded.{
  IsRecorded, create-IsRecorded, create_cycle-IsRecorded, attach_artifact-IsRecorded,
  review_action-IsRecorded, execute_run-IsRecorded, execute_cycle_run-IsRecorded,
}

-- The action that a request asks the policy about; four kinds of request ask about none.
abbrev pub gated_action : String → Request → Option String
gated_action actor (creates_run input) = some "run.create"
gated_action actor (reviews_run run input) =
    some (review_action_type (normalize_review_action_input input actor).action)
gated_action actor (creates_cycle run input) = some "run.cycle.create"
gated_action actor (attaches_artifact run input) = some "run.artifact.attach"
gated_action actor (starts_run run input) = some "run.execute"
gated_action actor (executes_cycle run cycle input) = some "run.execute"
gated_action actor (updates_run id input) = none
gated_action actor (updates_cycle run id input) = none
gated_action actor (sets_comparison run input) = none
gated_action actor (registers_profile input) = none

forget-ok : {A : Type 0} (r : Result A) → forget r ≡ ok tt → (a : A) × (r ≡ ok a)
forget-ok (ok a) h = (a, refl)
forget-ok (err e) h = cc

done-IsRecorded :
    {A : Type 0} (m : Action A) (P : Db → Type 0) (w : World)
    → Ensures Anything m (λ a. P)
    → (done m w).0 ≡ ok tt
    → P (done m w).1.db
unfolding done
done-IsRecorded m P w h succeeded =
    let (a, same) = forget-ok (m w).0 succeeded in h.holds w tt a same

some-injective : {a b : String} → some a ≡ some b → a ≡ b
some-injective h = cc

-- A run is created, reviewed or executed, a cycle is created and an artifact is attached only with a
-- policy decision on record that allows this action to this actor.
pub serve-IsRecorded :
    (env : Env) (deps : DependencyConfig) (actor : String) (request : Request) (action : String)
    (w : World)
    → gated_action actor request ≡ some action
    → (serve env deps actor request w).0 ≡ ok tt
    → IsRecorded action actor true (serve env deps actor request w).1.db
unfolding serve start_run
serve-IsRecorded env deps actor (creates_run input) action w gated succeeded =
    rw (← some-injective gated) (
      done-IsRecorded _ (IsRecorded "run.create" actor true) w
        (create-IsRecorded env deps input actor) succeeded)
serve-IsRecorded env deps actor (reviews_run run input) action w gated succeeded =
    rw (← some-injective gated) (
      done-IsRecorded _ (IsRecorded _ actor true) w
        (review_action-IsRecorded env deps run input actor) succeeded)
serve-IsRecorded env deps actor (creates_cycle run input) action w gated succeeded =
    rw (← some-injective gated) (
      done-IsRecorded _ (IsRecorded _ actor true) w
        (create_cycle-IsRecorded env deps run input actor) succeeded)
serve-IsRecorded env deps actor (attaches_artifact run input) action w gated succeeded =
    rw (← some-injective gated) (
      done-IsRecorded _ (IsRecorded _ actor true) w
        (attach_artifact-IsRecorded env deps run input actor) succeeded)
serve-IsRecorded env deps actor (starts_run run input) action w gated succeeded =
    rw (← some-injective gated) (
      done-IsRecorded _ (IsRecorded "run.execute" actor true) w
        (execute_run-IsRecorded env deps run none input actor) succeeded)
serve-IsRecorded env deps actor (executes_cycle run cycle input) action w gated succeeded =
    rw (← some-injective gated) (
      done-IsRecorded _ (IsRecorded "run.execute" actor true) w
        (execute_cycle_run-IsRecorded env deps run cycle input actor) succeeded)
serve-IsRecorded env deps actor (updates_run id input) action w gated succeeded = cc
serve-IsRecorded env deps actor (updates_cycle run id input) action w gated succeeded = cc
serve-IsRecorded env deps actor (sets_comparison run input) action w gated succeeded = cc
serve-IsRecorded env deps actor (registers_profile input) action w gated succeeded = cc
