-- ===== src/Runs/Service/Requests.antt =====
-- The requests that change something, and the histories that they make.
pub mod Rules
pub mod Phases
pub mod Executes
pub mod Tables
pub mod Logs
pub mod Keys
pub mod Rows
pub mod Linked
pub mod Failures
pub mod Denials
pub mod Recorded
pub mod Gate
pub mod Reviews
pub mod Created
pub mod Accepted
use clawbot_server.Base.{String}
use clawbot_server.Runs.Types.{CreateInput, UpdateInput, CreateCycleInput, UpdateCycleInput}
use clawbot_server.Runs.Types.Governance.{
  AttachArtifactInput, UpsertComparisonInput, ReviewActionInput,
}
use clawbot_server.Runs.Types.Execution.{RegisterModelProfileInput, ExecuteRunInput}
use clawbot_server.Runs.Failure.{Result, ok, err}
use clawbot_server.Runs.Store.{World, Env, Action}
use clawbot_server.Runs.Service.{DependencyConfig}
use clawbot_server.Runs.Service.Runs.{create, update, review_action}
use clawbot_server.Runs.Service.Cycles.{create_cycle, update_cycle}
use clawbot_server.Runs.Service.Results.{attach_artifact, upsert_comparison, register_model_profile}
use clawbot_server.Runs.Service.Execute.{start_run, execute_cycle_run}

pub data Request : Type 0 where
  creates_run : CreateInput → Request
  updates_run : String → UpdateInput → Request
  reviews_run : String → ReviewActionInput → Request
  creates_cycle : String → CreateCycleInput → Request
  updates_cycle : String → String → UpdateCycleInput → Request
  attaches_artifact : String → AttachArtifactInput → Request
  sets_comparison : String → UpsertComparisonInput → Request
  registers_profile : RegisterModelProfileInput → Request
  starts_run : String → ExecuteRunInput → Request
  executes_cycle : String → String → ExecuteRunInput → Request

module _ {A : Type 0} where
  abbrev pub forget : Result A → Result (Unit {0})
  forget (ok a) = ok tt
  forget (err e) = err e

  -- The same action, without its result.
  unfoldable pub done : Action A → Action (Unit {0})
  done m w = let (r, w') = m w in (forget r, w')

module _ (env : Env) (deps : DependencyConfig) where
  -- The operation of a request, for an actor; what it returns is left out.
  unfoldable pub serve : String → Request → Action (Unit {0})
  serve actor (creates_run input) = done (create env deps input actor)
  serve actor (updates_run id input) = done (update env deps id input actor)
  serve actor (reviews_run id input) = done (review_action env deps id input actor)
  serve actor (creates_cycle id input) = done (create_cycle env deps id input actor)
  serve actor (updates_cycle id cycle input) = done (update_cycle env deps id cycle input actor)
  serve actor (attaches_artifact id input) = done (attach_artifact env deps id input actor)
  serve actor (sets_comparison id input) = done (upsert_comparison env deps id input actor)
  serve actor (registers_profile input) = done (register_model_profile env deps input actor)
  serve actor (starts_run id input) = done (start_run env deps id input actor)
  serve actor (executes_cycle id cycle input) =
      done (execute_cycle_run env deps id cycle input actor)

  -- Any number of requests, one after the other, each of which may fail.
  pub data History (start : World) : World → Type 0 where
    begun : History start start
    served :
        {w : World} (actor : String) (request : Request)
        → History start w
        → History start (serve actor request w).1
