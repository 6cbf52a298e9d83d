-- ===== src/Runs/Service/Reads.antt =====
-- The plain reads of internal/platform/runs/service.go: the list of runs, a run, and the health of
-- what the service depends on.
use clawbot_server.Base.{String, List, [], ◌∷◌, ◌==◌, if◌then◌else◌}
use clawbot_server.Text.{trim_space}
use clawbot_server.Runs.Types.{Run}
use clawbot_server.Runs.Failure.{ok}
use clawbot_server.Runs.Config.{DependencyConfig}
use clawbot_server.Runs.Store.{Env, Action, called}
use clawbot_server.Runs.Repository.{list_run_rows, get_run}

-- `DependencyStatus`; the text of an error is that of the database.
pub record DependencyStatus : Type 0 where
  pub name : String
  pub status : String
  pub endpoint : String
  pub error : String

pub record DependencyHealth : Type 0 where
  pub status : String
  pub dependencies : List DependencyStatus

unfoldable list : Env → Action (List Run)
list env = list_run_rows env

unfoldable get : Env → String → Action Run
get env id = get_run env id

-- A service that is called at its base address, if there is one.
abbrev by_address : String → String → DependencyStatus
by_address name address = record {
  name = name;
  status = if trim_space address == "" then "disabled" else "configured";
  endpoint = address;
  error = "";
}

-- `DependencyHealth`, with the text of the error of the database.
unfoldable dependency_health : Env → DependencyConfig → String → Action DependencyHealth
dependency_health env deps error w =
    let alive = env.succeeds w.calls in
    let postgres : DependencyStatus = record {
      name = "postgres";
      status = if alive then "healthy" else "down";
      endpoint = "";
      error = if alive then "" else error;
    } in
    (
      ok record {
        status = if alive then "healthy" else "degraded";
        dependencies =
            postgres
            ∷ by_address "clawmem" deps.clawmem_base_url
            ∷ by_address "inference" deps.inference_base_url
            ∷ [];
      },
      called w,
    )
