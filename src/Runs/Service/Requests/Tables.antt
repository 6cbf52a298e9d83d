-- ===== src/Runs/Service/Requests/Tables.antt =====
-- What every request keeps: a relation on tables that the statements keep, operation by operation.
use clawbot_server.Base.{String, Bool, true, false, Option, none, some}
use clawbot_server.Runs.Types.{
  Run, CreateInput, UpdateInput, Cycle, CreateCycleInput, UpdateCycleInput,
}
use clawbot_server.Runs.Types.Governance.{
  AttachArtifactInput, UpsertComparisonInput, ReviewActionInput,
}
use clawbot_server.Runs.Types.Execution.{RegisterModelProfileInput}
use clawbot_server.Runs.Store.{Env, Action}
use clawbot_server.Runs.Store.Steps.{Preorder, Keeps, Keeps-bind}
use clawbot_server.Runs.Repository.Tables.{Allows}
use clawbot_server.Runs.Service.{DependencyConfig}
use clawbot_server.Runs.Service.Runs.{review_cycle, create, update, apply_review, review_action}
use clawbot_server.Runs.Service.Cycles.{keep_snapshot, write_note, create_cycle, update_cycle}
use clawbot_server.Runs.Service.Results.{attach_artifact, upsert_comparison, register_model_profile}
use clawbot_server.Runs.Service.Requests.Rules.{request_rules}
use clawbot_server.Runs.Service.Requests.Executes.{Keeps-start_run, Keeps-execute_cycle_run}
use clawbot_server.Runs.Service.Requests.{
  Request, creates_run, updates_run, reviews_run, creates_cycle, updates_cycle, attaches_artifact,
  sets_comparison, registers_profile, starts_run, executes_cycle, serve, done,
}

module _ (env : Env) (deps : DependencyConfig) (F : Preorder) (allows : Allows env F) where
  Keeps-create : (input : CreateInput) (actor : String) → Keeps F (create env deps input actor)
  unfolding create
  Keeps-create input actor = search (request_rules, allows.policy) depth 16

  Keeps-update :
      (id : String) (input : UpdateInput) (actor : String)
      → Keeps F (update env deps id input actor)
  unfolding update
  Keeps-update id input actor = search request_rules depth 16

  pub Keeps-review_cycle :
      (run : String) (id : Option String) (action : String)
      → Keeps F (review_cycle env run id action)
  unfolding review_cycle
  Keeps-review_cycle run none action = search request_rules
  Keeps-review_cycle run (some id) action = search request_rules

  pub Keeps-apply_review :
      (run : String) (input : ReviewActionInput) (actor decision : String)
      → Keeps F (apply_review env deps run input actor decision)
  unfolding apply_review
  Keeps-apply_review run input actor decision =
      search (request_rules, Keeps-review_cycle, allows.policy) depth 20

  Keeps-review_action :
      (run : String) (input : ReviewActionInput) (actor : String)
      → Keeps F (review_action env deps run input actor)
  unfolding review_action
  Keeps-review_action run input actor =
      search (request_rules, Keeps-apply_review, allows.policy) depth 16

  Keeps-create_cycle :
      (run : String) (input : CreateCycleInput) (actor : String)
      → Keeps F (create_cycle env deps run input actor)
  unfolding create_cycle
  Keeps-create_cycle run input actor = search (request_rules, allows.policy) depth 20

  Keeps-keep_snapshot :
      (run : Run) (cycle : Cycle) (ref : String) (blank : Bool)
      → Keeps F (keep_snapshot env run cycle ref blank)
  unfolding keep_snapshot
  Keeps-keep_snapshot run cycle ref true = search request_rules
  Keeps-keep_snapshot run cycle ref false = search request_rules

  Keeps-write_note :
      (run : Run) (cycle : Cycle) (agent note : Option String)
      → Keeps F (write_note env run cycle agent note)
  unfolding write_note
  Keeps-write_note run cycle agent none = search request_rules
  Keeps-write_note run cycle agent (some note) =
      Keeps-bind F _ _ (search request_rules) (λ ref. Keeps-keep_snapshot run cycle ref _)

  Keeps-update_cycle :
      (run id : String) (input : UpdateCycleInput) (actor : String)
      → Keeps F (update_cycle env deps run id input actor)
  unfolding update_cycle
  Keeps-update_cycle run id input actor = search (request_rules, Keeps-write_note) depth 16

  Keeps-attach_artifact :
      (run : String) (input : AttachArtifactInput) (actor : String)
      → Keeps F (attach_artifact env deps run input actor)
  unfolding attach_artifact
  Keeps-attach_artifact run input actor = search (request_rules, allows.policy) depth 20

  Keeps-upsert_comparison :
      (run : String) (input : UpsertComparisonInput) (actor : String)
      → Keeps F (upsert_comparison env deps run input actor)
  unfolding upsert_comparison
  Keeps-upsert_comparison run input actor = search (request_rules, allows.policy) depth 16

  Keeps-register_model_profile :
      (input : RegisterModelProfileInput) (actor : String)
      → Keeps F (register_model_profile env deps input actor)
  unfolding register_model_profile
  Keeps-register_model_profile input actor = search request_rules depth 12

  Keeps-done : {A : Type 0} (m : Action A) → Keeps F m → Keeps F (done m)
  unfolding done
  Keeps-done m k = record { at = λ w. k.at w }

  -- Every request keeps a relation that the statements keep.
  pub Keeps-serve : (actor : String) (request : Request) → Keeps F (serve env deps actor request)
  unfolding serve
  Keeps-serve actor (creates_run input) = search (Keeps-done, Keeps-create)
  Keeps-serve actor (updates_run id input) = search (Keeps-done, Keeps-update)
  Keeps-serve actor (reviews_run id input) = search (Keeps-done, Keeps-review_action)
  Keeps-serve actor (creates_cycle id input) = search (Keeps-done, Keeps-create_cycle)
  Keeps-serve actor (updates_cycle id cycle input) = search (Keeps-done, Keeps-update_cycle)
  Keeps-serve actor (attaches_artifact id input) = search (Keeps-done, Keeps-attach_artifact)
  Keeps-serve actor (sets_comparison id input) = search (Keeps-done, Keeps-upsert_comparison)
  Keeps-serve actor (registers_profile input) = search (Keeps-done, Keeps-register_model_profile)
  Keeps-serve actor (starts_run id input) = search (Keeps-done, Keeps-start_run)
  Keeps-serve actor (executes_cycle id cycle input) = search (Keeps-done, Keeps-execute_cycle_run)
