-- ===== src/Runs/Service/Requests/Failures.antt =====
-- What a failed request leaves behind.
use clawbot_server.Base.{String, Bool, true, false, ◌&&◌, ◌≡◌, refl, ◌∙◌}
use clawbot_server.Runs.Types.{CreateInput, UpdateInput, CreateCycleInput, UpdateCycleInput}
use clawbot_server.Runs.Types.Governance.{
  AttachArtifactInput, UpsertComparisonInput, ReviewActionInput,
}
use clawbot_server.Runs.Types.Execution.{RegisterModelProfileInput}
use clawbot_server.Runs.Failure.{Failure, Result, ok, err}
use clawbot_server.Runs.Store.{World, Db, Env, Action}
use clawbot_server.Runs.Store.Steps.{
  Preorder, FailsSafe, FailsSafe-bind, FailsSafe-in_tx, FailsSafe-quiet,
}
use clawbot_server.Runs.Repository.Tables.{AllowsPolicy}
use clawbot_server.Runs.Service.{DependencyConfig}
use clawbot_server.Runs.Service.Runs.{create, update, review_action}
use clawbot_server.Runs.Service.Cycles.{create_cycle, update_cycle}
use clawbot_server.Runs.Service.Results.{attach_artifact, upsert_comparison, register_model_profile}
use clawbot_server.Runs.Service.Requests.{
  Request, creates_run, updates_run, reviews_run, creates_cycle, updates_cycle, attaches_artifact,
  sets_comparison, registers_profile, starts_run, executes_cycle, serve, forget, done,
}
use clawbot_server.Runs.Service.Requests.Rules.{keeps_rules, Keeps-evaluate_and_record_policy}
use clawbot_server.Runs.Service.Requests.Denials.{
  is_denial, FailsUndenied, FailsUndenied-start_run, FailsUndenied-execute_cycle_run,
}
use clawbot_server.Runs.Service.Requests.Logs.{Extends, Extends-same, Extends-one, Extends-both}

-- Only decisions and governance events were added.
abbrev pub OnlyDecided : Db → Db → Type 0
OnlyDecided before after =
    (after.runs ≡ before.runs)
    × (after.cycles ≡ before.cycles)
    × (after.artifacts ≡ before.artifacts)
    × (after.comparisons ≡ before.comparisons)
    × (after.profiles ≡ before.profiles)
    × (after.reviews ≡ before.reviews)
    × (after.audits ≡ before.audits)
    × Extends before.decisions after.decisions
    × Extends before.chain after.chain

abbrev only_decided : Preorder
only_decided = record {
  relates = OnlyDecided;
  reflexive = λ db.
      (refl, refl, refl, refl, refl, refl, refl, Extends-same db.decisions, Extends-same db.chain);
  transitive = λ a b c h k. (
    k.0 ∙ h.0,
    k.1 ∙ h.1,
    k.2 ∙ h.2,
    k.3 ∙ h.3,
    k.4 ∙ h.4,
    k.5 ∙ h.5,
    k.6 ∙ h.6,
    Extends-both a.decisions b.decisions c.decisions h.7 k.7,
    Extends-both a.chain b.chain c.chain h.8 k.8,
  );
}

AllowsPolicy-only_decided : (env : Env) → AllowsPolicy env only_decided
AllowsPolicy-only_decided env = record {
  decision_added = λ db row. (
    refl,
    refl,
    refl,
    refl,
    refl,
    refl,
    refl,
    Extends-one row db.decisions,
    Extends-same db.chain,
  );
  event_added = λ db row h. (
    refl,
    refl,
    refl,
    refl,
    refl,
    refl,
    refl,
    Extends-same db.decisions,
    Extends-one row db.chain,
  );
}

ruleset fails_rules = (
  keeps_rules, Keeps-evaluate_and_record_policy, AllowsPolicy-only_decided, FailsSafe-bind,
  FailsSafe-in_tx, FailsSafe-quiet,
)

module _ (env : Env) (deps : DependencyConfig) where
  FailsSafe-create :
      (input : CreateInput) (actor : String) → FailsSafe only_decided (create env deps input actor)
  unfolding create
  FailsSafe-create input actor = search fails_rules depth 12

  FailsSafe-review_action :
      (run : String) (input : ReviewActionInput) (actor : String)
      → FailsSafe only_decided (review_action env deps run input actor)
  unfolding review_action
  FailsSafe-review_action run input actor = search fails_rules depth 12

  FailsSafe-create_cycle :
      (run : String) (input : CreateCycleInput) (actor : String)
      → FailsSafe only_decided (create_cycle env deps run input actor)
  unfolding create_cycle
  FailsSafe-create_cycle run input actor = search fails_rules depth 12

  FailsSafe-attach_artifact :
      (run : String) (input : AttachArtifactInput) (actor : String)
      → FailsSafe only_decided (attach_artifact env deps run input actor)
  unfolding attach_artifact
  FailsSafe-attach_artifact run input actor = search fails_rules depth 12

  FailsSafe-update_cycle :
      (F : Preorder) (run id : String) (input : UpdateCycleInput) (actor : String)
      → FailsSafe F (update_cycle env deps run id input actor)
  unfolding update_cycle
  FailsSafe-update_cycle F run id input actor = search fails_rules

  FailsSafe-update :
      (F : Preorder) (id : String) (input : UpdateInput) (actor : String)
      → FailsSafe F (update env deps id input actor)
  unfolding update
  FailsSafe-update F id input actor = search fails_rules

  FailsSafe-upsert_comparison :
      (F : Preorder) (run : String) (input : UpsertComparisonInput) (actor : String)
      → FailsSafe F (upsert_comparison env deps run input actor)
  unfolding upsert_comparison
  FailsSafe-upsert_comparison F run input actor = search fails_rules

  FailsSafe-register_model_profile :
      (F : Preorder) (input : RegisterModelProfileInput) (actor : String)
      → FailsSafe F (register_model_profile env deps input actor)
  unfolding register_model_profile
  FailsSafe-register_model_profile F input actor = search fails_rules

forget-err : {A : Type 0} (r : Result A) (e : Failure) → forget r ≡ err e → r ≡ err e
forget-err (ok a) e h = cc
forget-err (err f) e h = cc

module _ {A : Type 0} (m : Action A) (w : World) (e : Failure) where
  done-OnlyDecided :
      FailsSafe only_decided m → (done m w).0 ≡ err e → OnlyDecided w.db (done m w).1.db
  unfolding done
  done-OnlyDecided h failed = h.after w e (forget-err (m w).0 e failed)

  done-OnlyDecided_undenied :
      FailsUndenied only_decided m
      → is_denial e ≡ false
      → (done m w).0 ≡ err e
      → OnlyDecided w.db (done m w).1.db
  unfolding done
  done-OnlyDecided_undenied h other failed = h.after w e other (forget-err (m w).0 e failed)

-- The request executes a run.
abbrev pub executes : Request → Bool
executes (starts_run id input) = true
executes (executes_cycle id cycle input) = true
executes (creates_run input) = false
executes (updates_run id input) = false
executes (reviews_run id input) = false
executes (creates_cycle id input) = false
executes (updates_cycle id cycle input) = false
executes (attaches_artifact id input) = false
executes (sets_comparison id input) = false
executes (registers_profile input) = false

-- A request that fails leaves the tables as they were but for policy decisions and governance events
-- in front of those before: no run, cycle, artifact, comparison, profile, review or audit event is
-- added, changed or removed. The one exception is an execution that the policy denies.
pub serve-OnlyDecided :
    (env : Env) (deps : DependencyConfig) (actor : String) (request : Request) (w : World)
    (e : Failure)
    → (executes request && is_denial e) ≡ false
    → (serve env deps actor request w).0 ≡ err e
    → OnlyDecided w.db (serve env deps actor request w).1.db
unfolding serve
serve-OnlyDecided env deps actor (creates_run input) w e spared =
    done-OnlyDecided _ w e (FailsSafe-create env deps input actor)
serve-OnlyDecided env deps actor (updates_run id input) w e spared =
    done-OnlyDecided _ w e (FailsSafe-update env deps only_decided id input actor)
serve-OnlyDecided env deps actor (reviews_run id input) w e spared =
    done-OnlyDecided _ w e (FailsSafe-review_action env deps id input actor)
serve-OnlyDecided env deps actor (creates_cycle id input) w e spared =
    done-OnlyDecided _ w e (FailsSafe-create_cycle env deps id input actor)
serve-OnlyDecided env deps actor (updates_cycle id cycle input) w e spared =
    done-OnlyDecided _ w e (FailsSafe-update_cycle env deps only_decided id cycle input actor)
serve-OnlyDecided env deps actor (attaches_artifact id input) w e spared =
    done-OnlyDecided _ w e (FailsSafe-attach_artifact env deps id input actor)
serve-OnlyDecided env deps actor (sets_comparison id input) w e spared =
    done-OnlyDecided _ w e (FailsSafe-upsert_comparison env deps only_decided id input actor)
serve-OnlyDecided env deps actor (registers_profile input) w e spared =
    done-OnlyDecided _ w e (FailsSafe-register_model_profile env deps only_decided input actor)
serve-OnlyDecided env deps actor (starts_run id input) w e spared =
    done-OnlyDecided_undenied _ w e
      (FailsUndenied-start_run env deps only_decided (AllowsPolicy-only_decided env) id input actor)
      spared
serve-OnlyDecided env deps actor (executes_cycle id cycle input) w e spared =
    done-OnlyDecided_undenied _ w e
      (FailsUndenied-execute_cycle_run env deps only_decided (AllowsPolicy-only_decided env) id
        cycle input actor)
      spared
