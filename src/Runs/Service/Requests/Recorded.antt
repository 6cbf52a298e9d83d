-- ===== src/Runs/Service/Requests/Recorded.antt =====
-- What the policy gate of each operation ensures.
use clawbot_server.Base.{
  String, Bool, true, false, Option, ◌≡◌, refl, sym, subst, IsAmong, IsAmong-append, inl, ap,
}
use clawbot_server.Runs.Types.{Run, CreateInput, Cycle, CreateCycleInput}
use clawbot_server.Runs.Types.Governance.{
  AttachArtifactInput, PolicyDecisionInput, PolicyDecision, ReviewActionInput,
}
use clawbot_server.Runs.Types.Execution.{ModelProfile, ExecuteRunInput}
use clawbot_server.Runs.Normalize.{normalize_review_action_input}
use clawbot_server.Runs.Store.{Db, Env, Action, pure, fail, ◌>>=◌}
use clawbot_server.Runs.Store.Steps.{Keeps}
use clawbot_server.Runs.Store.Outcomes.{
  Ensures, Anything, Ensures-bind, Ensures-pure, Ensures-keeps, Ensures-require, Ensures-after,
  Ensures-store,
}
use clawbot_server.Runs.Repository.Tables.{Keeps-append_governance_audit_event}
use clawbot_server.Runs.Repository.Decisions.{record_policy_decision}
use clawbot_server.Runs.Service.{DependencyConfig, evaluate_and_record_policy}
use clawbot_server.Runs.Service.Runs.{create, review_action, review_action_type}
use clawbot_server.Runs.Service.Cycles.{create_cycle}
use clawbot_server.Runs.Service.Results.{attach_artifact}
use clawbot_server.Runs.Service.Execute.{attempt, admit, execute_run, execute_cycle_run}
use clawbot_server.Runs.Service.Requests.Executes.{Keeps-perform}
use clawbot_server.Runs.Service.Requests.Rules.{request_rules}
use clawbot_server.Runs.Service.Requests.Tables.{Keeps-apply_review}
use clawbot_server.Runs.Service.Requests.Logs.{
  AreAppended, appended, AllowsPolicy-appended, Allows-appended,
}

-- A decision on the action of the actor is among those recorded, with this verdict.
abbrev pub IsRecorded : String → String → Bool → Db → Type 0
IsRecorded action actor allow db =
    (d : PolicyDecision) × IsAmong d db.decisions
    × (d.action_type ≡ action)
    × (d.actor_id ≡ actor)
    × (d.allow ≡ allow)

IsRecorded-stable :
    (action actor : String) (allow : Bool) (before after : Db)
    → AreAppended before after
    → IsRecorded action actor allow before
    → IsRecorded action actor allow after
IsRecorded-stable action actor allow before after ((new, e), reviews, chain, audits)
      (d, among, action_same, actor_same, verdict) =
    (
      d,
      subst (IsAmong d) (sym e) (IsAmong-append d new before.decisions among),
      action_same,
      actor_same,
      verdict,
    )

module _ (env : Env) where
  record_policy_decision-IsRecorded :
      (input : PolicyDecisionInput)
      → Ensures Anything
          (record_policy_decision env input)
          (λ d. IsRecorded input.action_type input.actor_id d.allow)
  unfolding record_policy_decision
  record_policy_decision-IsRecorded input = Ensures-after _ _ λ column. Ensures-after _ _ λ now.
      Ensures-after _ _ λ id. Ensures-after _ _ λ db. Ensures-bind _ _ (Ensures-store _) λ u.
        Ensures-pure _ (λ after same.
          (_, subst (IsAmong _) (sym (ap (λ t. t.decisions) same)) (inl refl), refl, refl, refl))

ruleset after_rules = (request_rules, Allows-appended, AllowsPolicy-appended)

module _ (env : Env) (deps : DependencyConfig) where
  evaluate_and_record_policy-IsRecorded :
      (action actor : String) (run : Option Run) (cycle : Option Cycle)
      (create_run : Option CreateInput) (new_cycle : Option CreateCycleInput)
      (artifact : Option AttachArtifactInput) (profile : Option ModelProfile)
      → Ensures Anything
          (evaluate_and_record_policy env deps action actor run cycle create_run new_cycle artifact
            profile)
          (λ d. IsRecorded action actor d.allow)
  unfolding evaluate_and_record_policy
  evaluate_and_record_policy-IsRecorded action actor run cycle create_run new_cycle artifact
        profile =
      Ensures-bind _ _ (record_policy_decision-IsRecorded env _) λ d.
        Ensures-bind _ _
          (Ensures-keeps appended _ (IsRecorded-stable action actor d.allow)
            (Keeps-append_governance_audit_event env appended (AllowsPolicy-appended env) _))
          λ e. Ensures-pure d (λ db h. h)

  -- The gate, and what follows it when it is open.
  Ensures-gate :
      {A : Type 0} (action actor : String) (run : Option Run) (cycle : Option Cycle)
      (create_run : Option CreateInput) (new_cycle : Option CreateCycleInput)
      (artifact : Option AttachArtifactInput) (profile : Option ModelProfile)
      (gate : PolicyDecision → Action (Unit {0})) (after : PolicyDecision → Unit {0} → Action A)
      → ((d : PolicyDecision)
          → Ensures
              (IsRecorded action actor d.allow)
              (gate d)
              (λ u db. IsRecorded action actor d.allow db × (d.allow ≡ true)))
      → ((d : PolicyDecision) → Keeps appended (after d tt))
      → Ensures Anything
          (evaluate_and_record_policy env deps action actor run cycle create_run new_cycle artifact
              profile
            >>= λ d. gate d >>= after d)
          (λ a. IsRecorded action actor true)
  Ensures-gate action actor run cycle create_run new_cycle artifact profile gate after opens k =
      Ensures-bind _ _
        (evaluate_and_record_policy-IsRecorded action actor run cycle create_run new_cycle artifact
          profile)
        λ d. Ensures-bind _ _ (opens d) λ u. record {
          holds = λ w (recorded, allowed) a same.
              IsRecorded-stable action actor true w.db (after d tt w).1.db ((k d).at w)
                (subst (λ b. IsRecorded action actor b w.db) allowed recorded);
        }

  -- A denied execution never goes on.
  Ensures-admit :
      {P : Db → Type 0} (allowed : Bool) (run : String) (cycle : Option Cycle) (d : PolicyDecision)
      → Ensures P (admit env allowed run cycle d) (λ u db. P db × (allowed ≡ true))
  unfolding admit attempt ◌>>=◌ fail pure
  Ensures-admit true run cycle d = record { holds = λ w p u same. (p, refl) }
  Ensures-admit false run cycle d = record { holds = λ w p u same. cc }

  pub create-IsRecorded :
      (input : CreateInput) (actor : String)
      → Ensures Anything (create env deps input actor) (λ run. IsRecorded "run.create" actor true)
  unfolding create
  create-IsRecorded input actor = Ensures-after _ _ λ valid.
      Ensures-gate _ _ _ _ _ _ _ _ _ _ (λ d. Ensures-require _ _) λ d. search after_rules depth 16

  pub create_cycle-IsRecorded :
      (run : String) (input : CreateCycleInput) (actor : String)
      → Ensures Anything
          (create_cycle env deps run input actor)
          (λ cycle. IsRecorded "run.cycle.create" actor true)
  unfolding create_cycle
  create_cycle-IsRecorded run input actor = Ensures-after _ _ λ named. Ensures-after _ _ λ valid.
      Ensures-after _ _ λ found.
        Ensures-gate _ _ _ _ _ _ _ _ _ _ (λ d. Ensures-require _ _) λ d. search after_rules depth 20

  pub attach_artifact-IsRecorded :
      (run : String) (input : AttachArtifactInput) (actor : String)
      → Ensures Anything
          (attach_artifact env deps run input actor)
          (λ artifact. IsRecorded "run.artifact.attach" actor true)
  unfolding attach_artifact
  attach_artifact-IsRecorded run input actor = Ensures-after _ _ λ named. Ensures-after _ _ λ valid.
      Ensures-after _ _ λ found.
        Ensures-gate _ _ _ _ _ _ _ _ _ _ (λ d. Ensures-require _ _) λ d. search after_rules depth 20

  pub review_action-IsRecorded :
      (run : String) (input : ReviewActionInput) (actor : String)
      → Ensures Anything (review_action env deps run input actor) (λ reviewed.
        IsRecorded
          (review_action_type (normalize_review_action_input input actor).action)
          actor
          true)
  unfolding review_action
  review_action-IsRecorded run input actor = Ensures-after _ _ λ named. Ensures-after _ _ λ valid.
      Ensures-after _ _ λ found. Ensures-after _ _ λ cycle.
        Ensures-gate _ _ _ _ _ _ _ _ _ _ (λ d. Ensures-require _ _)
          λ d. search (after_rules, Keeps-apply_review) depth 12

  pub execute_run-IsRecorded :
      (run : String) (forced : Option String) (input : ExecuteRunInput) (actor : String)
      → Ensures Anything
          (execute_run env deps run forced input actor)
          (λ result. IsRecorded "run.execute" actor true)
  unfolding execute_run
  execute_run-IsRecorded run forced input actor = Ensures-after _ _ λ named.
      Ensures-after _ _ λ found. Ensures-after _ _ λ resolved. Ensures-after _ _ λ profile.
        Ensures-gate _ _ _ _ _ _ _ _ _ _ (λ d. Ensures-admit _ _ _ _)
          λ d. search (after_rules, Keeps-perform) depth 8

  pub execute_cycle_run-IsRecorded :
      (run cycle : String) (input : ExecuteRunInput) (actor : String)
      → Ensures Anything
          (execute_cycle_run env deps run cycle input actor)
          (λ result. IsRecorded "run.execute" actor true)
  unfolding execute_cycle_run
  execute_cycle_run-IsRecorded run cycle input actor =
      Ensures-after _ _ λ named. execute_run-IsRecorded _ _ _ _
