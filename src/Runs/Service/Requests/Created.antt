-- ===== src/Runs/Service/Requests/Created.antt =====
-- What a run that is created holds.
use clawbot_server.Base.{String, true, false, Option, ◌≡◌, refl, sym, ◌∙◌, ◌==◌, ap, All-one_of}
use clawbot_server.Text.{trim_space}
use clawbot_server.Runs.Types.{Run, CreateInput, Cycle, CreateCycleInput}
use clawbot_server.Runs.Types.Governance.{AttachArtifactInput, PolicyDecisionInput}
use clawbot_server.Runs.Types.Execution.{ModelProfile}
use clawbot_server.Runs.Failure.{ok}
use clawbot_server.Runs.Status.{
  is_valid_run_status, is_valid_run_type, is_valid_execution_mode, is_valid_execution_ring,
  is_valid_guardrail_status, execution_rings, guardrail_statuses, default_execution_ring_for_mode,
}
use clawbot_server.Runs.Normalize.{normalize_create_input, validate_create_input}
use clawbot_server.Runs.Normalize.Accepts.{PassesChecks, validate_create_input-PassesChecks}
use clawbot_server.Runs.Policy.{build_policy_input, evaluate_policy_outcome}
use clawbot_server.Runs.Policy.Rings.{suffices}
use clawbot_server.Runs.Policy.Requests.{evaluate_create_request}
use clawbot_server.Runs.Namespace.{or_text}
use clawbot_server.Runs.Store.{World, Env}
use clawbot_server.Runs.Store.Outcomes.{
  Ensures, Anything, Ensures-bind, Ensures-pure, Ensures-require, Ensures-in_tx, Ensures-after,
  Ensures-given, Ensures-lift,
}
use clawbot_server.Runs.Repository.{create_run, scan_run, or_blank}
use clawbot_server.Runs.Repository.Decisions.{record_policy_decision}
use clawbot_server.Runs.Service.{DependencyConfig, evaluate_and_record_policy}
use clawbot_server.Runs.Service.Runs.{create}

-- A run that may start: it has a name and a profile, somebody has asked for it, its words are known,
-- and its ring suffices for its mode.
pub record IsReady (run : Run) : Type 0 where
  pub named : (run.name == "") ≡ false
  pub profiled : (run.model_profile == "") ≡ false
  pub asked : (run.requested_by == "") ≡ false
  pub status : is_valid_run_status run.status ≡ true
  pub run_type : is_valid_run_type run.run_type ≡ true
  pub mode : is_valid_execution_mode run.execution_mode ≡ true
  pub ring : is_valid_execution_ring run.execution_ring ≡ true
  pub guardrail : is_valid_guardrail_status run.guardrail_status ≡ true
  pub ring_suffices : suffices run.execution_mode run.execution_ring ≡ true

-- A word that is not blank stays.
or_blank_full :
    (word fallback : String) → (trim_space word == "") ≡ false → or_blank word fallback ≡ word
or_blank_full word fallback full = rw full refl

or_text_full : (word fallback : String) → (word == "") ≡ false → or_text word fallback ≡ word
or_text_full word fallback full = rw full refl

ring_full : (ring : String) → is_valid_execution_ring ring ≡ true → (trim_space ring == "") ≡ false
unfolding is_valid_execution_ring trim_space
ring_full ring known =
    All-one_of (λ r. (trim_space r == "") ≡ false) execution_rings ring
      (refl, (refl, (refl, (refl, tt)))) known

guardrail_full :
    (status : String) → is_valid_guardrail_status status ≡ true → (trim_space status == "") ≡ false
unfolding is_valid_guardrail_status trim_space
guardrail_full status known =
    All-one_of (λ s. (trim_space s == "") ≡ false) guardrail_statuses status
      (refl, (refl, (refl, (refl, (refl, tt))))) known

-- Reading a row that is ready changes none of what makes it so.
scan_run-IsReady : (row : Run) → IsReady row → IsReady (scan_run row)
unfolding scan_run
scan_run-IsReady row h =
    let same_ring =
      or_blank_full row.execution_ring (default_execution_ring_for_mode row.execution_mode)
        (ring_full row.execution_ring h.ring) in
    let same_guardrail =
      or_blank_full row.guardrail_status "guardrail_disabled"
        (guardrail_full row.guardrail_status h.guardrail) in
    record {
      named = h.named;
      profiled = h.profiled;
      asked = ap (λ s. s == "") (or_text_full row.requested_by row.created_by h.asked) ∙ h.asked;
      status = h.status;
      run_type = h.run_type;
      mode = h.mode;
      ring = ap is_valid_execution_ring same_ring ∙ h.ring;
      guardrail = ap is_valid_guardrail_status same_guardrail ∙ h.guardrail;
      ring_suffices = ap (suffices row.execution_mode) same_ring ∙ h.ring_suffices;
    }

module _ (env : Env) where
  create_run-IsReady :
      (input : CreateInput)
      → PassesChecks input
      → suffices input.execution_mode input.execution_ring ≡ true
      → Ensures Anything (create_run env input) (λ run db. IsReady run)
  unfolding create_run
  create_run-IsReady input c enough = Ensures-after _ _ λ review. Ensures-after _ _ λ metadata.
      Ensures-after _ _ λ now. Ensures-after _ _ λ id. Ensures-after _ _ λ db.
        Ensures-after _ _ λ u. Ensures-pure _ (λ after h. scan_run-IsReady _ record {
          named = c.named;
          profiled = c.profiled;
          asked = c.asked;
          status = c.status;
          run_type = c.run_type;
          mode = c.mode;
          ring = c.ring;
          guardrail = c.guardrail;
          ring_suffices = enough;
        })

  record_policy_decision-allow :
      (input : PolicyDecisionInput)
      → Ensures Anything (record_policy_decision env input) (λ d db. d.allow ≡ input.allow)
  unfolding record_policy_decision
  record_policy_decision-allow input = Ensures-after _ _ λ column. Ensures-after _ _ λ now.
      Ensures-after _ _
        λ id. Ensures-after _ _ λ db. Ensures-after _ _ λ u. Ensures-pure _ (λ after h. refl)

module _ (env : Env) (deps : DependencyConfig) where
  evaluate_and_record_policy-allow :
      (action actor : String) (run : Option Run) (cycle : Option Cycle)
      (create_run : Option CreateInput) (new_cycle : Option CreateCycleInput)
      (artifact : Option AttachArtifactInput) (profile : Option ModelProfile)
      → Ensures Anything
          (evaluate_and_record_policy env deps action actor run cycle create_run new_cycle artifact
            profile)
          (λ d db.
            d.allow
            ≡ (evaluate_policy_outcome (
                build_policy_input action actor deps.environment run cycle create_run new_cycle
                  artifact profile)).allow)
  unfolding evaluate_and_record_policy
  evaluate_and_record_policy-allow action actor run cycle create_run new_cycle artifact profile =
      Ensures-bind _ _ (record_policy_decision-allow env _)
        λ d. Ensures-given λ same. Ensures-after _ _ λ e. Ensures-pure d (λ db h. same)

  create-Ensures :
      (input : CreateInput) (actor : String)
      → Ensures Anything (create env deps input actor) (λ run db. IsReady run)
  unfolding create
  create-Ensures given actor =
      let input = normalize_create_input given actor in
      Ensures-bind _ _ (Ensures-lift (validate_create_input input)) λ u. Ensures-given λ valid.
        let c = (validate_create_input-PassesChecks input).0 valid in
        Ensures-bind _ _ (evaluate_and_record_policy-allow _ _ _ _ _ _ _ _) λ d.
          Ensures-bind _ _ (Ensures-require _ _) λ v. Ensures-given λ (same, allowed).
            let enough =
              sym (evaluate_create_request "run.create" actor deps.environment input c.ring)
              ∙ sym same
              ∙ allowed in
            Ensures-after _ _ λ review. Ensures-in_tx env _ (
              Ensures-bind _ _
                (create_run-IsReady env (record input { review_metadata_json = review })
                  record {
                    named = c.named;
                    status = c.status;
                    run_type = c.run_type;
                    mode = c.mode;
                    ring = c.ring;
                    guardrail = c.guardrail;
                    profiled = c.profiled;
                    asked = c.asked;
                  }
                  enough)
                λ created. Ensures-given λ ready. Ensures-after _ _ λ a.
                  Ensures-after _ _
                    λ b. Ensures-after _ _ λ e. Ensures-pure created (λ db h. ready))

-- A run whose creation succeeds has a name, a model profile and somebody who asked for it; its
-- status, its type, its mode, its ring and its guardrail status are known; and its ring suffices for
-- its mode.
pub create-IsReady :
    (env : Env) (deps : DependencyConfig) (input : CreateInput) (actor : String) (w : World)
    (run : Run)
    → (create env deps input actor w).0 ≡ ok run
    → IsReady run
create-IsReady env deps input actor w run succeeded =
    (create-Ensures env deps input actor).holds w tt run succeeded
