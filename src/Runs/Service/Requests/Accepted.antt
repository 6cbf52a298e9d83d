-- ===== src/Runs/Service/Requests/Accepted.antt =====
-- When a run is created.
use clawbot_server.Base.{String, Bool, true, false, Option, ◌≡◌, refl, ◌∙◌}
use clawbot_server.Json.{
  bool, num, arr, null, Fields, end, field, obj, Raw, empty, braces, invalid, doc, marshal,
  or_braces, str,
}
use clawbot_server.Runs.Types.{Run, CreateInput, Cycle, CreateCycleInput}
use clawbot_server.Runs.Types.Governance.{
  AttachArtifactInput, PolicyDecisionInput, GovernanceAuditEventInput,
}
use clawbot_server.Runs.Types.Execution.{ModelProfile}
use clawbot_server.Runs.Failure.{ok}
use clawbot_server.Runs.Normalize.{normalize_create_input, validate_create_input}
use clawbot_server.Runs.Normalize.Accepts.{
  IsAcceptable, validate_create_input_iff, validate_create_input-PassesChecks,
}
use clawbot_server.Runs.Policy.{build_policy_input, evaluate_policy_outcome}
use clawbot_server.Runs.Policy.Rings.{suffices}
use clawbot_server.Runs.Policy.Requests.{evaluate_create_request}
use clawbot_server.Runs.Store.{World, Env, Payload, lift}
use clawbot_server.Runs.Store.Returns.{
  Returns, AnyResult, Returns-bind, Returns-pure, Returns-lift, Returns-require, Returns-tables,
  Returns-store, IsUp, Returns-draw_id, Returns-time_now, Returns-statement, Returns-in_tx,
}
use clawbot_server.Runs.Repository.{create_run, jsonb}
use clawbot_server.Runs.Repository.Decisions.{record_policy_decision}
use clawbot_server.Runs.Repository.Ledger.{
  append_governance_audit_event, record_audit, record_run_intent,
}
use clawbot_server.Runs.Service.{DependencyConfig, evaluate_and_record_policy, merge_json_objects}
use clawbot_server.Runs.Service.Runs.{create}

-- The document parses, or is missing.
abbrev pub parses : Raw → Bool
parses invalid = false
parses _ = true

-- The document is not the text `null`, into which nothing can be merged.
abbrev pub is_not_null : Raw → Bool
is_not_null (doc null) = false
is_not_null _ = true

jsonb-ok : (raw : Raw) → parses raw ≡ true → (r : Raw) × (jsonb raw ≡ ok r)
jsonb-ok empty h = (_, refl)
jsonb-ok braces h = (_, refl)
jsonb-ok invalid h = cc
jsonb-ok (doc (obj end)) h = (_, refl)
jsonb-ok (doc (obj (field k v fs))) h = (_, refl)
jsonb-ok (doc null) h = (_, refl)
jsonb-ok (doc (bool b)) h = (_, refl)
jsonb-ok (doc (num n)) h = (_, refl)
jsonb-ok (doc (str s)) h = (_, refl)
jsonb-ok (doc (arr items)) h = (_, refl)

parses-marshal : (fs : Fields) → parses (marshal fs) ≡ true
parses-marshal end = refl
parses-marshal (field k v fs) = refl

parses-or_braces : (raw : Raw) → parses raw ≡ true → parses (or_braces raw) ≡ true
parses-or_braces empty h = refl
parses-or_braces braces h = refl
parses-or_braces invalid h = h
parses-or_braces (doc j) h = refl

merge_json_objects-ok :
    (raw : Raw) (patch : Fields)
    → is_not_null raw ≡ true
    → (r : Raw) × (merge_json_objects raw patch ≡ ok r) × (parses r ≡ true)
unfolding merge_json_objects
merge_json_objects-ok empty patch h = (_, refl, parses-marshal _)
merge_json_objects-ok braces patch h = (_, refl, parses-marshal _)
merge_json_objects-ok invalid patch h = (_, refl, parses-marshal _)
merge_json_objects-ok (doc null) patch h = cc
merge_json_objects-ok (doc (obj fs)) patch h = (_, refl, parses-marshal _)
merge_json_objects-ok (doc (bool b)) patch h = (_, refl, parses-marshal _)
merge_json_objects-ok (doc (num n)) patch h = (_, refl, parses-marshal _)
merge_json_objects-ok (doc (str s)) patch h = (_, refl, parses-marshal _)
merge_json_objects-ok (doc (arr items)) patch h = (_, refl, parses-marshal _)

module _ (env : Env) (up : IsUp env) where
  Returns-jsonb : (raw : Raw) → parses raw ≡ true → Returns (lift (jsonb raw)) AnyResult
  Returns-jsonb raw h = let (r, same) = jsonb-ok raw h in Returns-lift r (jsonb raw) same tt

  append_governance_audit_event-Returns :
      (input : GovernanceAuditEventInput)
      → parses input.payload_summary ≡ true
      → Returns (append_governance_audit_event env input) AnyResult
  unfolding append_governance_audit_event
  append_governance_audit_event-Returns input h = Returns-bind _ _ (Returns-statement env up) λ n u.
      Returns-bind _ _ Returns-tables λ before v. Returns-bind _ _ (Returns-time_now env) λ at w.
        Returns-bind _ _ (Returns-jsonb _ (parses-or_braces _ h)) λ column x.
          Returns-bind _ _ (Returns-statement env up) λ now y.
            Returns-bind _ _ (Returns-draw_id env) λ id z.
              Returns-bind _ _ Returns-tables
                λ db a. Returns-bind _ _ (Returns-store _) λ b c. Returns-pure _ tt

  record_policy_decision-Returns :
      (input : PolicyDecisionInput)
      → parses input.policy_input ≡ true
      → Returns (record_policy_decision env input) (λ d. d.allow ≡ input.allow)
  unfolding record_policy_decision
  record_policy_decision-Returns input h = Returns-bind _ _ (Returns-jsonb _ h) λ column u.
      Returns-bind _ _ (Returns-statement env up) λ now y.
        Returns-bind _ _ (Returns-draw_id env) λ id z.
          Returns-bind _ _ Returns-tables
            λ db a. Returns-bind _ _ (Returns-store _) λ b c. Returns-pure _ refl

  record_audit-Returns :
      (entity_type event_type actor entity_id : String) (payload : Payload)
      → Returns (record_audit env entity_type event_type actor entity_id payload) AnyResult
  unfolding record_audit
  record_audit-Returns entity_type event_type actor entity_id payload =
      Returns-bind _ _ (Returns-statement env up)
        λ now y. Returns-bind _ _ Returns-tables λ db a. Returns-store _

  create_run-Returns :
      (input : CreateInput)
      → parses input.review_metadata_json ≡ true
      → parses input.metadata_json ≡ true
      → Returns (create_run env input) AnyResult
  unfolding create_run
  create_run-Returns input h k = Returns-bind _ _ (Returns-jsonb _ h) λ review u.
      Returns-bind _ _ (Returns-jsonb _ k) λ metadata v.
        Returns-bind _ _ (Returns-statement env up) λ now y.
          Returns-bind _ _ (Returns-draw_id env) λ id z.
            Returns-bind _ _ Returns-tables
              λ db a. Returns-bind _ _ (Returns-store _) λ b c. Returns-pure _ tt

module _ (env : Env) (deps : DependencyConfig) (up : IsUp env) where
  evaluate_and_record_policy-Returns :
      (action actor : String) (run : Option Run) (cycle : Option Cycle)
      (create_run : Option CreateInput) (new_cycle : Option CreateCycleInput)
      (artifact : Option AttachArtifactInput) (profile : Option ModelProfile)
      → Returns
          (evaluate_and_record_policy env deps action actor run cycle create_run new_cycle artifact
            profile)
          (λ d.
            d.allow
            ≡ (evaluate_policy_outcome (
                build_policy_input action actor deps.environment run cycle create_run new_cycle
                  artifact profile)).allow)
  unfolding evaluate_and_record_policy
  evaluate_and_record_policy-Returns action actor run cycle create_run new_cycle artifact profile =
      Returns-bind _ _ (record_policy_decision-Returns env up _ (parses-marshal _)) λ d same.
        Returns-bind _ _ (append_governance_audit_event-Returns env up _ refl)
          λ e u. Returns-pure d same

  create-Returns :
      (given : CreateInput) (actor : String)
      → validate_create_input (normalize_create_input given actor) ≡ ok tt
      → suffices
          (normalize_create_input given actor).execution_mode
          (normalize_create_input given actor).execution_ring
        ≡ true
      → is_not_null (normalize_create_input given actor).review_metadata_json ≡ true
      → parses (normalize_create_input given actor).metadata_json ≡ true
      → Returns (create env deps given actor) AnyResult
  unfolding create record_run_intent
  create-Returns given actor valid enough mergeable stored =
      let input = normalize_create_input given actor in
      let c = (validate_create_input-PassesChecks input).0 valid in
      let allowed =
        evaluate_create_request "run.create" actor deps.environment input c.ring ∙ enough in
      Returns-bind {R = AnyResult} _ _ (Returns-lift tt (validate_create_input input) valid tt)
        λ u v. Returns-bind _ _ (evaluate_and_record_policy-Returns _ _ _ _ _ _ _ _) λ d same.
          Returns-bind _ _ (Returns-require d.allow _ (same ∙ allowed)) λ a b.
            let (merged, equal, clean) =
              merge_json_objects-ok input.review_metadata_json
                (field "last_policy_decision_id" (str d.id)
                  (field "execution_ring" (str input.execution_ring) end))
                mergeable in
            Returns-bind {R = λ r. parses r ≡ true} _ _ (Returns-lift merged _ equal clean)
              λ review r. Returns-in_tx env _ up (
                Returns-bind _ _ (create_run-Returns env up _ r stored) λ created e.
                  Returns-bind _ _ (record_audit-Returns env up _ _ _ _ _) λ f g.
                    Returns-bind _ _ (append_governance_audit_event-Returns env up _ refl) λ h i.
                      Returns-bind _ _ (record_audit-Returns env up _ _ _ _ _)
                        λ j k. Returns-pure created tt)

-- Where the database refuses no statement, a run is created from every acceptable input whose ring
-- suffices for its mode, whose review metadata is not the text `null` and whose other metadata
-- parses.
pub create-succeeds :
    (env : Env) (deps : DependencyConfig) (input : CreateInput) (actor : String) (w : World)
    → IsUp env
    → IsAcceptable input actor
    → suffices
        (normalize_create_input input actor).execution_mode
        (normalize_create_input input actor).execution_ring
      ≡ true
    → is_not_null (normalize_create_input input actor).review_metadata_json ≡ true
    → parses (normalize_create_input input actor).metadata_json ≡ true
    → (run : Run) × ((create env deps input actor w).0 ≡ ok run)
create-succeeds env deps input actor w up accepted enough mergeable stored =
    let valid = (validate_create_input_iff input actor).1 accepted in
    let (run, equal, u) =
      (create-Returns env deps up input actor valid enough mergeable stored).gives w in
    (run, equal)
