-- ===== src/Runs/Policy/Requests.antt =====
-- The decision on each request of the service, in terms of the run, the artifact and the profile.
use clawbot_server.Base.{
  String, Bool, true, false, not, ◌&&◌, ◌||◌, [], ◌∷◌, Option, none, some, ◌≡◌, refl, ◌∙◌, arith,
  ◌==◌, All, All-one_of,
}
use clawbot_server.Text.{trim_space}
use clawbot_server.Text.Trimming.{trim_space_idem}
use clawbot_server.Runs.Types.{Run, CreateInput, Cycle, CreateCycleInput}
use clawbot_server.Runs.Types.Governance.{AttachArtifactInput}
use clawbot_server.Runs.Types.Execution.{ModelProfile}
use clawbot_server.Runs.Status.{is_valid_execution_ring, execution_rings}
use clawbot_server.Runs.Policy.{
  Value, text, texts, lookup, printed, build_policy_input, evaluate_policy_outcome,
  execution_ring_from_any, is_external_target, is_web_uri,
}
use clawbot_server.Runs.Policy.Rings.{suffices, permits, any_external, evaluate_policy_outcome_lem}

-- The service of the profile is an external one.
abbrev pub external_profile : Option ModelProfile → Bool
external_profile none = false
external_profile (some profile) = is_external_target profile.base_url

-- The artifact is a web address.
abbrev pub web_artifact : Option AttachArtifactInput → Bool
web_artifact none = false
web_artifact (some artifact) = is_web_uri (trim_space artifact.uri)

ring_rows : All (λ ring. execution_ring_from_any (some (text ring)) ≡ ring) execution_rings
unfolding execution_ring_from_any printed trim_space
ring_rows = (refl, (refl, (refl, (refl, tt))))

ring_kept :
    (ring : String)
    → is_valid_execution_ring ring ≡ true
    → execution_ring_from_any (some (text ring)) ≡ ring
unfolding is_valid_execution_ring
ring_kept ring h =
    All-one_of (λ r. execution_ring_from_any (some (text r)) ≡ r) execution_rings ring ring_rows h

-- What the evaluation reads from the map of a request about a stored run.
module _ (action actor environment : String) (run : Run) where
  lookup_ring :
      (c : Option Cycle) (cc : Option CreateCycleInput) (a : Option AttachArtifactInput)
      (p : Option ModelProfile)
      → lookup "execution_ring"
          (build_policy_input action actor environment (some run) c none cc a p)
        ≡ some (text run.execution_ring)
  unfolding build_policy_input
  lookup_ring c cc a p = ground arith

  lookup_mode :
      (c : Option Cycle) (cc : Option CreateCycleInput) (a : Option AttachArtifactInput)
      (p : Option ModelProfile)
      → lookup "execution_mode"
          (build_policy_input action actor environment (some run) c none cc a p)
        ≡ some (text run.execution_mode)
  unfolding build_policy_input
  lookup_mode c cc a p = ground arith

module _ (action actor environment : String) (input : CreateInput) where
  created_ring :
      lookup "execution_ring"
        (build_policy_input action actor environment none none (some input) none none none)
      ≡ some (text input.execution_ring)
  unfolding build_policy_input
  created_ring = refl

  created_mode :
      lookup "execution_mode"
        (build_policy_input action actor environment none none (some input) none none none)
      ≡ some (text input.execution_mode)
  unfolding build_policy_input
  created_mode = refl

and_or_true : (a b : Bool) → (a && (b || true)) ≡ a
and_or_true a b = ground arith

abbrev targets_of : Option ModelProfile → Option Value
targets_of none = none
targets_of (some profile) = some (texts (profile.base_url ∷ []))

abbrev uri_of : Option AttachArtifactInput → Option Value
uri_of none = none
uri_of (some artifact) = some (text artifact.uri)

module _ (action actor environment : String) where
  lookup_targets :
      (r : Option Run) (c : Option Cycle) (cr : Option CreateInput) (cc : Option CreateCycleInput)
      (a : Option AttachArtifactInput) (p : Option ModelProfile)
      → lookup "outbound_targets" (build_policy_input action actor environment r c cr cc a p)
        ≡ targets_of p
  unfolding build_policy_input
  lookup_targets r c cr cc a p = ground arith

  lookup_uri :
      (r : Option Run) (c : Option Cycle) (cr : Option CreateInput) (cc : Option CreateCycleInput)
      (a : Option AttachArtifactInput) (p : Option ModelProfile)
      → lookup "artifact_uri" (build_policy_input action actor environment r c cr cc a p) ≡ uri_of a
  unfolding build_policy_input
  lookup_uri r c cr cc a p = ground arith

external_targets : (p : Option ModelProfile) → any_external (targets_of p) ≡ external_profile p
external_targets none = refl
external_targets (some profile) = ground arith

-- A missing value is printed as a word that is no web address.
web_uri :
    (a : Option AttachArtifactInput) → is_web_uri (trim_space (printed (uri_of a))) ≡ web_artifact a
unfolding printed trim_space
web_uri none = refl
web_uri (some artifact) = refl

permits_of_valid :
    (mode ring : String) (a : Option AttachArtifactInput) (p : Option ModelProfile)
    → is_valid_execution_ring ring ≡ true
    → permits
        (trim_space (printed (some (text mode))))
        ring
        (targets_of p)
        (trim_space (printed (uri_of a)))
      ≡ (suffices mode ring && (ring == "ring_3" || not (external_profile p || web_artifact a)))
unfolding printed
permits_of_valid mode ring a p known =
    rw (known, trim_space_idem mode, external_targets p, web_uri a) refl

-- A request to create a run whose ring is known is allowed exactly when the ring suffices for the
-- mode.
pub evaluate_create_request :
    (action actor environment : String) (input : CreateInput)
    → is_valid_execution_ring input.execution_ring ≡ true
    → (evaluate_policy_outcome
        (build_policy_input action actor environment none none (some input) none none none)).allow
      ≡ suffices input.execution_mode input.execution_ring
evaluate_create_request action actor environment input known =
    (evaluate_policy_outcome_lem _).0
    ∙ rw
        (
          created_ring action actor environment input,
          created_mode action actor environment input,
          lookup_targets action actor environment none none (some input) none none none,
          lookup_uri action actor environment none none (some input) none none none,
          ring_kept input.execution_ring known,
        )
        (permits_of_valid input.execution_mode input.execution_ring none none known
          ∙ and_or_true (suffices input.execution_mode input.execution_ring)
              (input.execution_ring == "ring_3"))

-- On a request about a stored run with a known ring, the policy asks for a ring that suffices for
-- the mode, and for ring 3 if the profile's service is external or the artifact is a web address.
-- It depends on nothing else: not on the action, the actor, the environment, the cycle or the ring of
-- the cycle.
pub evaluate_run_request :
    (action actor environment : String) (run : Run) (cycle : Option Cycle)
    (create_cycle : Option CreateCycleInput) (artifact : Option AttachArtifactInput)
    (profile : Option ModelProfile)
    → is_valid_execution_ring run.execution_ring ≡ true
    → (evaluate_policy_outcome (
        build_policy_input action actor environment
          (some run)
          cycle
          none
          create_cycle
          artifact
          profile)).allow
      ≡ (suffices run.execution_mode run.execution_ring
          && (run.execution_ring == "ring_3"
              || not (external_profile profile || web_artifact artifact)))
evaluate_run_request action actor environment run cycle create_cycle artifact profile known =
    (evaluate_policy_outcome_lem _).0
    ∙ rw
        (
          lookup_ring action actor environment run cycle create_cycle artifact profile,
          lookup_mode action actor environment run cycle create_cycle artifact profile,
          lookup_targets action actor environment (some run) cycle none create_cycle artifact
              profile,
          lookup_uri action actor environment (some run) cycle none create_cycle artifact profile,
          ring_kept run.execution_ring known,
        )
        (permits_of_valid run.execution_mode run.execution_ring artifact profile known)
