-- ===== src/Runs/Policy.antt =====
-- The policy decision before a run or a cycle acts: `buildPolicyInput` and `evaluatePolicyOutcome`
-- of internal/platform/runs/service.go.
pub mod Rings
pub mod Requests
use Prim.Native.String
use clawbot_server.Base.{
  String, Bool, true, false, not, ◌&&◌, ◌||◌, List, [], ◌∷◌, ◌++◌, Option, none, some, ◌==◌,
  starts_with, if◌then◌else◌,
}
use clawbot_server.Base.Int.{ltb_ℤ}
use clawbot_server.Text.{trim_space, to_lower, contains}
use clawbot_server.Runs.Types.{Run, CreateInput, Cycle, CreateCycleInput}
use clawbot_server.Runs.Types.Governance.{AttachArtifactInput}
use clawbot_server.Runs.Types.Execution.{ModelProfile}
use clawbot_server.Runs.Status.{is_valid_execution_ring, minimum_ring_for_mode, ring_rank}

-- A value of the map `map[string]any` that `buildPolicyInput` fills.
pub data Value : Type 0 where
  text : String → Value
  flag : Bool → Value
  texts : List String → Value

abbrev pub PolicyInput : Type 0
PolicyInput = List (String × Value)

-- `input[key]`.
abbrev pub lookup : String → PolicyInput → Option Value
lookup key [] = none
lookup key ((k, v) ∷ input) = if k == key then some v else lookup key input

-- `payload[key] = value`; the newest entry of a key is the one that `lookup` finds.
abbrev pub insert : String → Value → PolicyInput → PolicyInput
insert key v input = (key, v) ∷ input

abbrev with_run : Option Run → PolicyInput → PolicyInput
with_run none input = input
with_run (some run) input = insert "run_type" (text run.run_type) (
    insert "execution_mode" (text run.execution_mode) (
      insert "execution_ring" (text run.execution_ring) (
        insert "repo" (text run.repo) (
          insert "run_namespace" (text run.memory_namespace.run_namespace) (
            insert "model_profile" (text run.model_profile) (
              insert "prompt_pack_version" (text run.prompt_pack_version)
                (insert "rule_pack_version" (text run.rule_pack_version) input)))))))

abbrev with_cycle : Option Cycle → PolicyInput → PolicyInput
with_cycle none input = input
with_cycle (some cycle) input = insert "cycle_id" (text cycle.id) (
    insert "cycle_key" (text cycle.cycle_key)
      (insert "cycle_execution_ring" (text cycle.execution_ring) input))

abbrev with_create_run : Option CreateInput → PolicyInput → PolicyInput
with_create_run none input = input
with_create_run (some run) input = insert "run_type" (text run.run_type) (
    insert "execution_mode" (text run.execution_mode) (
      insert "execution_ring" (text run.execution_ring) (
        insert "repo" (text run.repo) (
          insert "run_namespace" (text run.memory_namespace.run_namespace) (
            insert "model_profile" (text run.model_profile) (
              insert "prompt_pack_version" (text run.prompt_pack_version)
                (insert "rule_pack_version" (text run.rule_pack_version) input)))))))

abbrev with_create_cycle : Option CreateCycleInput → PolicyInput → PolicyInput
with_create_cycle none input = input
with_create_cycle (some cycle) input =
    insert "cycle_key" (text cycle.cycle_key)
      (insert "cycle_execution_ring" (text cycle.execution_ring) input)

abbrev with_artifact : Option AttachArtifactInput → PolicyInput → PolicyInput
with_artifact none input = input
with_artifact (some artifact) input = insert "artifact_uri" (text artifact.uri) input

abbrev with_profile : Option ModelProfile → PolicyInput → PolicyInput
with_profile none input = input
with_profile (some profile) input = insert "guardrails_enabled" (flag profile.enable_guardrails) (
    insert "outbound_targets" (texts (profile.base_url ∷ []))
      (insert "provider" (text profile.provider) input))

unfoldable pub build_policy_input :
    String
    → String
    → String
    → Option Run
    → Option Cycle
    → Option CreateInput
    → Option CreateCycleInput
    → Option AttachArtifactInput
    → Option ModelProfile
    → PolicyInput
build_policy_input action actor environment run cycle create_run create_cycle artifact profile =
    with_profile profile (
      with_artifact artifact (
        with_create_cycle create_cycle (
          with_create_run create_run (
            with_cycle cycle (
              with_run run (
                insert "action" (text action)
                  (insert "actor" (text actor) (insert "environment" (text environment) []))))))))

pub record PolicyOutcome : Type 0 where
  pub allow : Bool
  pub reason_code : String
  pub conditions_applied : List String
  pub fallback_mode : String

-- The texts with a space between each two.
join_spaces : List String → String
join_spaces [] = ""
join_spaces (s ∷ []) = s
join_spaces (s ∷ t ∷ more) = String.◌++◌ s (String.◌++◌ " " (join_spaces (t ∷ more)))

-- `fmt.Sprintf("%v", value)`.
unfoldable pub printed : Option Value → String
unfolding join_spaces
printed none = "<nil>"
printed (some (text s)) = s
printed (some (flag true)) = "true"
printed (some (flag false)) = "false"
printed (some (texts ss)) = String.◌++◌ "[" (String.◌++◌ (join_spaces ss) "]")

unfoldable pub execution_ring_from_any : Option Value → String
unfolding printed
execution_ring_from_any value =
    let ring = trim_space (printed value) in
    if ring == "" || ring == "<nil>" then "ring_1" else ring

unfoldable pub is_external_target : String → Bool
is_external_target target =
    let word = to_lower (trim_space target) in
    if word == ""
      || contains word "127.0.0.1"
      || contains word "localhost"
      || contains word "ai-precision"
    then false
    else starts_with word "http://" || starts_with word "https://"

-- `ringRank(ring) < ringRank(string(ExecutionRing3))`.
abbrev pub below_ring_3 : String → Bool
below_ring_3 ring = ltb_ℤ (ring_rank ring) (ring_rank "ring_3")

-- The loop over the targets: whether one of them is denied.
unfoldable pub denies_target : String → Option Value → Bool
denies_target ring (some (texts [])) = false
denies_target ring (some (texts (target ∷ targets))) =
    (is_external_target target && below_ring_3 ring) || denies_target ring (some (texts targets))
denies_target ring _ = false

abbrev pub is_web_uri : String → Bool
is_web_uri uri = starts_with uri "http://" || starts_with uri "https://"

abbrev deny : String → String → PolicyOutcome
deny reason condition = record {
  allow = false;
  reason_code = reason;
  conditions_applied = condition ∷ [];
  fallback_mode = "deny";
}

abbrev minimum_ring : String → String → String
minimum_ring required suffix = String.◌++◌ "minimum_ring_" (String.◌++◌ required suffix)

-- The ladder of checks, on what each of them finds.
unfoldable pub verdict : Bool → Bool → Bool → Bool → String → String → PolicyOutcome
verdict known too_low external web required action =
    if not known
    then deny "invalid_execution_ring" "valid_execution_ring_required"
    else if too_low
    then deny "execution_ring_too_low" (minimum_ring required "_required")
    else if external
    then deny "external_target_requires_ring_3" "ring_3_required_for_external_actions"
    else if web
    then deny "artifact_external_uri_requires_ring_3" "ring_3_required_for_external_actions"
    else record {
      allow = true;
      reason_code = "policy_allow";
      conditions_applied =
          minimum_ring required "_satisfied"
          ∷ (if starts_with action "run.review." then "review_action_allowed" ∷ [] else []);
      fallback_mode = "";
    }

unfoldable pub evaluate_policy_outcome : PolicyInput → PolicyOutcome
evaluate_policy_outcome input =
    let ring = execution_ring_from_any (lookup "execution_ring" input) in
    let mode = trim_space (printed (lookup "execution_mode" input)) in
    let action = trim_space (printed (lookup "action" input)) in
    let required = minimum_ring_for_mode mode in
    let uri = trim_space (printed (lookup "artifact_uri" input)) in
    verdict (is_valid_execution_ring ring) (ltb_ℤ (ring_rank ring) (ring_rank required))
      (denies_target ring (lookup "outbound_targets" input))
      (not (uri == "") && (is_web_uri uri && below_ring_3 ring)) required action
