-- ===== src/Runs/Tests/Decisions.antt =====
-- Tests of the policy decisions.
use clawbot_server.Base.{◌≡◌, refl, [], ◌∷◌, true, none, some, not, ◌&&◌, ◌||◌, ◌==◌}
use clawbot_server.Text.{trim_space}
use clawbot_server.Runs.Status.{is_valid_execution_ring}
use clawbot_server.Runs.Policy.{
  PolicyInput, lookup, text, texts, printed, build_policy_input, evaluate_policy_outcome,
  execution_ring_from_any,
}
use clawbot_server.Runs.Policy.Rings.{permits, suffices, IsCoherent, evaluate_policy_outcome_lem}
use clawbot_server.Runs.Policy.Requests.{external_profile, web_artifact, evaluate_run_request}
use clawbot_server.Runs.Tests.Samples.{week_run, first_day, local_profile, web_report}

abbrev outside_request : PolicyInput
outside_request =
    ("outbound_targets", texts ("http://10.0.0.1" ∷ [])) ∷ ("execution_ring", text "ring_2") ∷ []

evaluate_policy_outcome_lem_example :
    ((evaluate_policy_outcome outside_request).allow
      ≡ permits
          (trim_space (printed (lookup "execution_mode" outside_request)))
          (execution_ring_from_any (lookup "execution_ring" outside_request))
          (lookup "outbound_targets" outside_request)
          (trim_space (printed (lookup "artifact_uri" outside_request))))
    × IsCoherent (evaluate_policy_outcome outside_request)
evaluate_policy_outcome_lem_example = evaluate_policy_outcome_lem outside_request

week_run_ring_known : is_valid_execution_ring "ring_2" ≡ true
unfolding is_valid_execution_ring
week_run_ring_known = refl

evaluate_run_request_example :
    (evaluate_policy_outcome (
      build_policy_input "run.artifact.attach" "ann" "clawbot-server"
        (some week_run)
        (some first_day)
        none
        none
        (some web_report)
        (some local_profile))).allow
    ≡ (suffices "dual" "ring_2"
        && ("ring_2" == "ring_3"
            || not (external_profile (some local_profile) || web_artifact (some web_report))))
evaluate_run_request_example =
    evaluate_run_request "run.artifact.attach" "ann" "clawbot-server" week_run (some first_day) none
      (some web_report) (some local_profile) week_run_ring_known
