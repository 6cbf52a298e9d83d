-- ===== src/Runs/Status.antt =====
-- The words of runs, cycles, rings, guardrails and reviews, and the tests on them
-- (internal/platform/runs/types.go and service.go).
use clawbot_server.Base.{String, Bool, true, List, [], ◌∷◌, ◌==◌, if◌then◌else◌, one_of}
use clawbot_server.Base.Int.{ℤ, pos, negsuc}
use clawbot_server.Text.{trim_space, to_lower, dash_spaces}

abbrev pub run_statuses : List String
run_statuses =
    "pending" ∷ "scheduled" ∷ "running" ∷ "guardrail_deferred" ∷ "failed_runtime" ∷ "failed_policy"
    ∷ "review_pending" ∷ "approved" ∷ "rejected" ∷ "overridden" ∷ "deferred" ∷ "completed"
    ∷ "failed" ∷ "cancelled" ∷ "closed" ∷ []

abbrev pub cycle_statuses : List String
cycle_statuses =
    "pending" ∷ "running" ∷ "guardrail_deferred" ∷ "failed_runtime" ∷ "failed_policy"
    ∷ "review_pending" ∷ "approved" ∷ "rejected" ∷ "overridden" ∷ "deferred" ∷ "completed"
    ∷ "failed" ∷ "cancelled" ∷ []

abbrev pub run_types : List String
run_types = "replay_run" ∷ "agent_run" ∷ "week_run" ∷ []

abbrev pub execution_modes : List String
execution_modes = "deterministic" ∷ "llm" ∷ "dual" ∷ []

abbrev pub execution_rings : List String
execution_rings = "ring_0" ∷ "ring_1" ∷ "ring_2" ∷ "ring_3" ∷ []

abbrev pub guardrail_statuses : List String
guardrail_statuses =
    "guardrail_passed" ∷ "guardrail_flagged" ∷ "guardrail_timeout" ∷ "guardrail_unavailable"
    ∷ "guardrail_disabled" ∷ []

abbrev pub review_statuses : List String
review_statuses = "review_pending" ∷ "approved" ∷ "rejected" ∷ "overridden" ∷ []

unfoldable pub is_valid_run_status : String → Bool
is_valid_run_status status = one_of run_statuses status

unfoldable pub is_valid_run_type : String → Bool
is_valid_run_type run_type = one_of run_types run_type

unfoldable pub is_valid_execution_mode : String → Bool
is_valid_execution_mode mode = one_of execution_modes mode

unfoldable pub is_valid_cycle_status : String → Bool
is_valid_cycle_status status = one_of cycle_statuses status

unfoldable pub is_valid_execution_ring : String → Bool
is_valid_execution_ring value = one_of execution_rings value

unfoldable pub is_valid_guardrail_status : String → Bool
is_valid_guardrail_status value = one_of guardrail_statuses value

unfoldable pub is_valid_comparison_review_status : String → Bool
is_valid_comparison_review_status status = one_of review_statuses status

-- The row of `allowed` for a status; a missing row is empty.
unfoldable pub allowed : String → List String
allowed current =
    if current == "pending"
    then "running" ∷ "failed" ∷ "cancelled" ∷ []
    else if current == "running"
    then "review_pending" ∷ "completed" ∷ "failed" ∷ "cancelled" ∷ []
    else if current == "review_pending"
    then "approved" ∷ "rejected" ∷ "running" ∷ "deferred" ∷ "overridden" ∷ "completed" ∷ []
    else if current == "guardrail_deferred"
    then "review_pending" ∷ "deferred" ∷ "cancelled" ∷ "failed_runtime" ∷ []
    else if current == "approved"
    then "completed" ∷ []
    else if current == "rejected"
    then "running" ∷ "cancelled" ∷ []
    else if current == "deferred"
    then "running" ∷ []
    else []

unfoldable pub is_valid_cycle_transition : String → String → Bool
unfolding allowed
is_valid_cycle_transition current next =
    if current == next then true else one_of (allowed current) next

unfoldable pub default_execution_ring_for_mode : String → String
default_execution_ring_for_mode mode =
    if one_of ("llm" ∷ "dual" ∷ []) mode then "ring_2" else "ring_1"

unfoldable pub minimum_ring_for_mode : String → String
minimum_ring_for_mode mode =
    if one_of ("llm" ∷ "dual" ∷ []) (to_lower (trim_space mode)) then "ring_2" else "ring_1"

unfoldable pub ring_rank : String → ℤ
ring_rank ring =
    let word = to_lower (trim_space ring) in
    if word == "ring_0"
    then pos 0
    else if word == "ring_1"
    then pos 1
    else if word == "ring_2"
    then pos 2
    else if word == "ring_3"
    then pos 3
    else negsuc 0

unfoldable pub normalize_cycle_key : String → String
normalize_cycle_key value = dash_spaces (to_lower (trim_space value))
