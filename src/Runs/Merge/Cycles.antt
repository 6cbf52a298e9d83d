-- ===== src/Runs/Merge/Cycles.antt =====
-- The statuses that updates of a cycle can reach.
use clawbot_server.Base.{
  String, Bool, true, List, [], ◌∷◌, Option, none, some, ◌≡◌, refl, arith, eq_iff, one_of, all_of,
  all_of-one_of, All, All-one_of, ◌∙◌, ◌⊎◌, inl, eq_refl,
}
use clawbot_server.Runs.Types.{Cycle, UpdateCycleInput}
use clawbot_server.Runs.Failure.{ok, >>=-eq-ok, ok-injective}
use clawbot_server.Runs.Status.{
  is_valid_cycle_status, is_valid_cycle_transition, allowed, is_valid_execution_ring,
  is_valid_guardrail_status,
}
use clawbot_server.Runs.Merge.{merge_status, merge_cycle}

-- What an update of a cycle keeps and ensures.
pub record Follows (before after : Cycle) : Type 0 where
  pub same_id : after.id ≡ before.id
  pub same_run : after.run_id ≡ before.run_id
  pub same_key : after.cycle_key ≡ before.cycle_key
  pub same_snapshot : after.memory_snapshot_ref ≡ before.memory_snapshot_ref
  pub ring_known : is_valid_execution_ring after.execution_ring ≡ true
  pub guardrail_known : is_valid_guardrail_status after.guardrail_status ≡ true
  pub status_allowed : is_valid_cycle_transition before.status after.status ≡ true
  pub status_known : (after.status ≡ before.status) ⊎ (is_valid_cycle_status after.status ≡ true)

is_valid_cycle_transition_refl : (s : String) → is_valid_cycle_transition s s ≡ true
unfolding is_valid_cycle_transition
is_valid_cycle_transition_refl s = rw (eq_refl s)

merge_status_follows :
    (current : String) (given : Option String) (next : String)
    → merge_status current given ≡ ok next
    → (is_valid_cycle_transition current next ≡ true)
      × ((next ≡ current) ⊎ (is_valid_cycle_status next ≡ true))
unfolding merge_status
merge_status_follows current none next h =
    rw (← ok-injective h) (is_valid_cycle_transition_refl current, inl refl)
merge_status_follows current (some given) next h = ground arith

-- An accepted update of a cycle moves its status along the table of transitions to a known status,
-- or leaves it; its ring and guardrail status are known; and the identifiers, the key and the
-- memory snapshot stay.
pub merge_cycle-Follows :
    (existing : Cycle) (input : UpdateCycleInput) (merged : Cycle)
    → merge_cycle existing input ≡ ok merged
    → Follows existing merged
unfolding merge_cycle
merge_cycle-Follows existing input merged h =
    let (status, moved, later) = >>=-eq-ok (merge_status existing.status input.status) _ h in
    let (allowed_move, known) = merge_status_follows existing.status input.status status moved in
    ground arith

-- A history of accepted updates.
pub data Updated (start : Cycle) : Cycle → Type 0 where
  here : Updated start start
  update :
      {before after : Cycle} (input : UpdateCycleInput)
      → Updated start before
      → merge_cycle before input ≡ ok after
      → Updated start after

-- A transition leads to the status itself or to one of its row.
transition_row :
    (current next : String)
    → is_valid_cycle_transition current next ≡ true
    → one_of (current ∷ allowed current) next ≡ true
unfolding is_valid_cycle_transition
transition_row current next h = ground (arith, eq_iff current next, eq_iff next current)

-- The rows of these statuses stay among them.
abbrev is_closed_set : List String → Bool
is_closed_set set = all_of (λ s. all_of (one_of set) (s ∷ allowed s)) set

closed_set_step :
    (set : List String) (current next : String)
    → is_closed_set set ≡ true
    → one_of set current ≡ true
    → is_valid_cycle_transition current next ≡ true
    → one_of set next ≡ true
closed_set_step set current next closed member step =
    all_of-one_of (one_of set) (current ∷ allowed current) next
      (all_of-one_of (λ s. all_of (one_of set) (s ∷ allowed s)) set current closed member)
      (transition_row current next step)

Updated-one_of :
    (set : List String) {start cycle : Cycle}
    → is_closed_set set ≡ true
    → Updated start cycle
    → one_of set start.status ≡ true
    → one_of set cycle.status ≡ true
Updated-one_of set closed here h = h
Updated-one_of set closed (update {before} {after} input earlier step) h =
    closed_set_step set before.status after.status closed (Updated-one_of set closed earlier h)
      (merge_cycle-Follows before input after step).status_allowed

-- What a cycle that starts as pending can become.
abbrev pub reachable_statuses : List String
reachable_statuses =
    "pending" ∷ "running" ∷ "review_pending" ∷ "approved" ∷ "rejected" ∷ "overridden" ∷ "deferred"
    ∷ "completed" ∷ "failed" ∷ "cancelled" ∷ []

reachable_closed : is_closed_set reachable_statuses ≡ true
unfolding allowed
reachable_closed = refl

-- However a pending cycle is updated, its status stays among ten: updates alone never make it
-- guardrail_deferred, failed_runtime or failed_policy.
pub Updated-reachable :
    {start cycle : Cycle}
    → start.status ≡ "pending"
    → Updated start cycle
    → one_of reachable_statuses cycle.status ≡ true
Updated-reachable pending history =
    Updated-one_of reachable_statuses reachable_closed history (rw pending refl)

abbrev pub final_statuses : List String
final_statuses =
    "failed_runtime" ∷ "failed_policy" ∷ "overridden" ∷ "completed" ∷ "failed" ∷ "cancelled" ∷ []

final_closed : All (λ s. is_closed_set (s ∷ []) ≡ true) final_statuses
unfolding allowed
final_closed = (refl, (refl, (refl, (refl, (refl, (refl, tt))))))

final_step :
    (current next : String)
    → one_of final_statuses current ≡ true
    → is_valid_cycle_transition current next ≡ true
    → next ≡ current
final_step current next h step =
    let closed =
      All-one_of (λ s. is_closed_set (s ∷ []) ≡ true) final_statuses current final_closed h in
    let found = closed_set_step (current ∷ []) current next closed (rw (eq_refl current)) step in
    ground (arith, eq_iff next current)

-- No update moves a cycle out of a final status.
pub Updated-final :
    {start cycle : Cycle}
    → one_of final_statuses start.status ≡ true
    → Updated start cycle
    → cycle.status ≡ start.status
Updated-final h here = refl
Updated-final {start} h (update {before} {after} input earlier step) =
    let same = Updated-final h earlier in
    final_step before.status after.status (rw same h)
      (merge_cycle-Follows before input after step).status_allowed
    ∙ same
