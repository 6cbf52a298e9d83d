-- ===== src/Runs/Merge/Words.antt =====
-- What an accepted update of a run leaves: valid words, and fields that no update reaches.
use clawbot_server.Base.{subst, String, true, false, ◌≡◌, refl, arith, ◌==◌, ◌↔◌, one_of_ne}
use clawbot_server.Runs.Types.{Run, UpdateInput}
use clawbot_server.Runs.Failure.{ok, >>=-eq-ok, ok-injective}
use clawbot_server.Runs.Status.{
  is_valid_run_status, is_valid_run_type, is_valid_execution_mode, is_valid_execution_ring,
  is_valid_guardrail_status, execution_rings, guardrail_statuses,
}
use clawbot_server.Runs.Namespace.{or_text}
use clawbot_server.Runs.Merge.{set_text, assign_run, check_run, default_run, merge_run}

-- The words of a run are all known, and it has a name.
pub record AreValid (name status run_type mode ring guardrail : String) : Type 0 where
  pub named : (name == "") ≡ false
  pub status_known : is_valid_run_status status ≡ true
  pub run_type_known : is_valid_run_type run_type ≡ true
  pub mode_known : is_valid_execution_mode mode ≡ true
  pub ring_known : is_valid_execution_ring ring ≡ true
  pub guardrail_known : is_valid_guardrail_status guardrail ≡ true

abbrev pub HasValidWords : Run → Type 0
HasValidWords run =
    AreValid run.name run.status run.run_type run.execution_mode run.execution_ring
      run.guardrail_status

-- The words of a run after an input has set some of them.
abbrev pub AreSetTo : Run → UpdateInput → Run → Type 0
AreSetTo existing input merged =
    (merged.name ≡ set_text input.name existing.name)
    × (merged.status ≡ set_text input.status existing.status)
    × (merged.run_type ≡ set_text input.run_type existing.run_type)
    × (merged.execution_mode ≡ set_text input.execution_mode existing.execution_mode)
    × (merged.execution_ring ≡ set_text input.execution_ring existing.execution_ring)
    × (merged.guardrail_status ≡ set_text input.guardrail_status existing.guardrail_status)

or_text_of_full : (value fallback : String) → (value == "") ≡ false → or_text value fallback ≡ value
or_text_of_full value fallback h = rw h

is_valid_execution_ring-full :
    (ring : String) → is_valid_execution_ring ring ≡ true → (ring == "") ≡ false
unfolding is_valid_execution_ring
is_valid_execution_ring-full ring h = one_of_ne execution_rings ring "" h refl

is_valid_guardrail_status-full :
    (status : String) → is_valid_guardrail_status status ≡ true → (status == "") ≡ false
unfolding is_valid_guardrail_status
is_valid_guardrail_status-full status h = one_of_ne guardrail_statuses status "" h refl

check_run_iff : (run : Run) → (check_run run ≡ ok tt) ↔ HasValidWords run
unfolding check_run
check_run_iff run = (λ h. ground arith, λ h. ground arith)

-- The words that the checks see are those that the input sets, or else those of the run.
assign_run-AreSetTo :
    (existing : Run) (input : UpdateInput) → AreSetTo existing input (assign_run existing input)
unfolding assign_run
assign_run-AreSetTo existing input = (refl, refl, refl, refl, refl, refl)

-- An update is accepted exactly when the words that it sets, and the old ones that it leaves, are
-- valid and the name is not empty.
pub merge_run-accepts_iff :
    (existing : Run) (input : UpdateInput)
    → ((merged : Run) × (merge_run existing input ≡ ok merged))
      ↔ AreValid
          (set_text input.name existing.name)
          (set_text input.status existing.status)
          (set_text input.run_type existing.run_type)
          (set_text input.execution_mode existing.execution_mode)
          (set_text input.execution_ring existing.execution_ring)
          (set_text input.guardrail_status existing.guardrail_status)
unfolding merge_run assign_run
merge_run-accepts_iff existing input = (
  λ (merged, h).
      let (done, checked, _) = >>=-eq-ok (check_run (assign_run existing input)) _ h in
      (check_run_iff (assign_run existing input)).0 checked,
  λ valid. (
    default_run (assign_run existing input),
    rw ((check_run_iff (assign_run existing input)).1 valid),
  ),
)

default_run-AreSetTo :
    (existing : Run) (input : UpdateInput) (run : Run)
    → HasValidWords run
    → AreSetTo existing input run
    → HasValidWords (default_run run) × AreSetTo existing input (default_run run)
unfolding default_run
default_run-AreSetTo existing input run valid set =
    rw
      (or_text_of_full run.execution_ring _
        (is_valid_execution_ring-full run.execution_ring valid.ring_known))
      (rw
        (or_text_of_full run.guardrail_status _
          (is_valid_guardrail_status-full run.guardrail_status valid.guardrail_known))
        (valid, set))

-- What no update of a run reaches.
abbrev pub HasOriginOf : Run → Run → Type 0
HasOriginOf existing merged =
    (merged.id ≡ existing.id)
    × (merged.created_by ≡ existing.created_by)
    × (merged.created_at ≡ existing.created_at)
    × (merged.updated_at ≡ existing.updated_at)

default_run-HasOriginOf :
    (existing : Run) (input : UpdateInput)
    → HasOriginOf existing (default_run (assign_run existing input))
unfolding default_run assign_run
default_run-HasOriginOf existing input = (refl, refl, refl, refl)

-- The run that an accepted update gives has valid words, and they are those that the input sets, or
-- else the old ones: the defaults for an empty ring and an empty guardrail status are never used.
-- No update changes the identifier, the creator or the times of creation and of the last change.
pub merge_run_words :
    (existing : Run) (input : UpdateInput) (merged : Run)
    → merge_run existing input ≡ ok merged
    → HasValidWords merged × AreSetTo existing input merged × HasOriginOf existing merged
unfolding merge_run
merge_run_words existing input merged h =
    let run = assign_run existing input in
    let (done, checked, same) = >>=-eq-ok (check_run run) _ h in
    let (valid, set) =
      default_run-AreSetTo existing input run ((check_run_iff run).0 checked)
        (assign_run-AreSetTo existing input) in
    let to : default_run run ≡ merged = ok-injective same in
    (
      subst HasValidWords to valid,
      subst (AreSetTo existing input) to set,
      subst (HasOriginOf existing) to (default_run-HasOriginOf existing input),
    )
