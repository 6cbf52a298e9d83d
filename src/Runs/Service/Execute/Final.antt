-- ===== src/Runs/Service/Execute/Final.antt =====
-- The statuses at the end of an execution: `executeRun` of internal/platform/runs/service.go.
use clawbot_server.Base.{
  String, true, false, ◌||◌, ◌≡◌, ◌≢◌, refl, inl, inr, ◌⊎◌, ◌==◌, Bool-cases, eq_of_test,
  ne_of_test,
}
use clawbot_server.Runs.Service.Finish.{final_run_status}

-- What an execution in this mode, whose guardrail ended with this status, comes to.
abbrev pub IsFinal : String → String → String → Type 0
IsFinal mode guardrail status =
    ((mode ≡ "deterministic") × (status ≡ "completed"))
    ⊎ ((mode ≢ "deterministic")
        × ((guardrail ≡ "guardrail_timeout") ⊎ (guardrail ≡ "guardrail_unavailable"))
        × (status ≡ "guardrail_deferred"))
    ⊎ ((mode ≢ "deterministic")
        × (guardrail ≢ "guardrail_timeout")
        × (guardrail ≢ "guardrail_unavailable")
        × (status ≡ "review_pending"))

-- The three ways that the tests on the mode and on the guardrail come out.
data Outcome (mode guardrail : String) : Type 0 where
  finished : (mode == "deterministic") ≡ true → Outcome mode guardrail
  deferred :
      (mode == "deterministic") ≡ false
      → (guardrail == "guardrail_timeout" || guardrail == "guardrail_unavailable") ≡ true
      → Outcome mode guardrail
  reviewed :
      (mode == "deterministic") ≡ false
      → (guardrail == "guardrail_timeout" || guardrail == "guardrail_unavailable") ≡ false
      → Outcome mode guardrail

outcome : (mode guardrail : String) → Outcome mode guardrail
outcome mode guardrail = elim (Bool-cases (mode == "deterministic")) [
  | inl is ↦ Outcome.finished is
  | inr other ↦
      elim (Bool-cases (guardrail == "guardrail_timeout" || guardrail == "guardrail_unavailable")) [
        | inl late ↦ Outcome.deferred other late
        | inr known ↦ Outcome.reviewed other known
      ]
]

either_of_test : (s a b : String) → (s == a || s == b) ≡ true → (s ≡ a) ⊎ (s ≡ b)
either_of_test s a b h = elim (Bool-cases (s == a)) [
  | inl first ↦ inl (eq_of_test s a first)
  | inr other ↦ inr (eq_of_test s b (rw other at h))
]

neither_of_test : (s a b : String) → (s == a || s == b) ≡ false → (s ≢ a) × (s ≢ b)
neither_of_test s a b h = elim (Bool-cases (s == a)) [
  | inl first ↦ cc (rw first at h)
  | inr other ↦ (ne_of_test s a other, ne_of_test s b (rw other at h))
]

pub final_run_status-IsFinal :
    (mode guardrail : String) → IsFinal mode guardrail (final_run_status mode guardrail)
final_run_status-IsFinal mode guardrail = elim (outcome mode guardrail) [
  | Outcome.finished is ↦ rw is (inl (eq_of_test mode "deterministic" is, refl))
  | Outcome.deferred other late ↦
      rw (other, late)
        (inr (
          inl (
            ne_of_test mode "deterministic" other,
            either_of_test guardrail "guardrail_timeout" "guardrail_unavailable" late,
            refl,
          )))
  | Outcome.reviewed other known ↦
      let (timely, there) =
        neither_of_test guardrail "guardrail_timeout" "guardrail_unavailable" known in
      rw (other, known) (inr (inr (ne_of_test mode "deterministic" other, timely, there, refl)))
]
