-- ===== src/Registry/Keeps.antt =====
-- Invariants of the transactions of a registry.
use clawbot_server.Base.{List, ◌≡◌, refl, Bool-cases, inl, inr, ◌⊎◌}
use clawbot_server.Registry.{
  RegistryEvent, State, Outside, Result, ok, err, RegistryError, Action, continue, within_tx,
  close_tx,
}

pub Result-cases :
    {A : Type 0} (r : Result A) → ((a : A) × (r ≡ ok a)) ⊎ ((e : RegistryError) × (r ≡ err e))
Result-cases (ok a) = inl (a, refl)
Result-cases (err e) = inr (e, refl)

module _ {A : Type 0} where
  -- What holds of a result and of the state with it, where there is one.
  abbrev pub Gives : {B : Type 0} → (B → State A → Type 0) → Result B × State A → Type 0
  Gives P (ok b, w) = P b w
  Gives P (err e, w) = Unit {0}

  -- A step of a transaction, and what follows it.
  pub then-Gives :
      {B D : Type 0} (P : B → State A → Type 0) (Q : D → State A → Type 0) (r : Result B × State A)
      (next : B → Action A D)
      → Gives P r
      → ((b : B) (w : State A) → P b w → Gives Q (next b w))
      → Gives Q (continue r next)
  then-Gives P Q (ok b, w) next gives later = later b w gives
  then-Gives P Q (err e, w) next gives later = tt

  module _ (env : Outside) (Holds : List A → List (RegistryEvent A) → Type 0) where
    -- An action that keeps what holds of the rows and of the events.
    abbrev pub Stays : {B : Type 0} → Action A B → Type 0
    Stays m = (w : State A) → Holds w.rows w.audits → Holds (m w).1.rows (m w).1.audits

    close_tx-Stays :
        {B : Type 0} (before : State A) (r : Result B × State A)
        → Holds before.rows before.audits
        → Gives (λ b w. Holds w.rows w.audits) r
        → Holds (close_tx env before r).1.rows (close_tx env before r).1.audits
    close_tx-Stays before (ok b, w) holds gives = elim (Bool-cases (env.succeeds w.calls)) [
      | inl committed ↦ rw committed gives
      | inr failed ↦ rw failed holds
    ]
    close_tx-Stays before (err e, w) holds gives = holds

    pub within_tx-Stays :
        {B : Type 0} (body : Action A B)
        → ((w : State A) → Holds w.rows w.audits → Gives (λ b w'. Holds w'.rows w'.audits) (body w))
        → Stays (within_tx env body)
    within_tx-Stays body gives w holds = elim (Bool-cases (env.succeeds w.calls)) [
      | inl begun ↦ rw begun (close_tx-Stays w _ holds (gives _ holds))
      | inr failed ↦ rw failed holds
    ]
