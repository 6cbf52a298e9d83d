-- ===== src/Runs/Repository/Ledger/Chain.antt =====
-- The chain of governance events: when each event holds the hash of the one before it.
use clawbot_server.Base.{
  IsAmong, All-IsAmong, Option-cases, ◌≤◌, ◌<◌, List, [], ◌∷◌, none, some, ◌≡◌, refl, arith, All,
  inl, inr, ap,
}
use clawbot_server.Runs.Types.Governance.{GovernanceAuditEvent}
use clawbot_server.Runs.Store.{Env}
use clawbot_server.Runs.Repository.Ledger.{hash_of, newest}

-- Each event has the hash of the one that was appended before it, and the first has no hash.
abbrev pub IsLinked : List GovernanceAuditEvent → Type 0
IsLinked [] = Unit
IsLinked (event ∷ events) = (event.previous_event_hash ≡ hash_of (newest events)) × IsLinked events

-- Each event is later than those before it.
abbrev pub IsOrdered : List GovernanceAuditEvent → Type 0
IsOrdered [] = Unit
IsOrdered (event ∷ events) = All (λ e. e.created_at < event.created_at) events × IsOrdered events

-- What `ORDER BY created_at DESC LIMIT 1` promises: no row only from an empty table, and else a row
-- of the table than which none is later. Which of several such rows it gives is left open.
pub record PicksLatest (env : Env) : Type 0 where
  pub none_if_empty : (events : List GovernanceAuditEvent) → env.latest events ≡ none → events ≡ []
  pub picks :
      (events : List GovernanceAuditEvent) (event : GovernanceAuditEvent)
      → env.latest events ≡ some event
      → IsAmong event events × All (λ e. e.created_at ≤ event.created_at) events

latest_of_ordered :
    (event e : GovernanceAuditEvent) (events : List GovernanceAuditEvent)
    → All (λ o. o.created_at < event.created_at) events
    → event.created_at ≤ e.created_at
    → IsAmong e (event ∷ events)
    → e ≡ event
latest_of_ordered event e events earlier le (inl same) = same
latest_of_ordered event e events earlier le (inr i) =
    absurd
      (omega (arith, All-IsAmong (λ o. o.created_at < event.created_at) e events earlier i, le))

-- Where the times increase, the query finds the event appended last.
pub latest_newest :
    (env : Env) (events : List GovernanceAuditEvent)
    → PicksLatest env
    → IsOrdered events
    → hash_of (env.latest events) ≡ hash_of (newest events)
latest_newest env [] promise ordered = elim (Option-cases (env.latest [])) [
  | inl absent ↦ rw absent refl
  | inr (e, found) ↦ absurd (promise.picks [] e found).0
]
latest_newest env (event ∷ events) promise (earlier, ordered) =
    elim (Option-cases (env.latest (event ∷ events))) [
      | inl absent ↦ cc (promise.none_if_empty (event ∷ events) absent)
      | inr (e, found) ↦
          let (member, (le, rest)) = promise.picks (event ∷ events) e found in
          rw found
            (ap (λ o. o.current_event_hash) (latest_of_ordered event e events earlier le member))
    ]
