-- ===== src/Runs/Tests/Worlds.antt =====
-- A concrete database and services for the tests: a clock that ticks, statements that all succeed,
-- and a query that finds a latest event.
use Prim.Native.String
use clawbot_server.Base.{
  ℕ, ◌+◌, ◌≤◌, Bool, true, List, [], ◌∷◌, Option, none, some, ltb, if◌then◌else◌, ◌≡◌, refl, subst,
  arith, All, IsAmong, inl, inr, true, false,
}
use clawbot_server.Text.Digits.{decimal}
use clawbot_server.Runs.Types.Governance.{GovernanceAuditEvent}
use clawbot_server.Runs.Store.{Env, World}
use clawbot_server.Base.Int.{pos}
use clawbot_server.Runs.Config.{DependencyConfig}
use clawbot_server.Runs.Repository.Ledger.Chain.{PicksLatest}

-- The later of two events, or the first if they have the same time.
abbrev later_of : GovernanceAuditEvent → Option GovernanceAuditEvent → GovernanceAuditEvent
later_of event none = event
later_of event (some other) = if ltb event.created_at other.created_at then other else event

abbrev pub latest_of : List GovernanceAuditEvent → Option GovernanceAuditEvent
latest_of [] = none
latest_of (event ∷ events) = some (later_of event (latest_of events))

abbrev pub ticking : Env
ticking = record {
  clock = λ n. n + 100;
  new_id = λ n. String.◌++◌ "id-" (decimal n);
  succeeds = λ n. true;
  latest = latest_of;
  digest = λ previous input payload at. String.◌++◌ "sha256:" (decimal at);
  fetch = λ n namespace. none;
  persist = λ n namespace input. some "snapshot";
  infer = λ n request. none;
}

-- The event found is among those before and none is later.
abbrev IsLatest : List GovernanceAuditEvent → GovernanceAuditEvent → Type 0
IsLatest events event = IsAmong event events × All (λ e. e.created_at ≤ event.created_at) events

All-weaken :
    (a b : ℕ) (events : List GovernanceAuditEvent)
    → a ≤ b
    → All (λ e. e.created_at ≤ a) events
    → All (λ e. e.created_at ≤ b) events
All-weaken a b [] le h = tt
All-weaken a b (e ∷ events) le (p, h) = (omega arith, All-weaken a b events le h)

later_of-IsLatest :
    (event other : GovernanceAuditEvent) (events : List GovernanceAuditEvent) (before : Bool)
    → ltb event.created_at other.created_at ≡ before
    → IsLatest events other
    → IsLatest (event ∷ events) (if before then other else event)
later_of-IsLatest event other events true h (among, latest) = (inr among, (ground arith, latest))
later_of-IsLatest event other events false h (among, latest) = (
  inl refl,
  (omega arith, All-weaken other.created_at event.created_at events (ground arith) latest),
)

some-injective : {a b : GovernanceAuditEvent} → some a ≡ some b → a ≡ b
some-injective h = cc

latest_of-IsLatest :
    (events : List GovernanceAuditEvent) (event : GovernanceAuditEvent)
    → latest_of events ≡ some event
    → IsLatest events event
latest_of-IsLatest [] event h = cc
latest_of-IsLatest (e ∷ []) event h = ground arith
latest_of-IsLatest (e ∷ f ∷ events) event h =
    let other = later_of f (latest_of events) in
    let latest =
      later_of-IsLatest e other (f ∷ events) (ltb e.created_at other.created_at) refl
        (latest_of-IsLatest (f ∷ events) other refl) in
    subst (IsLatest (e ∷ f ∷ events)) (some-injective h) latest

none_case : (events : List GovernanceAuditEvent) → latest_of events ≡ none → events ≡ []
none_case [] h = refl
none_case (e ∷ events) h = cc

pub ticking-PicksLatest : PicksLatest ticking
ticking-PicksLatest = record { none_if_empty = none_case; picks = latest_of-IsLatest }

abbrev pub configured : DependencyConfig
configured = record {
  clawmem_base_url = "http://clawmem";
  inference_base_url = "";
  guardrail_timeout = pos 0;
  helper_timeout = pos 0;
  disable_local_ollama_guardrails = false;
  enable_compact_dual_payload = false;
  policy_bundle_id = "ach-governance";
  policy_bundle_version = "2026.1";
  environment = "test";
}

abbrev pub empty_world : World
empty_world = record {
  db = record {
    runs = [];
    cycles = [];
    artifacts = [];
    comparisons = [];
    profiles = [];
    decisions = [];
    reviews = [];
    chain = [];
    audits = [];
  };
  calls = 0;
  tx_start = none;
  notes = [];
}
