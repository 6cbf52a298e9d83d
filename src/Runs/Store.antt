-- ===== src/Runs/Store.antt =====
-- The state of the runs service and the actions on it: the tables of the database, the transactions
-- of internal/platform/store/postgres.go, and what the service calls outside.
pub mod Atomic
pub mod Steps
pub mod Quiet
pub mod Outcomes
pub mod Returns
use clawbot_server.Base.{
  ℕ, suc, String, Bool, true, false, List, Option, none, some, or_else, if◌then◌else◌,
}
use clawbot_server.Json.{Raw, Fields}
use clawbot_server.Runs.Types.{MemoryNamespace, Run, Cycle}
use clawbot_server.Runs.Types.Governance.{
  Artifact, Comparison, PolicyDecision, ReviewActionRecord, GovernanceAuditEvent,
  GovernanceAuditEventInput,
}
use clawbot_server.Runs.Types.Execution.{
  ModelProfile, MemoryContext, MemoryWriteInput, InferenceRequest, InferenceResponse,
}
use clawbot_server.Runs.Failure
use clawbot_server.Runs.Failure.{Failure, Result, ok, err}

-- What `recordAudit` marshals.
pub data Payload : Type 0 where
  of_run : Run → Payload
  of_cycle : Cycle → Payload
  of_artifact : Artifact → Payload
  of_comparison : Comparison → Payload
  of_profile : ModelProfile → Payload
  of_fields : Fields → Payload

-- A row of `audit_events`: `audit.Event` of internal/platform/audit/types.go.
pub record AuditEvent : Type 0 where
  pub event_type : String
  pub entity_type : String
  pub entity_id : String
  pub actor : String
  pub payload : Payload

-- The tables, each with its newest row first.
pub record Db : Type 0 where
  pub runs : List Run
  pub cycles : List Cycle
  pub artifacts : List Artifact
  pub comparisons : List Comparison
  pub profiles : List ModelProfile
  pub decisions : List PolicyDecision
  pub reviews : List ReviewActionRecord
  pub chain : List GovernanceAuditEvent
  pub audits : List AuditEvent

-- The database, the number of calls made outside so far, the start of the open transaction if there
-- is one, and the notes that the memory service was sent.
pub record World : Type 0 where
  pub db : Db
  pub calls : ℕ
  pub tx_start : Option ℕ
  pub notes : List (MemoryNamespace × MemoryWriteInput)

-- What is outside the program: the clock, the identifiers that the database generates, whether a
-- statement succeeds, which row a query for the newest audit event finds, the hash of an event, and
-- the memory and inference services. Each may depend on the number of calls made before.
pub record Env : Type 0 where
  pub clock : ℕ → ℕ
  pub new_id : ℕ → String
  pub succeeds : ℕ → Bool
  pub latest : List GovernanceAuditEvent → Option GovernanceAuditEvent
  pub digest : String → GovernanceAuditEventInput → Raw → ℕ → String
  pub fetch : ℕ → MemoryNamespace → Option MemoryContext
  pub persist : ℕ → MemoryNamespace → MemoryWriteInput → Option String
  pub infer : ℕ → InferenceRequest → Option InferenceResponse

-- A call that may fail; the state comes back after a failure too.
abbrev pub Action : Type 0 → Type 0
Action A = World → Result A × World

module _ {A : Type 0} where
  unfoldable pub pure : A → Action A
  pure a w = (ok a, w)

  unfoldable pub fail : Failure → Action A
  fail e w = (err e, w)

  -- A step that does not touch the state.
  unfoldable pub lift : Result A → Action A
  lift r w = (r, w)

  -- The row that a query found, or the error for none.
  unfoldable pub found : Option A → Failure → Action A
  found none e w = (err e, w)
  found (some a) e w = (ok a, w)

module _ {A B : Type 0} where
  abbrev pub continue : Result A → (A → Action B) → Action B
  continue (ok a) f w = f a w
  continue (err e) f w = (err e, w)

  infixl 5 ◌>>=◌ ◌>>◌
  unfoldable pub ◌>>=◌ : Action A → (A → Action B) → Action B
  ◌>>=◌ m f w = let (r, w') = m w in continue r f w'

  abbrev pub ◌>>◌ : Action A → Action B → Action B
  m >> k = m >>= λ _. k

unfoldable pub require : Bool → Failure → Action (Unit {0})
require b e w = (if b then ok tt else err e, w)

unfoldable pub tables : Action Db
tables w = (ok w.db, w)

unfoldable pub store : Db → Action (Unit {0})
store db w = (ok tt, record w { db = db })

-- One more call outside.
abbrev pub called : World → World
called w = record w { calls = suc w.calls }

module _ (env : Env) where
  -- One statement to the database, which may fail. It gives the value of `NOW()`: the start of the
  -- transaction, or the clock outside one.
  unfoldable pub statement : Action ℕ
  statement w = (
    if env.succeeds w.calls
        then ok (or_else w.tx_start (env.clock w.calls))
        else err Failure.storage_failed,
    called w,
  )

  -- `gen_random_uuid()`.
  unfoldable pub draw_id : Action String
  draw_id w = (ok (env.new_id w.calls), called w)

  -- `time.Now()`.
  unfoldable pub time_now : Action ℕ
  time_now w = (ok (env.clock w.calls), called w)

  -- The end of a transaction: a commit, which may fail, or a rollback to the tables before.
  unfoldable pub settle : {A : Type 0} → Db → Result A × World → Result A × World
  settle before (err e, w) = (err e, record w { db = before; tx_start = none })
  settle before (ok a, w) =
      if env.succeeds w.calls then (ok a, record w { calls = suc w.calls; tx_start = none }) else (
        err Failure.storage_failed,
        record w { db = before; calls = suc w.calls; tx_start = none },
      )

  -- `Postgres.InTx`.
  unfoldable pub in_tx : {A : Type 0} → Action A → Action A
  in_tx body w =
      if env.succeeds w.calls
      then settle w.db
          (body (record w { calls = suc w.calls; tx_start = some (env.clock w.calls) }))
      else (err Failure.storage_failed, called w)
