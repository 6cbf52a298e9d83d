-- ===== src/Registry.antt =====
-- A registry of the platform, as internal/platform/bots and internal/platform/policies have it: rows
-- that are created and updated in transactions, each with an audit event. What the two differ in is
-- their kind.
pub mod Keeps
pub mod Mirrors
pub mod Valid
pub mod Bots
pub mod Policies
mod Tests
use clawbot_server.Base.{
  ℕ, suc, String, Bool, true, false, List, [], ◌∷◌, Option, none, some, or_else, ◌==◌,
  if◌then◌else◌, ◌≡◌,
}
use clawbot_server.Json.{Raw}
use clawbot_server.Runs.Failure as RunsFailure
use clawbot_server.Runs.Repository as Repository
use clawbot_server.Runs.Repository.{find_by, replace_by}

pub data RegistryError : Type 0 where
  name_required : RegistryError
  invalid_status : String → RegistryError
  not_found : RegistryError
  storage_failed no_rows : RegistryError

pub data Result {ℓ} (A : Type ℓ) : Type ℓ where
  ok : A → Result A
  err : RegistryError → Result A

abbrev from_column : RunsFailure.Result Raw → Result Raw
from_column (RunsFailure.ok raw) = ok raw
from_column (RunsFailure.err e) = err storage_failed

-- What a JSONB column makes of a text.
abbrev pub jsonb : Raw → Result Raw
jsonb raw = from_column (Repository.jsonb raw)

-- What a registry does with its rows `A`, its inputs `C` of `Create` and its inputs `U` of `Update`:
-- the checks of `Create`, the row of an insert from its identifier and the time, `merge`, and the row
-- of an update from the one before, the item and the time. A JSON column may refuse its text.
pub record Kind (A C U : Type 0) : Type 0 where
  pub prepare : C → Result C
  pub insert_columns : C → Result C
  pub new_row : C → String → ℕ → A
  pub merge : A → U → Result A
  pub update_columns : A → Result A
  pub stored : A → A → ℕ → A
  pub id_of : A → String
  pub entity_type : String
  pub created_event : String
  pub updated_event : String

-- A row of `audit_events`; the payload is the JSON of the row.
pub record RegistryEvent (A : Type 0) : Type 0 where
  pub event_type : String
  pub entity_type : String
  pub entity_id : String
  pub actor : String
  pub payload : A

-- The table and the audit events of its kind, newest first, the number of calls made so far and the
-- start of the open transaction.
pub record State (A : Type 0) : Type 0 where
  pub rows : List A
  pub audits : List (RegistryEvent A)
  pub calls : ℕ
  pub tx_start : Option ℕ

pub record Outside : Type 0 where
  pub clock : ℕ → ℕ
  pub new_id : ℕ → String
  pub succeeds : ℕ → Bool

abbrev pub Action : Type 0 → Type 0 → Type 0
Action A B = State A → Result B × State A

module _ {A : Type 0} where
  abbrev pub continue : {B D : Type 0} → Result B × State A → (B → Action A D) → Result D × State A
  continue (ok b, w) next = next b w
  continue (err e, w) next = (err e, w)

  infixl 5 ◌>>=◌ ◌>>◌
  abbrev pub ◌>>=◌ : {B D : Type 0} → Action A B → (B → Action A D) → Action A D
  ◌>>=◌ m next w = continue (m w) next

  abbrev pub ◌>>◌ : {B D : Type 0} → Action A B → Action A D → Action A D
  m >> rest = m >>= λ b. rest

  abbrev pub pure : {B : Type 0} → B → Action A B
  pure b w = (ok b, w)

  abbrev pub lift : {B : Type 0} → Result B → Action A B
  lift r w = (r, w)

  abbrev pub given : {B : Type 0} → Option B → RegistryError → Action A B
  given none e w = (err e, w)
  given (some b) e w = (ok b, w)

  abbrev pub rows_now : Action A (List A)
  rows_now w = (ok w.rows, w)

  abbrev pub put_rows : List A → Action A (Unit {0})
  put_rows rows w = (ok tt, record w { rows = rows })

  abbrev called : State A → State A
  called w = record w { calls = suc w.calls }

  module _ (env : Outside) where
    -- A statement, which gives the time of the transaction, or of the clock outside one.
    abbrev pub statement : Action A ℕ
    statement w = (
      if env.succeeds w.calls
          then ok (or_else w.tx_start (env.clock w.calls))
          else err storage_failed,
      called w,
    )

    -- `gen_random_uuid()`.
    abbrev pub draw_id : Action A String
    draw_id w = (ok (env.new_id w.calls), called w)

    abbrev rolled_back : State A → State A → State A
    rolled_back before w = record w { rows = before.rows; audits = before.audits; tx_start = none }

    abbrev pub close_tx : {B : Type 0} → State A → Result B × State A → Result B × State A
    close_tx before (err e, w) = (err e, rolled_back before w)
    close_tx before (ok b, w) =
        if env.succeeds w.calls
        then (ok b, record w { calls = suc w.calls; tx_start = none })
        else (err storage_failed, called (rolled_back before w))

    -- `Postgres.InTx`.
    abbrev pub within_tx : {B : Type 0} → Action A B → Action A B
    within_tx body w =
        if env.succeeds w.calls
        then close_tx w
            (body (record w { calls = suc w.calls; tx_start = some (env.clock w.calls) }))
        else (err storage_failed, called w)

    module _ {C U : Type 0} (kind : Kind A C U) where
      -- `recordAudit`.
      unfoldable pub record_change : String → String → A → Action A (Unit {0})
      record_change event_type actor row = statement >>= λ now w. (
        ok tt,
        record w {
          audits =
              record {
                event_type = event_type;
                entity_type = kind.entity_type;
                entity_id = kind.id_of row;
                actor = actor;
                payload = row;
              }
              ∷ w.audits;
        },
      )

      unfoldable pub get_entry : String → Action A A
      get_entry id = do statement; rows ← rows_now; given (find_by kind.id_of id rows) not_found

      unfoldable pub insert_row : C → Action A A
      insert_row input = do
        ready ← lift (kind.insert_columns input)
        now ← statement
        id ← draw_id
        rows ← rows_now
        let row = kind.new_row ready id now
        put_rows (row ∷ rows)
        pure row

      unfoldable pub update_row : A → Action A A
      update_row item = do
        ready ← lift (kind.update_columns item)
        now ← statement
        rows ← rows_now
        old ← given (find_by kind.id_of (kind.id_of item) rows) no_rows
        put_rows (replace_by kind.id_of (kind.id_of item) (λ row. kind.stored row ready now) rows)
        pure (kind.stored old ready now)

      -- The transaction of `Create`, and the two halves of that of `Update`.
      abbrev pub create_in_tx : C → String → Action A A
      create_in_tx ready actor = do
        row ← insert_row ready
        record_change kind.created_event actor row
        pure row

      abbrev pub merge_in_tx : U → String → A → Action A A
      merge_in_tx input actor existing = do
        merged ← lift (kind.merge existing input)
        row ← update_row merged
        record_change kind.updated_event actor row
        pure row

      unfoldable pub create_entry : C → String → Action A A
      create_entry input actor = do
        ready ← lift (kind.prepare input)
        within_tx (create_in_tx ready actor)

      unfoldable pub update_entry : String → U → String → Action A A
      update_entry id input actor =
          within_tx (do existing ← get_entry id; merge_in_tx input actor existing)
