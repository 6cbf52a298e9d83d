-- ===== src/Runs/Store/Returns.antt =====
-- When an action returns a result and no failure: one rule for each way to build an action.
use clawbot_server.Base.{Bool, true, ℕ, suc, some, ◌≡◌, refl, or_else}
use clawbot_server.Runs.Failure.{Failure, Result, ok, err}
use clawbot_server.Runs.Store.{
  World, Db, Env, Action, pure, lift, ◌>>=◌, require, tables, store, statement, draw_id, time_now,
  settle, in_tx,
}

-- From every world the action gives a result with `R`.
pub record Returns {A : Type 0} (m : Action A) (R : A → Type 0) : Type 0 where
  pub gives : (w : World) → (a : A) × ((m w).0 ≡ ok a) × R a

-- A result, of which nothing else is known.
abbrev pub AnyResult : {A : Type 0} → A → Type 0
AnyResult a = Unit {0}

module _ {A B : Type 0} {R : A → Type 0} {S : B → Type 0} where
  pub Returns-bind :
      (m : Action A) (f : A → Action B)
      → Returns m R
      → ((a : A) → R a → Returns (f a) S)
      → Returns (m >>= f) S
  unfolding ◌>>=◌
  Returns-bind m f h k = record {
    gives = λ w.
        let (a, equal, r) = h.gives w in
        let (b, same, s) = (k a r).gives (m w).1 in (b, rw equal same, s);
  }

module _ {A : Type 0} {R : A → Type 0} where
  pub Returns-pure : (a : A) → R a → Returns (pure a) R
  unfolding pure
  Returns-pure a r = record { gives = λ w. (a, refl, r) }

  pub Returns-lift : (a : A) (given : Result A) → given ≡ ok a → R a → Returns (lift given) R
  unfolding lift
  Returns-lift a given equal r = record { gives = λ w. (a, equal, r) }

pub Returns-require : (b : Bool) (e : Failure) → b ≡ true → Returns (require b e) AnyResult
unfolding require
Returns-require b e holds = record { gives = λ w. (tt, rw holds refl, tt) }

pub Returns-tables : Returns tables AnyResult
unfolding tables
Returns-tables = record { gives = λ w. (w.db, refl, tt) }

pub Returns-store : (db : Db) → Returns (store db) AnyResult
unfolding store
Returns-store db = record { gives = λ w. (tt, refl, tt) }

-- The database refuses no statement.
abbrev pub IsUp : Env → Type 0
IsUp env = (n : ℕ) → env.succeeds n ≡ true

module _ (env : Env) where
  pub Returns-draw_id : Returns (draw_id env) AnyResult
  unfolding draw_id
  Returns-draw_id = record { gives = λ w. (_, refl, tt) }

  pub Returns-time_now : Returns (time_now env) AnyResult
  unfolding time_now
  Returns-time_now = record { gives = λ w. (_, refl, tt) }

  pub Returns-statement : IsUp env → Returns (statement env) AnyResult
  unfolding statement
  Returns-statement up = record {
    gives = λ w. (or_else w.tx_start (env.clock w.calls), rw (up w.calls) refl, tt);
  }

  settle_gives :
      {A : Type 0} (before : Db) (r : Result A) (w : World) (a : A)
      → IsUp env
      → r ≡ ok a
      → (settle env before (r, w)).0 ≡ ok a
  unfolding settle
  settle_gives before (ok b) w a up equal = rw (up w.calls) equal
  settle_gives before (err e) w a up equal = cc

  pub Returns-in_tx :
      {A : Type 0} {R : A → Type 0} (body : Action A)
      → IsUp env
      → Returns body R
      → Returns (in_tx env body) R
  unfolding in_tx
  Returns-in_tx body up h = record {
    gives = λ w.
        let start = record w { calls = suc w.calls; tx_start = some (env.clock w.calls) } in
        let (a, equal, r) = h.gives start in
        (a, rw (up w.calls) (settle_gives w.db (body start).0 (body start).1 a up equal), r);
  }
