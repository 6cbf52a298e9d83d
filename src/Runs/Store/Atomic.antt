-- ===== src/Runs/Store/Atomic.antt =====
-- A transaction that fails leaves the tables as they were.
use clawbot_server.Base.{Bool-cases, inl, inr, ◌≡◌, arith, some, suc}
use clawbot_server.Runs.Failure.{Failure, Result, ok, err}
use clawbot_server.Runs.Store.{World, Db, Env, Action, in_tx, settle}

module _ (env : Env) {A : Type 0} where
  settle-restores :
      (before : Db) (r : Result A) (w : World) (e : Failure) (w' : World)
      → settle env before (r, w) ≡ (err e, w')
      → w'.db ≡ before
  unfolding settle
  settle-restores before (err f) w e w' h = ground arith
  settle-restores before (ok a) w e w' h = ground arith

  -- Whatever the body does and wherever it fails, a failed transaction changes no table.
  pub in_tx-atomic :
      (body : Action A) (w : World) (e : Failure) (w' : World)
      → in_tx env body w ≡ (err e, w')
      → w'.db ≡ w.db
  unfolding in_tx
  in_tx-atomic body w e w' h = elim (Bool-cases (env.succeeds w.calls)) [
    | inl begun ↦
        let start = record w { calls = suc w.calls; tx_start = some (env.clock w.calls) } in
        settle-restores w.db (body start).0 (body start).1 e w' (rw (begun, in_tx) at h)
    | inr refused ↦ ground arith
  ]
