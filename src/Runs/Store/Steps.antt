-- ===== src/Runs/Store/Steps.antt =====
-- How actions change the tables: one rule for each way to build an action.
use clawbot_server.Base.{
  Bool, true, false, Bool-cases, inl, inr, some, suc, ◌≡◌, refl, sym, subst, ◌∙◌, ap,
}
use clawbot_server.Runs.Failure.{Failure, Result, ok, err}
use clawbot_server.Runs.Store.{
  World, Db, Env, Action, continue, ◌>>=◌, require, tables, store, settle, in_tx,
}
use clawbot_server.Runs.Store.Atomic.{in_tx-atomic}
use clawbot_server.Runs.Store.Quiet.{IsQuiet}

-- A relation between the tables before and after, for any number of steps.
pub record Preorder : Type 1 where
  pub relates : Db → Db → Type 0
  pub reflexive : (db : Db) → relates db db
  pub transitive : (a b c : Db) → relates a b → relates b c → relates a c

-- Whether it returns or fails, the action relates the tables before it to those after it.
pub record Keeps (F : Preorder) {A : Type 0} (m : Action A) : Type 0 where
  pub at : (w : World) → F.relates w.db (m w).1.db

-- The same, when it fails.
pub record FailsSafe (F : Preorder) {A : Type 0} (m : Action A) : Type 0 where
  pub after : (w : World) (e : Failure) → (m w).0 ≡ err e → F.relates w.db (m w).1.db

-- The same, for an action that begins on these tables.
pub record KeepsFrom (F : Preorder) (db : Db) {A : Type 0} (m : Action A) : Type 0 where
  pub from : (w : World) → w.db ≡ db → F.relates db (m w).1.db

module _ (F : Preorder) where
  equal_related : (a b : Db) → b ≡ a → F.relates a b
  equal_related a b e = subst (F.relates a) (sym e) (F.reflexive a)

  pub Keeps-quiet : {A : Type 0} {m : Action A} → IsQuiet m → Keeps F m
  Keeps-quiet q = record { at = λ w. equal_related _ _ (q.same w) }

  pub Keeps-continue :
      {A B : Type 0} (r : Result A) (f : A → Action B) (w : World)
      → ((a : A) → Keeps F (f a))
      → F.relates w.db (continue r f w).1.db
  Keeps-continue (ok a) f w h = (h a).at w
  Keeps-continue (err e) f w h = F.reflexive w.db

  pub Keeps-bind :
      {A B : Type 0} (m : Action A) (f : A → Action B)
      → Keeps F m
      → ((a : A) → Keeps F (f a))
      → Keeps F (m >>= f)
  unfolding ◌>>=◌
  Keeps-bind m f k h = record {
    at = λ w. F.transitive w.db (m w).1.db _ (k.at w) (Keeps-continue (m w).0 f (m w).1 h);
  }

  settle-Keeps :
      (env : Env) {A : Type 0} (before : Db) (r : Result A) (w : World)
      → F.relates before w.db
      → F.relates before (settle env before (r, w)).1.db
  unfolding settle
  settle-Keeps env before (err e) w h = F.reflexive before
  settle-Keeps env before (ok a) w h = elim (Bool-cases (env.succeeds w.calls)) [
    | inl done ↦ rw done h
    | inr refused ↦ rw refused (F.reflexive before)
  ]

  pub Keeps-in_tx :
      (env : Env) {A : Type 0} {body : Action A} → Keeps F body → Keeps F (in_tx env body)
  unfolding in_tx
  Keeps-in_tx env {A} {body} k = record {
    at = λ w. elim (Bool-cases (env.succeeds w.calls)) [
      | inl begun ↦
          let start = record w { calls = suc w.calls; tx_start = some (env.clock w.calls) } in
          rw begun (settle-Keeps env w.db (body start).0 (body start).1 (k.at start))
      | inr refused ↦ rw refused (F.reflexive w.db)
    ];
  }

  -- A chain of steps fails safely if all of them but the last keep the relation.
  FailsSafe-continue :
      {A B : Type 0} (r : Result A) (f : A → Action B) (w : World)
      → ((a : A) → FailsSafe F (f a))
      → (e : Failure) → (continue r f w).0 ≡ err e
      → F.relates w.db (continue r f w).1.db
  FailsSafe-continue (ok a) f w h e failed = (h a).after w e failed
  FailsSafe-continue (err c) f w h e failed = F.reflexive w.db

  pub FailsSafe-bind :
      {A B : Type 0} (m : Action A) (f : A → Action B)
      → Keeps F m
      → ((a : A) → FailsSafe F (f a))
      → FailsSafe F (m >>= f)
  unfolding ◌>>=◌
  FailsSafe-bind m f k h = record {
    after = λ w e failed.
        F.transitive w.db (m w).1.db _ (k.at w) (FailsSafe-continue (m w).0 f (m w).1 h e failed);
  }

  pub FailsSafe-quiet : {A : Type 0} {m : Action A} → IsQuiet m → FailsSafe F m
  FailsSafe-quiet q = record { after = λ w e failed. equal_related _ _ (q.same w) }

  -- A transaction that fails is undone, whatever is in it.
  pub FailsSafe-in_tx : (env : Env) {A : Type 0} (body : Action A) → FailsSafe F (in_tx env body)
  FailsSafe-in_tx env body = record {
    after = λ w e failed. equal_related _ _ (
        in_tx-atomic env body w e (in_tx env body w).1
          (ap (λ r. (r, (in_tx env body w).1)) failed));
  }

-- Steps that begin on known tables.
module _ (F : Preorder) where
  pub Keeps-of_KeepsFrom : {A : Type 0} {m : Action A} → ((db : Db) → KeepsFrom F db m) → Keeps F m
  Keeps-of_KeepsFrom h = record { at = λ w. (h w.db).from w refl }

module _ (F : Preorder) (db : Db) where
  KeepsFrom-continue :
      {A B : Type 0} (r : Result A) (f : A → Action B) (w : World)
      → ((a : A) → r ≡ ok a → KeepsFrom F db (f a))
      → w.db ≡ db
      → F.relates db (continue r f w).1.db
  KeepsFrom-continue (ok a) f w h e = (h a refl).from w e
  KeepsFrom-continue (err c) f w h e = equal_related F db w.db e

  pub KeepsFrom-bind :
      {A B : Type 0} (m : Action A) (f : A → Action B)
      → IsQuiet m
      → ((a : A) → KeepsFrom F db (f a))
      → KeepsFrom F db (m >>= f)
  unfolding ◌>>=◌
  KeepsFrom-bind m f q h = record {
    from = λ w e. KeepsFrom-continue (m w).0 f (m w).1 (λ a _. h a) (q.same w ∙ e);
  }

  pub KeepsFrom-tables :
      {B : Type 0} (f : Db → Action B) → KeepsFrom F db (f db) → KeepsFrom F db (tables >>= f)
  unfolding ◌>>=◌ tables
  KeepsFrom-tables f h = record {
    from = λ w e. subst (λ d. F.relates db (f d w).1.db) (sym e) (h.from w e);
  }

  -- What is required is known afterwards.
  pub KeepsFrom-require :
      {B : Type 0} (b : Bool) (e : Failure) (f : Unit {0} → Action B)
      → (b ≡ true → KeepsFrom F db (f tt))
      → KeepsFrom F db (require b e >>= f)
  unfolding ◌>>=◌ require
  KeepsFrom-require true e f h = record { from = λ w same. (h refl).from w same }
  KeepsFrom-require false e f h = record { from = λ w same. equal_related F db w.db same }

  pub KeepsFrom-store :
      {B : Type 0} (after : Db) (f : Unit {0} → Action B)
      → F.relates db after
      → IsQuiet (f tt)
      → KeepsFrom F db (store after >>= f)
  unfolding ◌>>=◌ store
  KeepsFrom-store after f r q = record {
    from = λ w same. subst (F.relates db) (sym (q.same (record w { db = after }))) r;
  }

  pub KeepsFrom-last : {after : Db} → F.relates db after → KeepsFrom F db (store after)
  unfolding store
  KeepsFrom-last r = record { from = λ w same. r }
