-- ===== src/Runs/Store/Outcomes.antt =====
-- What holds after an action that succeeds, one rule for each way to build an action.
use clawbot_server.Base.{
  Bool, true, false, Bool-cases, inl, inr, ◌≡◌, refl, sym, ap, Option, none, subst, suc, some,
}
use clawbot_server.Runs.Failure.{Failure, Result, ok, err, ok-injective}
use clawbot_server.Runs.Store.{
  World, Db, Env, Action, pure, continue, ◌>>=◌, lift, tables, found, require, store, settle, in_tx,
}
use clawbot_server.Runs.Store.Quiet.{IsQuiet}
use clawbot_server.Runs.Store.Steps.{Preorder, Keeps}

-- From tables of which `P` holds, a success gives a result and tables of which `Q` holds.
pub record Ensures (P : Db → Type 0) {A : Type 0} (m : Action A) (Q : A → Db → Type 0)
    : Type 0 where
  pub holds : (w : World) → P w.db → (a : A) → (m w).0 ≡ ok a → Q a (m w).1.db

-- Nothing is known.
abbrev pub Anything : Db → Type 0
Anything db = Unit {0}

continue_ensures :
    {A B : Type 0} (R : A → Db → Type 0) (Q : B → Db → Type 0) (r : Result A) (f : A → Action B)
    (w : World)
    → ((a : A) → r ≡ ok a → R a w.db)
    → ((a : A) → Ensures (R a) (f a) Q)
    → (b : B) → (continue r f w).0 ≡ ok b
    → Q b (continue r f w).1.db
continue_ensures R Q (ok a) f w h k b e = (k a).holds w (h a refl) b e
continue_ensures R Q (err c) f w h k b e = cc

module _ {P : Db → Type 0} {A B : Type 0} {R : A → Db → Type 0} {Q : B → Db → Type 0} where
  pub Ensures-bind :
      (m : Action A) (f : A → Action B)
      → Ensures P m R
      → ((a : A) → Ensures (R a) (f a) Q)
      → Ensures P (m >>= f) Q
  unfolding ◌>>=◌
  Ensures-bind m f h k = record {
    holds = λ w p b e. continue_ensures R Q (m w).0 f (m w).1 (λ a same. h.holds w p a same) k b e;
  }

settle_ensures :
    {A : Type 0} (Q : A → Db → Type 0) (env : Env) (before : Db) (r : Result A) (w : World)
    → ((a : A) → r ≡ ok a → Q a w.db)
    → (a : A) → (settle env before (r, w)).0 ≡ ok a
    → Q a (settle env before (r, w)).1.db
unfolding settle
settle_ensures Q env before (err e) w h a same = cc
settle_ensures Q env before (ok b) w h a same = elim (Bool-cases (env.succeeds w.calls)) [
  | inl done ↦
      let equal : b ≡ a = ok-injective (rw done at same) in
      rw done (subst (λ x. Q x w.db) equal (h b refl))
  | inr refused ↦ cc (rw refused at same)
]

module _ {P : Db → Type 0} {A : Type 0} where
  pub Ensures-Anything : (m : Action A) → Ensures P m (λ a. Anything)
  Ensures-Anything m = record { holds = λ w p a e. tt }

  pub Ensures-pure :
      {Q : A → Db → Type 0} (a : A) → ((db : Db) → P db → Q a db) → Ensures P (pure a) Q
  unfolding pure
  Ensures-pure {Q} a h = record {
    holds = λ w p b e. subst (λ x. Q x w.db) (ok-injective e) (h w.db p);
  }

  -- What the steps of a relation cannot undo still holds.
  pub Ensures-keeps :
      (F : Preorder) (m : Action A)
      → ((before after : Db) → F.relates before after → P before → P after)
      → Keeps F m
      → Ensures P m (λ a. P)
  Ensures-keeps F m stable k = record { holds = λ w p a e. stable w.db _ (k.at w) p }

  pub Ensures-in_tx :
      {Q : A → Db → Type 0} (env : Env) (body : Action A)
      → Ensures P body Q
      → Ensures P (in_tx env body) Q
  unfolding in_tx
  Ensures-in_tx {Q} env body h = record {
    holds = λ w p a e. elim (Bool-cases (env.succeeds w.calls)) [
      | inl begun ↦
          let start = record w { calls = suc w.calls; tx_start = some (env.clock w.calls) } in
          let committed =
            settle_ensures Q env w.db (body start).0 (body start).1
              (λ b same. h.holds start p b same) a (rw begun at e) in
          rw begun committed
      | inr refused ↦ cc (rw refused at e)
    ];
  }

-- What is required holds afterwards, and the tables are the same.
pub Ensures-require :
    {P : Db → Type 0} (b : Bool) (e : Failure) → Ensures P (require b e) (λ u db. P db × (b ≡ true))
unfolding require
Ensures-require true e = record { holds = λ w p u same. (p, refl) }
Ensures-require false e = record { holds = λ w p u same. cc }

pub Ensures-store : {P : Db → Type 0} (after : Db) → Ensures P (store after) (λ u db. db ≡ after)
unfolding store
Ensures-store after = record { holds = λ w p u same. refl }

-- Steps after which nothing more is known.
pub Ensures-after :
    {P : Db → Type 0} {A B : Type 0} {Q : B → Db → Type 0} (m : Action A) (f : A → Action B)
    → ((a : A) → Ensures Anything (f a) Q)
    → Ensures P (m >>= f) Q
Ensures-after m f h = Ensures-bind m f (Ensures-Anything m) h

-- What is known before, whatever the tables, is a hypothesis.
pub Ensures-given :
    {X : Type 0} {A : Type 0} {m : Action A} {Q : A → Db → Type 0}
    → (X → Ensures Anything m Q)
    → Ensures (λ db. X) m Q
Ensures-given h = record { holds = λ w x a same. (h x).holds w tt a same }

pub Ensures-lift :
    {P : Db → Type 0} {A : Type 0} (r : Result A) → Ensures P (lift r) (λ a db. r ≡ ok a)
unfolding lift
Ensures-lift r = record { holds = λ w p a same. same }

-- An action that leaves the tables as they are keeps what is known of them.
pub Ensures-quiet : {P : Db → Type 0} {A : Type 0} (m : Action A) → IsQuiet m → Ensures P m (λ a. P)
Ensures-quiet {P} m q = record { holds = λ w p a e. subst P (sym (q.same w)) p }

-- What is known of the tables holds of those that are read.
pub Ensures-tables : {P : Db → Type 0} → Ensures P tables (λ read db. P read)
unfolding tables
Ensures-tables {P} = record { holds = λ w p a e. subst P (ok-injective e) p }

pub Ensures-found :
    {P : Db → Type 0} {A : Type 0} (o : Option A) (failure : Failure)
    → Ensures P (found o failure) (λ a db. P db × (o ≡ some a))
unfolding found
Ensures-found none failure = record { holds = λ w p a e. cc }
Ensures-found (some b) failure = record { holds = λ w p a e. (p, ap some (ok-injective e)) }
