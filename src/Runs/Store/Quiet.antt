-- ===== src/Runs/Store/Quiet.antt =====
-- Actions that leave the tables as they are: one rule for each way to build an action.
use clawbot_server.Base.{Bool, Option, none, some, ◌≡◌, refl, ◌∙◌}
use clawbot_server.Runs.Failure.{Failure, Result, ok, err}
use clawbot_server.Runs.Store.{
  World, Env, Action, pure, fail, lift, found, continue, ◌>>=◌, require, tables, statement, draw_id,
  time_now,
}

-- The action leaves the tables as they are.
pub record IsQuiet {A : Type 0} (m : Action A) : Type 0 where
  pub same : (w : World) → (m w).1.db ≡ w.db

module _ {A : Type 0} where
  pub IsQuiet-pure : (a : A) → IsQuiet (pure a)
  unfolding pure
  IsQuiet-pure a = record { same = λ w. refl }

  pub IsQuiet-fail : (e : Failure) → IsQuiet (fail {A = A} e)
  unfolding fail
  IsQuiet-fail e = record { same = λ w. refl }

  pub IsQuiet-lift : (r : Result A) → IsQuiet (lift r)
  unfolding lift
  IsQuiet-lift r = record { same = λ w. refl }

  pub IsQuiet-found : (o : Option A) (e : Failure) → IsQuiet (found o e)
  unfolding found
  IsQuiet-found none e = record { same = λ w. refl }
  IsQuiet-found (some a) e = record { same = λ w. refl }

module _ {A B : Type 0} where
  continue_same :
      (r : Result A) (f : A → Action B) (w : World)
      → ((a : A) → IsQuiet (f a))
      → (continue r f w).1.db ≡ w.db
  continue_same (ok a) f w h = (h a).same w
  continue_same (err e) f w h = refl

  pub IsQuiet-bind :
      (m : Action A) (f : A → Action B) → IsQuiet m → ((a : A) → IsQuiet (f a)) → IsQuiet (m >>= f)
  unfolding ◌>>=◌
  IsQuiet-bind m f q h = record {
    same = λ w. let (r, w') = m w in continue_same r f w' h ∙ q.same w;
  }

pub IsQuiet-require : (b : Bool) (e : Failure) → IsQuiet (require b e)
unfolding require
IsQuiet-require b e = record { same = λ w. refl }

pub IsQuiet-tables : IsQuiet tables
unfolding tables
IsQuiet-tables = record { same = λ w. refl }

module _ (env : Env) where
  pub IsQuiet-statement : IsQuiet (statement env)
  unfolding statement
  IsQuiet-statement = record { same = λ w. refl }

  pub IsQuiet-draw_id : IsQuiet (draw_id env)
  unfolding draw_id
  IsQuiet-draw_id = record { same = λ w. refl }

  pub IsQuiet-time_now : IsQuiet (time_now env)
  unfolding time_now
  IsQuiet-time_now = record { same = λ w. refl }

pub ruleset quiet_rules = (
  IsQuiet-pure, IsQuiet-fail, IsQuiet-lift, IsQuiet-found, IsQuiet-bind, IsQuiet-require,
  IsQuiet-tables, IsQuiet-statement, IsQuiet-draw_id, IsQuiet-time_now,
)
