-- ===== src/Runs/Service/Requests/Logs.antt =====
-- The logs of the service only grow.
use clawbot_server.Base.{List, [], ◌∷◌, ◌++◌, ◌≡◌, refl, sym, ◌∙◌, ap}
use mathlib.Core.List.{append_assoc}
use clawbot_server.Runs.Store.{World, Db, Env}
use clawbot_server.Runs.Store.Steps.{Preorder}
use clawbot_server.Runs.Repository.Tables.{AllowsPolicy, Allows}
use clawbot_server.Runs.Service.{DependencyConfig}
use clawbot_server.Runs.Service.Requests.{History, begun, served, serve}
use clawbot_server.Runs.Service.Requests.Tables.{Keeps-serve}

-- The second list is the first with more in front.
abbrev pub Extends : {A : Type 0} → List A → List A → Type 0
Extends {A} xs ys = (new : List A) × (ys ≡ new ++ xs)

module _ {A : Type 0} where
  pub Extends-same : (xs : List A) → Extends xs xs
  Extends-same xs = ([], refl)

  pub Extends-one : (x : A) (xs : List A) → Extends xs (x ∷ xs)
  Extends-one x xs = (x ∷ [], refl)

  pub Extends-both : (xs ys zs : List A) → Extends xs ys → Extends ys zs → Extends xs zs
  Extends-both xs ys zs (new, e) (more, f) =
      (more ++ new, f ∙ ap (λ l. more ++ l) e ∙ sym (append_assoc more new xs))

-- Decisions, reviews, governance events and audit events are added in front, and none goes or
-- changes.
abbrev pub AreAppended : Db → Db → Type 0
AreAppended before after =
    Extends before.decisions after.decisions
    × Extends before.reviews after.reviews
    × Extends before.chain after.chain
    × Extends before.audits after.audits

pub unchanged : (db : Db) → AreAppended db db
unchanged db = (
  Extends-same db.decisions,
  Extends-same db.reviews,
  Extends-same db.chain,
  Extends-same db.audits,
)

abbrev pub appended : Preorder
appended = record {
  relates = AreAppended;
  reflexive = unchanged;
  transitive = λ a b c (d, r, e, t) (d', r', e', t'). (
    Extends-both a.decisions b.decisions c.decisions d d',
    Extends-both a.reviews b.reviews c.reviews r r',
    Extends-both a.chain b.chain c.chain e e',
    Extends-both a.audits b.audits c.audits t t',
  );
}

pub AllowsPolicy-appended : (env : Env) → AllowsPolicy env appended
AllowsPolicy-appended env = record {
  decision_added = λ db row. (
    Extends-one row db.decisions,
    Extends-same db.reviews,
    Extends-same db.chain,
    Extends-same db.audits,
  );
  event_added = λ db row h. (
    Extends-same db.decisions,
    Extends-same db.reviews,
    Extends-one row db.chain,
    Extends-same db.audits,
  );
}

pub Allows-appended : (env : Env) → Allows env appended
Allows-appended env = record {
  policy = AllowsPolicy-appended env;
  run_added = λ db row. unchanged db;
  run_changed = λ db id change same. unchanged db;
  cycle_added = λ db row h. unchanged db;
  cycle_changed = λ db id change h. unchanged db;
  artifact_added = λ db row. unchanged db;
  comparisons_set = λ db rows. unchanged db;
  profiles_set = λ db rows. unchanged db;
  review_added = λ db row. (
    Extends-same db.decisions,
    Extends-one row db.reviews,
    Extends-same db.chain,
    Extends-same db.audits,
  );
  audit_added = λ db row. (
    Extends-same db.decisions,
    Extends-same db.reviews,
    Extends-same db.chain,
    Extends-one row db.audits,
  );
}

-- Over any history of requests, failed ones included, the policy decisions, the review actions, the
-- governance events and the audit events are logs: what one of them holds stays in it, unchanged and
-- in its order, and new entries come in front.
pub History-AreAppended :
    (env : Env) (deps : DependencyConfig) {start now : World}
    → History env deps start now
    → AreAppended start.db now.db
History-AreAppended env deps {start} begun = unchanged start.db
History-AreAppended env deps {start} (served {w} actor request earlier) =
    let after = (serve env deps actor request w).1.db in
    appended.transitive start.db w.db after (History-AreAppended env deps earlier)
      ((Keeps-serve env deps appended (Allows-appended env) actor request).at w)
