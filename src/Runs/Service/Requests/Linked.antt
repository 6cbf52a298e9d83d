-- ===== src/Runs/Service/Requests/Linked.antt =====
-- The governance events stay a linked chain.
use clawbot_server.Base.{◌∙◌}
use clawbot_server.Runs.Store.{World, Db, Env}
use clawbot_server.Runs.Store.Steps.{Preorder}
use clawbot_server.Runs.Repository.Tables.{Allows}
use clawbot_server.Runs.Repository.Ledger.Chain.{IsLinked, IsOrdered, PicksLatest, latest_newest}
use clawbot_server.Runs.Service.{DependencyConfig}
use clawbot_server.Runs.Service.Requests.{History, begun, served}
use clawbot_server.Runs.Service.Requests.Tables.{Keeps-serve}

-- The events are linked, unless two of them have the same time or are out of order.
abbrev pub IsSound : Db → Type 0
IsSound db = IsOrdered db.chain → IsLinked db.chain

abbrev sound : Preorder
sound = record {
  relates = λ before after. IsSound before → IsSound after;
  reflexive = λ db h. h;
  transitive = λ a b c f g h. g (f h);
}

Allows-sound : (env : Env) → PicksLatest env → Allows env sound
Allows-sound env promise = record {
  policy = record {
    decision_added = λ db row h. h;
    event_added = λ db row linked h (later, ordered).
        (linked ∙ latest_newest env db.chain promise ordered, h ordered);
  };
  run_added = λ db row h. h;
  run_changed = λ db id change same h. h;
  cycle_added = λ db row fresh h. h;
  cycle_changed = λ db id change same h. h;
  artifact_added = λ db row h. h;
  comparisons_set = λ db rows h. h;
  profiles_set = λ db rows h. h;
  review_added = λ db row h. h;
  audit_added = λ db row h. h;
}

-- After any history of requests, each governance event holds the hash of the one appended before it,
-- provided that every event is later than those before it; that the query for the latest event gives
-- one than which none is later; and that at the start, if every event there was later than those
-- before it, each of them held the hash of the one before it.
pub History-IsLinked :
    (env : Env) (deps : DependencyConfig) {start now : World}
    → PicksLatest env
    → IsSound start.db
    → History env deps start now
    → IsOrdered now.db.chain
    → IsLinked now.db.chain
History-IsLinked env deps promise h begun ordered = h ordered
History-IsLinked env deps promise h (served {w} actor request earlier) ordered =
    (Keeps-serve env deps sound (Allows-sound env promise) actor request).at w
      (λ before. History-IsLinked env deps promise h earlier before) ordered
