-- ===== src/Ops/Events.antt =====
-- The log of activity: how many events it keeps, and how they are numbered.
use Prim.Native.String
use clawbot_server.Base.{
  ℕ, zero, suc, String, Bool, true, false, List, [], ◌∷◌, Option, none, some, ◌≡◌, refl, ap, ◌∙◌,
  arith, take, length, ltb, if◌then◌else◌,
}
use clawbot_server.Text.Digits.{decimal_at_least}
use clawbot_server.Ops.{
  Manager, ActivityEvent, ServiceRecord, SchedulerStatus, record_event, set_maintenance_locked,
  set_maintenance, resume_service, pause_scheduler, resume_scheduler, run_scheduler_once, maintain,
  reschedule, ticked,
}
use clawbot_server.Ops.Seeds.{new_manager, seed_events}

-- The requests that change the manager.
pub data Request : Type 0 where
  sets_maintenance resumes_service : String → Request
  pauses_scheduler resumes_scheduler runs_scheduler : String → Request

unfoldable pub act : (ℕ → ℕ) → String → Request → Manager → Manager
act clock actor (sets_maintenance id) m = (set_maintenance clock id actor m).1
act clock actor (resumes_service id) m = (resume_service clock id actor m).1
act clock actor (pauses_scheduler id) m = (pause_scheduler clock id actor m).1
act clock actor (resumes_scheduler id) m = (resume_scheduler clock id actor m).1
act clock actor (runs_scheduler id) m = (run_scheduler_once clock id actor m).1

-- What a new manager becomes by any requests.
pub data Reached (version : String) (clock : ℕ → ℕ) : Manager → Type 0 where
  started : Reached version clock (new_manager version clock)
  acted :
      {m : Manager} (actor : String) (request : Request)
      → Reached version clock m
      → Reached version clock (act clock actor request m)

-- The identifiers count down from the number of events so far.
abbrev pub AreNumbered : ℕ → List ActivityEvent → Type 0
AreNumbered n [] = Unit
AreNumbered zero (event ∷ events) = ⊥
AreNumbered (suc n) (event ∷ events) =
    (event.id ≡ String.◌++◌ "evt-" (decimal_at_least 3 (suc n))) × AreNumbered n events

-- The log holds the newest fifty events, or all of them where there are fewer, numbered without a gap.
abbrev pub IsRecent : Manager → Type 0
IsRecent m =
    AreNumbered m.next_event m.events
    × (length m.events ≡ (if ltb m.next_event 50 then m.next_event else 50))

AreNumbered-take :
    (n count : ℕ) (events : List ActivityEvent)
    → AreNumbered n events
    → AreNumbered n (take count events)
AreNumbered-take n zero events h = tt
AreNumbered-take n (suc count) [] h = tt
AreNumbered-take zero (suc count) (event ∷ events) h = absurd h
AreNumbered-take (suc n) (suc count) (event ∷ events) (p, h) =
    (p, AreNumbered-take n count events h)

length-take :
    (n : ℕ) (events : List ActivityEvent)
    → length (take n events) ≡ (if ltb (length events) n then length events else n)
length-take zero events = ground arith
length-take (suc n) [] = ground arith
length-take (suc n) (event ∷ events) = ground (arith, length-take n events)

length_step :
    (number kept : ℕ)
    → kept ≡ (if ltb number 50 then number else 50)
    → suc (if ltb kept 49 then kept else 49) ≡ (if ltb (suc number) 50 then suc number else 50)
length_step number kept h = ground arith

-- What one more event leaves of those before.
abbrev NextIsRecent : Manager → Type 0
NextIsRecent m =
    AreNumbered m.next_event (take 49 m.events)
    × (suc (length (take 49 m.events))
        ≡ (if ltb (suc m.next_event) 50 then suc m.next_event else 50))

IsRecent-next : (m : Manager) → IsRecent m → NextIsRecent m
IsRecent-next m (numbered, kept) = (
  AreNumbered-take m.next_event 49 m.events numbered,
  ap suc (length-take 49 m.events) ∙ length_step m.next_event (length m.events) kept,
)

new_manager-IsRecent : (version : String) (clock : ℕ → ℕ) → IsRecent (new_manager version clock)
unfolding new_manager seed_events decimal_at_least
new_manager-IsRecent version clock = ((refl, (refl, (refl, tt))), refl)

module _ (clock : ℕ → ℕ) (id actor : String) where
  maintain-IsRecent :
      (enabled : Bool) (found : Option ServiceRecord) (m : Manager)
      → IsRecent m
      → IsRecent (maintain clock id actor enabled found m).1
  unfolding maintain record_event
  maintain-IsRecent enabled none m h = h
  maintain-IsRecent enabled (some found) m h = let (n, l) = IsRecent-next m h in ((refl, n), l)

  reschedule-IsRecent :
      (change : SchedulerStatus → SchedulerStatus) (event_type severity : String)
      (message : String → String) (found : Option SchedulerStatus) (before m : Manager)
      → IsRecent before
      → IsRecent m
      → IsRecent (reschedule clock id actor change event_type severity message found before m).1
  unfolding reschedule record_event
  reschedule-IsRecent change event_type severity message none before m h k = h
  reschedule-IsRecent change event_type severity message (some found) before m h k =
      let (n, l) = IsRecent-next m k in ((refl, n), l)

act-IsRecent :
    (clock : ℕ → ℕ) (actor : String) (request : Request) (m : Manager)
    → IsRecent m
    → IsRecent (act clock actor request m)
unfolding act set_maintenance resume_service set_maintenance_locked pause_scheduler resume_scheduler
    run_scheduler_once
act-IsRecent clock actor (sets_maintenance id) m h = maintain-IsRecent clock id actor true _ m h
act-IsRecent clock actor (resumes_service id) m h = maintain-IsRecent clock id actor false _ m h
act-IsRecent clock actor (pauses_scheduler id) m h =
    reschedule-IsRecent clock id actor _ _ _ _ _ m m h h
act-IsRecent clock actor (resumes_scheduler id) m h =
    reschedule-IsRecent clock id actor _ _ _ _ _ m (ticked clock m) h h
act-IsRecent clock actor (runs_scheduler id) m h =
    reschedule-IsRecent clock id actor _ _ _ _ _ m (ticked clock m) h h

-- After any requests to a new manager, failed ones included, the log holds its newest fifty events,
-- or all where there are fewer, and their identifiers count down without a gap from the number of
-- events so far.
pub Reached-IsRecent :
    {version : String} {clock : ℕ → ℕ} {m : Manager} → Reached version clock m → IsRecent m
Reached-IsRecent {version} {clock} started = new_manager-IsRecent version clock
Reached-IsRecent {clock = clock} (acted {m} actor request earlier) =
    act-IsRecent clock actor request m (Reached-IsRecent earlier)
