-- ===== src/Ops/Invariants.antt =====
-- What holds of every service and every scheduler through any requests.
use clawbot_server.Base.{
  length, ◌+◌, ℕ, suc, String, Bool, true, false, List, [], ◌∷◌, Option, none, some, ◌≡◌, refl,
  subst, ◌==◌, All, Bool-cases, inl, inr, one_of, if◌then◌else◌,
}
use clawbot_server.Ops.{
  Manager, ServiceRecord, SchedulerStatus, lookup, assign, now, paused, resumed, triggered, message,
  service_status, record_event, maintain, reschedule, set_maintenance_locked, set_maintenance,
  resume_service, pause_scheduler, resume_scheduler, run_scheduler_once,
}
use clawbot_server.Ops.Seeds.{new_manager, seed_services, seed_schedulers}
use clawbot_server.Ops.Events.{
  Request, sets_maintenance, resumes_service, pauses_scheduler, resumes_scheduler, runs_scheduler,
  act, Reached, started, acted,
}
use clawbot_server.Ops.Totals.{service_words, AreKnown, tally, overview-tally}
use clawbot_server.Ops.Counts.{overview}

some-injective : {A : Type 0} {a b : A} → some a ≡ some b → a ≡ b
some-injective h = cc

module _ {A : Type 0} (P : A → Type 0) where
  -- A property of the values of a map.
  abbrev pub AllValues : List (String × A) → Type 0
  AllValues entries = All (λ entry. P entry.1) entries

  AllValues-lookup :
      (id : String) (found : A) (entries : List (String × A))
      → AllValues entries
      → lookup id entries ≡ some found
      → P found
  AllValues-lookup id found [] h same = cc
  AllValues-lookup id found ((key, a) ∷ entries) (p, h) same = elim (Bool-cases (key == id)) [
    | inl here ↦ subst P (some-injective (rw here at same)) p
    | inr other ↦ AllValues-lookup id found entries h (rw other at same)
  ]

  AllValues-assign :
      (id : String) (new : A) (entries : List (String × A))
      → AllValues entries
      → P new
      → AllValues (assign id new entries)
  AllValues-assign id new [] h p = tt
  AllValues-assign id new ((key, a) ∷ entries) (q, h) p = elim (Bool-cases (key == id)) [
    | inl here ↦ rw here (p, h)
    | inr other ↦ rw other (q, AllValues-assign id new entries h p)
  ]

abbrev is_some : Option ℕ → Bool
is_some none = false
is_some (some n) = true

-- A scheduler has a next run exactly when it is enabled.
abbrev pub IsPlanned : SchedulerStatus → Type 0
IsPlanned found = is_some found.next_run_at ≡ found.enabled

-- The status that a service has on its own is one that the overview counts.
abbrev pub IsKnown : ServiceRecord → Type 0
IsKnown found = one_of service_words found.active_status ≡ true

abbrev pub IsWell : Manager → Type 0
IsWell m = AllValues IsKnown m.services × AllValues IsPlanned m.schedulers

module _ (clock : ℕ → ℕ) (id actor : String) where
  maintain-IsWell :
      (enabled : Bool) (m : Manager) (found : Option ServiceRecord)
      → lookup id m.services ≡ found
      → IsWell m
      → IsWell (maintain clock id actor enabled found m).1
  unfolding maintain record_event
  maintain-IsWell enabled m none same h = h
  maintain-IsWell enabled m (some found) same (known, planned) = (
    AllValues-assign IsKnown id _ m.services known
        (AllValues-lookup IsKnown id found m.services known same),
    planned,
  )

  reschedule-IsWell :
      (change : SchedulerStatus → SchedulerStatus) (event_type severity : String)
      (message : String → String) (m : Manager) (reads : ℕ) (found : Option SchedulerStatus)
      → lookup id m.schedulers ≡ found
      → ((s : SchedulerStatus) → IsPlanned s → IsPlanned (change s))
      → IsWell m
      → IsWell
          (reschedule clock id actor change event_type severity message found m
            (record m { reads = reads })).1
  unfolding reschedule record_event
  reschedule-IsWell change event_type severity message m reads none same k h = h
  reschedule-IsWell change event_type severity message m reads (some found) same k
        (known, planned) =
      (
        known,
        AllValues-assign IsPlanned id (change found) m.schedulers planned
            (k found (AllValues-lookup IsPlanned id found m.schedulers planned same)),
      )

-- What one immediate run leaves of the plan.
run_once-IsPlanned :
    (enabled : Bool) (next later : Option ℕ)
    → is_some next ≡ enabled
    → is_some later ≡ true
    → is_some (if enabled then later else next) ≡ enabled
run_once-IsPlanned true next later h k = k
run_once-IsPlanned false next later h k = h

act-IsWell :
    (clock : ℕ → ℕ) (actor : String) (request : Request) (m : Manager)
    → IsWell m
    → IsWell (act clock actor request m)
unfolding act set_maintenance resume_service set_maintenance_locked pause_scheduler resume_scheduler
    run_scheduler_once
act-IsWell clock actor (sets_maintenance id) m h = maintain-IsWell clock id actor true m _ refl h
act-IsWell clock actor (resumes_service id) m h = maintain-IsWell clock id actor false m _ refl h
act-IsWell clock actor (pauses_scheduler id) m h =
    reschedule-IsWell clock id actor paused "scheduler.paused" "warn"
      (message "Paused scheduler " ".") m m.reads (lookup id m.schedulers) refl (λ s p. refl) h
act-IsWell clock actor (resumes_scheduler id) m h =
    reschedule-IsWell clock id actor (resumed (now clock m)) "scheduler.resumed" "info"
      (message "Resumed scheduler " ".") m (suc m.reads) (lookup id m.schedulers) refl (λ s p. refl)
      h
act-IsWell clock actor (runs_scheduler id) m h =
    reschedule-IsWell clock id actor (triggered (now clock m)) "scheduler.run_once" "info"
      (message "Triggered scheduler " " for one immediate run.") m (suc m.reads)
      (lookup id m.schedulers) refl (λ s p. run_once-IsPlanned s.enabled s.next_run_at _ p refl) h

new_manager-IsWell : (version : String) (clock : ℕ → ℕ) → IsWell (new_manager version clock)
unfolding new_manager seed_services seed_schedulers
new_manager-IsWell version clock = ((refl, (refl, (refl, tt))), (refl, (refl, (refl, tt))))

-- After any requests to a new manager, a scheduler has a next run exactly when it is enabled, and
-- each service has on its own a status that the overview counts.
pub Reached-IsWell :
    {version : String} {clock : ℕ → ℕ} {m : Manager} → Reached version clock m → IsWell m
Reached-IsWell {version} {clock} started = new_manager-IsWell version clock
Reached-IsWell {clock = clock} (acted {m} actor request earlier) =
    act-IsWell clock actor request m (Reached-IsWell earlier)

mode-known :
    (mode : Bool) (active : String)
    → one_of service_words active ≡ true
    → one_of service_words (if mode then "maintenance" else active) ≡ true
mode-known true active h = refl
mode-known false active h = h

AreKnown-of_AllValues :
    (services : List (String × ServiceRecord)) → AllValues IsKnown services → AreKnown services
unfolding service_status
AreKnown-of_AllValues [] h = tt
AreKnown-of_AllValues ((id, found) ∷ services) (known, h) = (
  mode-known found.status.maintenance_mode found.active_status known,
  AreKnown-of_AllValues services h,
)

-- After any requests to a new manager, the overview counts every service once, as healthy, degraded,
-- down or in maintenance, and every scheduler once, as active or paused.
pub Reached-tally :
    {version : String} {clock : ℕ → ℕ} {m : Manager}
    → Reached version clock m
    → let o = overview clock m in
      (o.services_total ≡ length m.services)
      × (tally o ≡ length m.services)
      × (o.schedulers_active + o.schedulers_paused ≡ length m.schedulers)
Reached-tally {clock = clock} {m = m} reached =
    overview-tally clock m (AreKnown-of_AllValues m.services (Reached-IsWell reached).0)
