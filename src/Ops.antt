-- ===== src/Ops.antt =====
-- The operations dashboard: internal/platform/ops/types.go and service.go. A time is a number of
-- nanoseconds. The injected clock is a parameter: its reading may depend on how often it was read.
pub mod Seeds
pub mod Events
pub mod Counts
pub mod Totals
pub mod Services
pub mod Invariants
mod Tests
use Prim.Native.String
use clawbot_server.Base.{
  ℕ, zero, suc, ◌+◌, ◌-◌, ◌*◌, ◌/◌, String, Bool, true, false, List, [], ◌∷◌, Option, none, some,
  ◌==◌, leb, if◌then◌else◌, take,
}
use clawbot_server.Base.Int.{ℤ, pos, negsuc}
use clawbot_server.Text.Digits.{decimal_at_least}

pub record ServiceStatus : Type 0 where
  pub id : String
  pub name : String
  pub service_type : String
  pub status : String
  pub version : String
  pub uptime_seconds : ℤ
  pub last_heartbeat_at : ℕ
  pub maintenance_mode : Bool
  pub last_error : String
  pub dependency_status : List (String × String)

pub record SchedulerStatus : Type 0 where
  pub id : String
  pub name : String
  pub enabled : Bool
  pub interval_seconds : ℕ
  pub last_run_at : Option ℕ
  pub next_run_at : Option ℕ
  pub last_result : String
  pub last_duration_ms : ℕ
  pub last_error : String

pub record ActivityEvent : Type 0 where
  pub id : String
  pub time : ℕ
  pub source : String
  pub event_type : String
  pub severity : String
  pub message : String

pub record Overview : Type 0 where
  pub status : String
  pub services_total : ℕ
  pub services_healthy : ℕ
  pub services_degraded : ℕ
  pub services_down : ℕ
  pub services_maintenance : ℕ
  pub schedulers_active : ℕ
  pub schedulers_paused : ℕ
  pub recent_failures : ℕ
  pub last_updated_at : ℕ

pub record ServiceRecord : Type 0 where
  pub status : ServiceStatus
  pub started_at : ℕ
  pub active_status : String

-- The two maps by identifier, the events with the newest first, and how often the clock was read.
pub record Manager : Type 0 where
  pub next_event : ℕ
  pub services : List (String × ServiceRecord)
  pub schedulers : List (String × SchedulerStatus)
  pub events : List ActivityEvent
  pub reads : ℕ

abbrev pub second : ℕ
second = 1000000000

abbrev pub default_retention_limit : ℕ
default_retention_limit = 50

-- `m.services[id]`, and the map after the record of a key was changed in place.
module _ {A : Type 0} where
  abbrev pub lookup : String → List (String × A) → Option A
  lookup id [] = none
  lookup id ((key, a) ∷ entries) = if key == id then some a else lookup id entries

  abbrev pub assign : String → A → List (String × A) → List (String × A)
  assign id a [] = []
  assign id a ((key, b) ∷ entries) =
      let rest = assign id a entries in if key == id then (key, a) ∷ entries else (key, b) ∷ rest

unfoldable pub service_status : ServiceRecord → String
service_status record_of =
    if record_of.status.maintenance_mode then "maintenance" else record_of.active_status

unfoldable pub format_event_message : String → String → String
format_event_message actor message =
    if actor == "" then message else String.◌++◌ message (String.◌++◌ " (" (String.◌++◌ actor ")"))

abbrev negated : ℕ → ℤ
negated zero = pos 0
negated (suc n) = negsuc n

-- `int64(now.Sub(startedAt).Seconds())`.
abbrev uptime : ℕ → ℕ → ℤ
uptime now started =
    if leb started now then pos ((now - started) / second) else negated ((started - now) / second)

unfoldable pub snapshot_service : ServiceRecord → ℕ → ServiceStatus
unfolding service_status
snapshot_service record_of now = record record_of.status {
  status = service_status record_of;
  uptime_seconds = uptime now record_of.started_at;
}

-- The message that names a scheduler.
abbrev pub message : String → String → String → String
message before after name = String.◌++◌ before (String.◌++◌ name after)

-- What the operations on schedulers set.
abbrev pub paused : SchedulerStatus → SchedulerStatus
paused found = record found {
  enabled = false;
  next_run_at = none;
  last_result = "paused";
  last_error = "";
}

abbrev pub resumed : ℕ → SchedulerStatus → SchedulerStatus
resumed at found = record found {
  enabled = true;
  next_run_at = some (at + found.interval_seconds * second);
  last_result = "ok";
  last_error = "";
}

abbrev pub triggered : ℕ → SchedulerStatus → SchedulerStatus
triggered at found = record found {
  last_run_at = some at;
  last_result = "manual_triggered";
  last_duration_ms = 175;
  last_error = "";
  next_run_at =
      if found.enabled then some (at + found.interval_seconds * second) else found.next_run_at;
}

module _ (clock : ℕ → ℕ) where
  -- `m.now()`, and the manager that has read the clock once more.
  abbrev pub now : Manager → ℕ
  now m = clock m.reads

  abbrev pub ticked : Manager → Manager
  ticked m = record m { reads = suc m.reads }

  unfoldable pub record_event : String → String → String → String → String → Manager → Manager
  unfolding format_event_message
  record_event source actor event_type severity message m =
      let number = suc m.next_event in
      let entry : ActivityEvent = record {
        id = String.◌++◌ "evt-" (decimal_at_least 3 number);
        time = now m;
        source = source;
        event_type = event_type;
        severity = severity;
        message = format_event_message actor message;
      } in
      record m {
        next_event = number;
        events = take default_retention_limit (entry ∷ m.events);
        reads = suc m.reads;
      }

  -- What `setMaintenanceLocked` does with the record that it finds; `none` is the error for an
  -- unknown service.
  unfoldable pub maintain :
      String → String → Bool → Option ServiceRecord → Manager → Option ServiceStatus × Manager
  unfolding record_event snapshot_service
  maintain id actor enabled none m = (none, m)
  maintain id actor enabled (some found) m =
      let status = record found.status { maintenance_mode = enabled; last_heartbeat_at = now m } in
      let changed = record found { status = status } in
      let kept = record (ticked m) { services = assign id changed m.services } in
      let logged =
        record_event status.id actor
          (if enabled then "service.maintenance.enabled" else "service.resumed")
          (if enabled then "warn" else "info")
          (if enabled
            then String.◌++◌ "Placed service " (String.◌++◌ status.name " into maintenance mode.")
            else String.◌++◌ "Resumed service " (String.◌++◌ status.name " from maintenance mode."))
          kept in
      (some (snapshot_service changed (now logged)), ticked logged)

  unfoldable pub set_maintenance_locked :
      String → String → Bool → Manager → Option ServiceStatus × Manager
  set_maintenance_locked id actor enabled m = maintain id actor enabled (lookup id m.services) m

  unfoldable pub set_maintenance : String → String → Manager → Option ServiceStatus × Manager
  set_maintenance id actor m = set_maintenance_locked id actor true m

  unfoldable pub resume_service : String → String → Manager → Option ServiceStatus × Manager
  resume_service id actor m = set_maintenance_locked id actor false m

  -- The end of the operations on schedulers: the record that was found is changed, and an event is
  -- recorded.
  unfoldable pub reschedule :
      String
      → String
      → (SchedulerStatus → SchedulerStatus)
      → String
      → String
      → (String → String)
      → Option SchedulerStatus
      → Manager
      → Manager
      → Option SchedulerStatus × Manager
  unfolding record_event
  reschedule id actor change event_type severity told none before m = (none, before)
  reschedule id actor change event_type severity told (some found) before m =
      let status = change found in
      let kept = record m { schedulers = assign id status m.schedulers } in
      (some status, record_event status.id actor event_type severity (told status.name) kept)

  unfoldable pub pause_scheduler : String → String → Manager → Option SchedulerStatus × Manager
  pause_scheduler id actor m =
      reschedule id actor paused "scheduler.paused" "warn" (message "Paused scheduler " ".")
        (lookup id m.schedulers) m m

  unfoldable pub resume_scheduler : String → String → Manager → Option SchedulerStatus × Manager
  resume_scheduler id actor m =
      reschedule id actor (resumed (now m)) "scheduler.resumed" "info"
        (message "Resumed scheduler " ".") (lookup id m.schedulers) m (ticked m)

  unfoldable pub run_scheduler_once : String → String → Manager → Option SchedulerStatus × Manager
  run_scheduler_once id actor m =
      reschedule id actor (triggered (now m)) "scheduler.run_once" "info"
        (message "Triggered scheduler " " for one immediate run.") (lookup id m.schedulers) m
        (ticked m)
