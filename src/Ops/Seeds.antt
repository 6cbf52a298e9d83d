-- ===== src/Ops/Seeds.antt =====
-- The services, schedulers and events that a new manager starts with
-- (internal/platform/ops/service.go).
use clawbot_server.Base.{ℕ, ◌+◌, ◌-◌, ◌*◌, String, true, false, List, [], ◌∷◌, none, some, length}
use clawbot_server.Base.Int.{pos}
use clawbot_server.Ops.{
  Manager, ServiceStatus, ServiceRecord, SchedulerStatus, ActivityEvent, second,
}

-- `now.Add(-seconds)`, for a time that is not within these seconds of the start of the count.
abbrev ago : ℕ → ℕ → ℕ
ago now seconds = now - seconds * second

abbrev new_service_record : ServiceStatus → ℕ → ServiceRecord
new_service_record status started = record {
  status = status;
  started_at = started;
  active_status = status.status;
}

-- A status with the fields that the seeds leave at their zero value.
abbrev seed_status :
    String → String → String → String → ℕ → String → List (String × String) → ServiceStatus
seed_status id service_type status version heartbeat error dependencies = record {
  id = id;
  name = id;
  service_type = service_type;
  status = status;
  version = version;
  uptime_seconds = pos 0;
  last_heartbeat_at = heartbeat;
  maintenance_mode = false;
  last_error = error;
  dependency_status = dependencies;
}

unfoldable pub seed_services : String → ℕ → List (String × ServiceRecord)
seed_services version now =
    (
      "clawbot-server",
      new_service_record
          (seed_status "clawbot-server" "control-plane" "healthy" version (ago now 15) ""
            (("postgres", "healthy") ∷ ("redis", "healthy") ∷ ("nats", "healthy") ∷ []))
          (ago now 11520),
    )
    ∷ (
      "clawmem",
      new_service_record
          (seed_status "clawmem" "memory" "healthy" "v1" (ago now 25) ""
            (("local-store", "healthy") ∷ []))
          (ago now 7500),
    )
    ∷ (
      "downstream-app",
      new_service_record
          (seed_status "downstream-app" "application" "degraded" "v1" (ago now 180)
            "Heartbeat latency exceeded the warning threshold."
            (("clawbot-server", "healthy") ∷ ("clawmem", "healthy") ∷ []))
          (ago now 5700),
    )
    ∷ []

unfoldable pub seed_schedulers : ℕ → List (String × SchedulerStatus)
seed_schedulers now =
    (
      "service-heartbeat-scan",
      record {
        id = "service-heartbeat-scan";
        name = "Service heartbeat scan";
        enabled = true;
        interval_seconds = 60;
        last_run_at = some (ago now 35);
        next_run_at = some (now + 25 * second);
        last_result = "warning";
        last_duration_ms = 82;
        last_error = "";
      },
    )
    ∷ (
      "control-plane-sync",
      record {
        id = "control-plane-sync";
        name = "Control-plane sync";
        enabled = true;
        interval_seconds = 300;
        last_run_at = some (ago now 120);
        next_run_at = some (now + 180 * second);
        last_result = "ok";
        last_duration_ms = 140;
        last_error = "";
      },
    )
    ∷ (
      "maintenance-reconciliation",
      record {
        id = "maintenance-reconciliation";
        name = "Maintenance reconciliation";
        enabled = false;
        interval_seconds = 900;
        last_run_at = some (ago now 2700);
        next_run_at = none;
        last_result = "paused";
        last_duration_ms = 0;
        last_error = "Paused by operator for maintenance review.";
      },
    )
    ∷ []

unfoldable pub seed_events : ℕ → List ActivityEvent
seed_events now =
    record {
      id = "evt-003";
      time = ago now 300;
      source = "downstream-app";
      event_type = "service.degraded";
      severity = "warn";
      message = "downstream-app reported delayed heartbeats and entered a degraded state.";
    }
    ∷ record {
      id = "evt-002";
      time = ago now 720;
      source = "service-heartbeat-scan";
      event_type = "scheduler.completed";
      severity = "info";
      message = "Service heartbeat scan completed with one warning.";
    }
    ∷ record {
      id = "evt-001";
      time = ago now 1080;
      source = "clawbot-server";
      event_type = "service.started";
      severity = "info";
      message = "clawbot-server started and published its initial heartbeat.";
    }
    ∷ []

-- `newManagerWithClock`, which reads the clock once.
unfoldable pub new_manager : String → (ℕ → ℕ) → Manager
unfolding seed_services seed_schedulers seed_events
new_manager version clock =
    let now = clock 0 in
    record {
      next_event = length (seed_events now);
      services = seed_services version now;
      schedulers = seed_schedulers now;
      events = seed_events now;
      reads = 1;
    }
