-- ===== src/Ops/Counts.antt =====
-- The overview: how many services have each status, and the status of the whole.
use clawbot_server.Base.{
  ℕ, suc, ◌+◌, String, Bool, true, false, List, [], ◌∷◌, ◌==◌, ltb, if◌then◌else◌, not,
}
use clawbot_server.Ops.{Manager, ServiceRecord, SchedulerStatus, Overview, service_status}

abbrev pub one_if : Bool → ℕ
one_if true = 1
one_if false = 0

-- The loop over the services.
unfoldable pub count_services : List (String × ServiceRecord) → Overview → Overview
unfolding service_status
count_services [] overview = overview
count_services ((id, found) ∷ services) overview =
    let status = service_status found in
    count_services services (record overview {
      services_total = suc overview.services_total;
      services_healthy = overview.services_healthy + one_if (status == "healthy");
      services_degraded = overview.services_degraded + one_if (status == "degraded");
      services_down = overview.services_down + one_if (status == "down");
      services_maintenance = overview.services_maintenance + one_if (status == "maintenance");
      recent_failures = overview.recent_failures + one_if (not (found.status.last_error == ""));
    })

-- The loop over the schedulers.
unfoldable pub count_schedulers : List (String × SchedulerStatus) → Overview → Overview
count_schedulers [] overview = overview
count_schedulers ((id, found) ∷ schedulers) overview =
    count_schedulers schedulers (record overview {
      schedulers_active = overview.schedulers_active + one_if found.enabled;
      schedulers_paused = overview.schedulers_paused + one_if (not found.enabled);
      recent_failures = overview.recent_failures + one_if (not (found.last_error == ""));
    })

unfoldable pub derive_overall_status : Overview → String
derive_overall_status overview =
    if ltb 0 overview.services_down
    then "down"
    else if ltb 0 overview.services_degraded
    then "degraded"
    else if ltb 0 overview.services_maintenance
    then "maintenance"
    else "healthy"

abbrev pub empty_overview : ℕ → Overview
empty_overview at = record {
  status = "";
  services_total = 0;
  services_healthy = 0;
  services_degraded = 0;
  services_down = 0;
  services_maintenance = 0;
  schedulers_active = 0;
  schedulers_paused = 0;
  recent_failures = 0;
  last_updated_at = at;
}

unfoldable pub overview : (ℕ → ℕ) → Manager → Overview
unfolding count_services count_schedulers derive_overall_status
overview clock m =
    let counted =
      count_schedulers m.schedulers (count_services m.services (empty_overview (clock m.reads))) in
    record counted { status = derive_overall_status counted }
