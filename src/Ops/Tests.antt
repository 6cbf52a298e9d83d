-- ===== src/Ops/Tests.antt =====
-- Tests of the dashboard on a manager with a clock that ticks once a second.
use clawbot_server.Base.{ℕ, ◌+◌, ◌*◌, true, false, some, ◌≡◌, refl, length, [], ◌∷◌}
use clawbot_server.Base.Int.{pos}
use clawbot_server.Ops.{
  Manager, ServiceRecord, second, lookup, set_maintenance_locked, set_maintenance, resume_service,
}
use clawbot_server.Ops.Seeds.{new_manager, seed_services}
use clawbot_server.Ops.Counts.{overview}
use clawbot_server.Ops.Totals.{tally, worst, overview-worst}
use clawbot_server.Ops.Events.{
  sets_maintenance, pauses_scheduler, act, Reached, started, acted, IsRecent, Reached-IsRecent,
}
use clawbot_server.Ops.Services.{
  IsMaintained, map_status, set_maintenance_locked_lem, resume-set_maintenance,
}
use clawbot_server.Ops.Invariants.{IsWell, Reached-IsWell, Reached-tally}

abbrev ticking : ℕ → ℕ
ticking n = (1000000 + n) * second

abbrev fresh : Manager
fresh = new_manager "1.0" ticking

abbrev busy : Manager
busy =
    act ticking "ann" (pauses_scheduler "control-plane-sync")
      (act ticking "ann" (sets_maintenance "clawmem") fresh)

abbrev busy-Reached : Reached "1.0" ticking busy
busy-Reached =
    acted "ann" (pauses_scheduler "control-plane-sync")
      (acted "ann" (sets_maintenance "clawmem") started)

Reached-IsRecent_example : IsRecent busy
Reached-IsRecent_example = Reached-IsRecent busy-Reached

Reached-IsWell_example : IsWell busy
Reached-IsWell_example = Reached-IsWell busy-Reached

Reached-tally_example :
    ((overview ticking busy).services_total ≡ length busy.services)
    × (tally (overview ticking busy) ≡ length busy.services)
    × ((overview ticking busy).schedulers_active + (overview ticking busy).schedulers_paused
        ≡ length busy.schedulers)
Reached-tally_example = Reached-tally busy-Reached

overview-worst_example : (overview ticking busy).status ≡ worst busy.services
overview-worst_example = overview-worst ticking busy

abbrev clawmem : ServiceRecord
clawmem = record {
  status = record {
    id = "clawmem";
    name = "clawmem";
    service_type = "memory";
    status = "healthy";
    version = "v1";
    uptime_seconds = pos 0;
    last_heartbeat_at = 999975 * second;
    maintenance_mode = false;
    last_error = "";
    dependency_status = ("local-store", "healthy") ∷ [];
  };
  started_at = 992500 * second;
  active_status = "healthy";
}

clawmem_found : lookup "clawmem" fresh.services ≡ some clawmem
unfolding new_manager seed_services
clawmem_found = refl

set_maintenance_locked_lem_example :
    IsMaintained ticking "clawmem" true clawmem fresh
      (set_maintenance_locked ticking "clawmem" "ann" true fresh)
set_maintenance_locked_lem_example =
    set_maintenance_locked_lem ticking "clawmem" "ann" true clawmem fresh clawmem_found

resume-set_maintenance_example :
    map_status (
      lookup "clawmem"
        (resume_service ticking "clawmem" "bob"
          (set_maintenance ticking "clawmem" "ann" fresh).1).1.services)
    ≡ some "healthy"
resume-set_maintenance_example =
    resume-set_maintenance ticking "clawmem" "ann" "bob" clawmem fresh clawmem_found
