-- ===== src/Ops/Totals.antt =====
-- What the counts of the overview add up to, and what its status says.
use clawbot_server.Base.{
  ℕ, ◌+◌, String, Bool, true, false, List, [], ◌∷◌, ◌≡◌, refl, ◌∙◌, ◌==◌, ◌||◌, arith, All,
  All-one_of, one_of, length, ltb, if◌then◌else◌, not,
}
use clawbot_server.Ops.{Manager, ServiceRecord, SchedulerStatus, Overview, service_status}
use clawbot_server.Ops.Counts.{
  one_if, count_services, count_schedulers, derive_overall_status, overview, empty_overview,
}

abbrev pub service_words : List String
service_words = "healthy" ∷ "degraded" ∷ "down" ∷ "maintenance" ∷ []

-- The services show statuses that the overview counts.
abbrev pub AreKnown : List (String × ServiceRecord) → Type 0
AreKnown services = All (λ entry. one_of service_words (service_status entry.1) ≡ true) services

-- Whether a service shows this status.
abbrev pub shows : String → List (String × ServiceRecord) → Bool
shows word [] = false
shows word ((id, found) ∷ services) = service_status found == word || shows word services

-- The status of the whole: the worst that a service shows.
abbrev pub worst : List (String × ServiceRecord) → String
worst services =
    if shows "down" services
    then "down"
    else if shows "degraded" services
    then "degraded"
    else if shows "maintenance" services
    then "maintenance"
    else "healthy"

abbrev pub tally : Overview → ℕ
tally o = o.services_healthy + o.services_degraded + o.services_down + o.services_maintenance

count_services-total :
    (services : List (String × ServiceRecord)) (o : Overview)
    → (count_services services o).services_total ≡ length services + o.services_total
unfolding count_services
count_services-total [] o = omega arith
count_services-total ((id, found) ∷ services) o = omega (arith, count_services-total services _)

abbrev CountsOnce : String → Type 0
CountsOnce word =
    one_if (word == "healthy")
      + one_if (word == "degraded")
      + one_if (word == "down")
      + one_if (word == "maintenance")
    ≡ 1

counted_once : (word : String) → one_of service_words word ≡ true → CountsOnce word
counted_once word h = All-one_of CountsOnce service_words word (refl, (refl, (refl, (refl, tt)))) h

count_services-tally :
    (services : List (String × ServiceRecord)) (o : Overview)
    → AreKnown services
    → tally (count_services services o) ≡ length services + tally o
unfolding count_services
count_services-tally [] o h = omega arith
count_services-tally ((id, found) ∷ services) o (known, h) =
    omega (arith, count_services-tally services _ h, counted_once (service_status found) known)

-- What the loop over the services finds of a status, on top of what was counted before.
record HasCounted (services : List (String × ServiceRecord)) (before after : Overview)
    : Type 0 where
  down : ltb 0 after.services_down ≡ (shows "down" services || ltb 0 before.services_down)
  degraded :
      ltb 0 after.services_degraded ≡ (shows "degraded" services || ltb 0 before.services_degraded)
  maintenance :
      ltb 0 after.services_maintenance
      ≡ (shows "maintenance" services || ltb 0 before.services_maintenance)

one_more :
    (n : ℕ) (here later : Bool) → (later || ltb 0 (n + one_if here)) ≡ ((here || later) || ltb 0 n)
one_more n true later = ground arith
one_more n false later = ground arith

count_services-HasCounted :
    (services : List (String × ServiceRecord)) (o : Overview)
    → HasCounted services o (count_services services o)
unfolding count_services
count_services-HasCounted [] o = record { down = refl; degraded = refl; maintenance = refl }
count_services-HasCounted ((id, found) ∷ services) o =
    let status = service_status found in
    let later = count_services-HasCounted services _ in
    record {
      down = later.down ∙ one_more o.services_down (status == "down") (shows "down" services);
      degraded =
          later.degraded
          ∙ one_more o.services_degraded (status == "degraded") (shows "degraded" services);
      maintenance =
          later.maintenance
          ∙ one_more o.services_maintenance (status == "maintenance")
              (shows "maintenance" services);
    }

-- The loop over the schedulers leaves the counts of services.
abbrev SameServices : Overview → Overview → Type 0
SameServices before after =
    (after.services_total ≡ before.services_total)
    × (after.services_healthy ≡ before.services_healthy)
    × (after.services_degraded ≡ before.services_degraded)
    × (after.services_down ≡ before.services_down)
    × (after.services_maintenance ≡ before.services_maintenance)

count_schedulers-SameServices :
    (schedulers : List (String × SchedulerStatus)) (o : Overview)
    → SameServices o (count_schedulers schedulers o)
unfolding count_schedulers
count_schedulers-SameServices [] o = (refl, refl, refl, refl, refl)
count_schedulers-SameServices ((id, found) ∷ schedulers) o =
    count_schedulers-SameServices schedulers _

one_of_two : (b : Bool) → one_if b + one_if (not b) ≡ 1
one_of_two true = refl
one_of_two false = refl

-- The loop over the services counts no scheduler.
count_services-none :
    (services : List (String × ServiceRecord)) (o : Overview)
    → (count_services services o).schedulers_active + (count_services services o).schedulers_paused
      ≡ o.schedulers_active + o.schedulers_paused
unfolding count_services
count_services-none [] o = refl
count_services-none ((id, found) ∷ services) o = count_services-none services _

count_schedulers-total :
    (schedulers : List (String × SchedulerStatus)) (o : Overview)
    → (count_schedulers schedulers o).schedulers_active
        + (count_schedulers schedulers o).schedulers_paused
      ≡ length schedulers + (o.schedulers_active + o.schedulers_paused)
unfolding count_schedulers
count_schedulers-total [] o = omega arith
count_schedulers-total ((id, found) ∷ schedulers) o =
    omega (arith, count_schedulers-total schedulers _, one_of_two found.enabled)

-- The overview counts every service and every scheduler once: the schedulers are active or paused,
-- and the services are healthy, degraded, down or in maintenance if they show one of these statuses.
pub overview-tally :
    (clock : ℕ → ℕ) (m : Manager)
    → AreKnown m.services
    → let o = overview clock m in
      (o.services_total ≡ length m.services)
      × (tally o ≡ length m.services)
      × (o.schedulers_active + o.schedulers_paused ≡ length m.schedulers)
unfolding overview
overview-tally clock m known =
    let o = empty_overview (clock m.reads) in
    let counted = count_services m.services o in
    let (total, healthy, degraded, down, maintenance) =
      count_schedulers-SameServices m.schedulers counted in
    (
      omega (arith, total, count_services-total m.services o),
      omega (arith, healthy, degraded, down, maintenance, count_services-tally m.services o known),
      omega (arith, count_schedulers-total m.schedulers counted, count_services-none m.services o),
    )

-- The status of the whole is the worst that a service shows: `down`, then `degraded`, then
-- `maintenance`, and `healthy` when no service shows one of these.
pub overview-worst : (clock : ℕ → ℕ) (m : Manager) → (overview clock m).status ≡ worst m.services
unfolding overview derive_overall_status
overview-worst clock m =
    let o = empty_overview (clock m.reads) in
    let counted = count_services m.services o in
    let (total, healthy, degraded, down, maintenance) =
      count_schedulers-SameServices m.schedulers counted in
    let h = count_services-HasCounted m.services o in
    rw (degraded, down, maintenance, h.down, h.degraded, h.maintenance) (ground arith)
