-- ===== src/Ops/Services.antt =====
-- Maintenance of services, and what stays of a service through any requests.
use clawbot_server.Base.{
  ℕ, String, Bool, true, false, List, [], ◌∷◌, Option, none, some, ◌≡◌, refl, ◌==◌, arith, ap, sym,
  subst, Bool-cases, inl, inr, eq_iff, if◌then◌else◌,
}
use clawbot_server.Ops.{
  Manager, ServiceStatus, ServiceRecord, lookup, assign, service_status, snapshot_service,
  record_event, maintain, set_maintenance_locked, set_maintenance, resume_service,
}

module _ {A : Type 0} where
  pub lookup-assign :
      (id : String) (new old : A) (entries : List (String × A))
      → lookup id entries ≡ some old
      → lookup id (assign id new entries) ≡ some new
  lookup-assign id new old [] h = cc
  lookup-assign id new old ((key, a) ∷ entries) h = elim (Bool-cases (key == id)) [
    | inl same ↦ rw (same, same) refl
    | inr other ↦ rw (other, other) (lookup-assign id new old entries (rw other at h))
  ]

  pub lookup-assign_other :
      (id other : String) (new : A) (entries : List (String × A))
      → (other == id) ≡ false
      → lookup other (assign id new entries) ≡ lookup other entries
  lookup-assign_other id other new [] h = refl
  lookup-assign_other id other new ((key, a) ∷ entries) h = ground (
    arith,
    lookup-assign_other id other new entries h,
    eq_iff key id,
    eq_iff key other,
    eq_iff other id,
  )

-- The record of a service after its maintenance mode was set.
abbrev pub in_mode : Bool → ℕ → ServiceRecord → ServiceRecord
in_mode enabled at found = record found {
  status = record found.status { maintenance_mode = enabled; last_heartbeat_at = at };
}

-- What setting the maintenance mode of a service does.
abbrev pub IsMaintained :
    (ℕ → ℕ) → String → Bool → ServiceRecord → Manager → Option ServiceStatus × Manager → Type 0
IsMaintained clock id enabled found before (answer, after) =
    (lookup id after.services ≡ some (in_mode enabled (clock before.reads) found))
    × ((other : String)
        → (other == id) ≡ false
        → lookup other after.services ≡ lookup other before.services)
    × (after.schedulers ≡ before.schedulers)
    × ((status : ServiceStatus)
        → answer ≡ some status
        → status.status ≡ (if enabled then "maintenance" else found.active_status))

maintain_lem :
    (clock : ℕ → ℕ) (id actor : String) (enabled : Bool) (found : ServiceRecord) (m : Manager)
    → lookup id m.services ≡ some found
    → IsMaintained clock id enabled found m (maintain clock id actor enabled (some found) m)
unfolding maintain record_event snapshot_service service_status
maintain_lem clock id actor enabled found m h = (
  lookup-assign id (in_mode enabled (clock m.reads) found) found m.services h,
  λ other differs.
      lookup-assign_other id other (in_mode enabled (clock m.reads) found) m.services differs,
  refl,
  λ status same. ground arith,
)

-- Setting the maintenance mode of a known service, on or off, changes its mode and its heartbeat and
-- nothing else of it, no other service and no scheduler. What is returned shows `maintenance` when
-- it is on and the status that the service had on its own when it is off.
pub set_maintenance_locked_lem :
    (clock : ℕ → ℕ) (id actor : String) (enabled : Bool) (found : ServiceRecord) (m : Manager)
    → lookup id m.services ≡ some found
    → IsMaintained clock id enabled found m (set_maintenance_locked clock id actor enabled m)
unfolding set_maintenance_locked
set_maintenance_locked_lem clock id actor enabled found m h =
    subst (λ o. IsMaintained clock id enabled found m (maintain clock id actor enabled o m)) (sym h)
      (maintain_lem clock id actor enabled found m h)

abbrev pub map_status : Option ServiceRecord → Option String
map_status none = none
map_status (some found) = some (service_status found)

-- A service that is placed in maintenance and then resumed shows again what it showed on its own
-- before, whatever its mode was then.
pub resume-set_maintenance :
    (clock : ℕ → ℕ) (id actor other : String) (found : ServiceRecord) (m : Manager)
    → lookup id m.services ≡ some found
    → map_status
        (lookup id (resume_service clock id other (set_maintenance clock id actor m).1).1.services)
      ≡ some found.active_status
unfolding set_maintenance resume_service service_status
resume-set_maintenance clock id actor other found m h =
    let placed = set_maintenance_locked_lem clock id actor true found m h in
    let resumed =
      set_maintenance_locked_lem clock id other false _
        (set_maintenance_locked clock id actor true m).1 placed.0 in
    ap map_status resumed.0

-- An unknown service is refused, and nothing changes.
pub set_maintenance_locked_unknown :
    (clock : ℕ → ℕ) (id actor : String) (enabled : Bool) (m : Manager)
    → lookup id m.services ≡ none
    → set_maintenance_locked clock id actor enabled m ≡ (none, m)
unfolding set_maintenance_locked maintain
set_maintenance_locked_unknown clock id actor enabled m h = rw h refl
