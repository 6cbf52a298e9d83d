-- ===== src/Runs/Merge/Tidy.antt =====
-- An update keeps a stored run tidy.
use clawbot_server.Base.{String, List, Option, none, some, ◌≡◌, subst}
use clawbot_server.Runs.Types.{Run, UpdateInput}
use clawbot_server.Runs.Failure.{ok, >>=-eq-ok, ok-injective}
use clawbot_server.Runs.Refs.Clean.{IsClean, dedupe_and_trim_strings-IsClean}
use clawbot_server.Runs.Namespace.Total.{IsComplete, normalize_memory_namespace-IsComplete}
use clawbot_server.Runs.Merge.{set_refs, assign_run, check_run, default_run, merge_run}

-- The lists of references are clean, the namespace is complete, and the two times at which the run
-- ended agree.
pub record IsTidy (run : Run) : Type 0 where
  pub datasets : IsClean run.dataset_refs
  pub artifacts : IsClean run.artifact_bundle_refs
  pub snapshots : IsClean run.memory_snapshot_refs
  pub namespace : IsComplete run.memory_namespace
  pub ended : run.finished_at ≡ run.completed_at

set_refs-IsClean :
    (given : Option (List String)) (old : List String) → IsClean old → IsClean (set_refs given old)
set_refs-IsClean none old h = h
set_refs-IsClean (some values) old h = (dedupe_and_trim_strings-IsClean values).0

default_run-IsTidy :
    (existing : Run) (input : UpdateInput)
    → IsTidy existing
    → IsTidy (default_run (assign_run existing input))
unfolding default_run assign_run
default_run-IsTidy existing input t = record {
  datasets = set_refs-IsClean input.dataset_refs existing.dataset_refs t.datasets;
  artifacts = set_refs-IsClean input.artifact_bundle_refs existing.artifact_bundle_refs t.artifacts;
  snapshots = set_refs-IsClean input.memory_snapshot_refs existing.memory_snapshot_refs t.snapshots;
  namespace = normalize_memory_namespace-IsComplete _ _ _ _;
  ended = rw t.ended;
}

-- Every accepted update of a tidy run gives a tidy run, whatever times and lists the input sets.
pub merge_run-IsTidy :
    (existing : Run) (input : UpdateInput) (merged : Run)
    → IsTidy existing
    → merge_run existing input ≡ ok merged
    → IsTidy merged
unfolding merge_run
merge_run-IsTidy existing input merged t h =
    let (done, checked, same) = >>=-eq-ok (check_run (assign_run existing input)) _ h in
    subst IsTidy (ok-injective same) (default_run-IsTidy existing input t)
