-- ===== src/Runs/Tests/Updates.antt =====
-- Tests of the updates of runs and cycles.
use clawbot_server.Base.{◌≡◌, refl, true, some, one_of, ◌↔◌}
use clawbot_server.Text.{trim_space}
use clawbot_server.Runs.Types.{Run, Cycle}
use clawbot_server.Runs.Failure.{ok}
use clawbot_server.Runs.Status.{
  is_valid_run_status, is_valid_run_type, is_valid_execution_mode, is_valid_execution_ring,
  is_valid_guardrail_status, is_valid_cycle_status, is_valid_cycle_transition,
}
use clawbot_server.Runs.Namespace.{normalize_memory_namespace}
use clawbot_server.Runs.Merge.{
  merge_run, merge_cycle, set_text, assign_run, check_run, default_run, merge_status,
}
use clawbot_server.Runs.Merge.Words.{
  AreValid, HasValidWords, AreSetTo, HasOriginOf, merge_run-accepts_iff, merge_run_words,
}
use clawbot_server.Runs.Merge.Tidy.{IsTidy, merge_run-IsTidy}
use clawbot_server.Runs.Merge.Cycles.{
  Follows, here, update, reachable_statuses, merge_cycle-Follows, Updated-reachable, Updated-final,
}
use clawbot_server.Runs.Tests.Samples.{week_run, set_run_status, first_day, set_cycle_status}

abbrev run_in_review : Run
run_in_review = record week_run { status = "review_pending" }

week_run_updated : merge_run week_run (set_run_status " review_pending ") ≡ ok run_in_review
unfolding merge_run assign_run check_run default_run trim_space normalize_memory_namespace
    is_valid_run_status is_valid_run_type is_valid_execution_mode is_valid_execution_ring
    is_valid_guardrail_status
week_run_updated = refl

merge_run_words_example :
    HasValidWords run_in_review
    × AreSetTo week_run (set_run_status " review_pending ") run_in_review
    × HasOriginOf week_run run_in_review
merge_run_words_example =
    merge_run_words week_run (set_run_status " review_pending ") run_in_review week_run_updated

merge_run-accepts_iff_example :
    ((merged : Run) × (merge_run week_run (set_run_status "done") ≡ ok merged))
    ↔ AreValid "week"
        (set_text (some "done") "running")
        "week_run"
        "dual"
        "ring_2"
        "guardrail_disabled"
merge_run-accepts_iff_example = merge_run-accepts_iff week_run (set_run_status "done")

week_run-IsTidy : IsTidy week_run
unfolding trim_space
week_run-IsTidy = record {
  datasets = (((refl, refl), tt), (refl, tt));
  artifacts = (tt, tt);
  snapshots = (tt, tt);
  namespace = ((refl, refl), (refl, refl));
  ended = refl;
}

merge_run-IsTidy_example : IsTidy run_in_review
merge_run-IsTidy_example =
    merge_run-IsTidy week_run (set_run_status " review_pending ") run_in_review week_run-IsTidy
      week_run_updated

abbrev running_day : Cycle
running_day = record first_day { status = "running" }

abbrev failed_day : Cycle
failed_day = record first_day { status = "failed" }

first_day_started : merge_cycle first_day (set_cycle_status "running") ≡ ok running_day
unfolding merge_cycle merge_status trim_space is_valid_cycle_status is_valid_cycle_transition
    is_valid_execution_ring is_valid_guardrail_status
first_day_started = refl

running_day_failed : merge_cycle running_day (set_cycle_status "failed") ≡ ok failed_day
unfolding merge_cycle merge_status trim_space is_valid_cycle_status is_valid_cycle_transition
    is_valid_execution_ring is_valid_guardrail_status
running_day_failed = refl

failed_day_kept : merge_cycle failed_day (set_cycle_status "failed") ≡ ok failed_day
unfolding merge_cycle merge_status trim_space is_valid_cycle_status is_valid_cycle_transition
    is_valid_execution_ring is_valid_guardrail_status
failed_day_kept = refl

merge_cycle-Follows_example : Follows first_day running_day
merge_cycle-Follows_example =
    merge_cycle-Follows first_day (set_cycle_status "running") running_day first_day_started

Updated-reachable_example : one_of reachable_statuses "failed" ≡ true
Updated-reachable_example = Updated-reachable {start = first_day} {cycle = failed_day} refl (
    update (set_cycle_status "failed") (update (set_cycle_status "running") here first_day_started)
      running_day_failed)

Updated-final_example : failed_day.status ≡ failed_day.status
Updated-final_example =
    Updated-final {start = failed_day} {cycle = failed_day} refl
      (update (set_cycle_status "failed") here failed_day_kept)
