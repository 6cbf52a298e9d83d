-- ===== src/Runs/Service/Cycles.antt =====
-- Operations on cycles: `CreateCycle`, `GetCycle` and `UpdateCycle` of
-- internal/platform/runs/service.go.
use clawbot_server.Base.{
  String, Bool, true, false, not, ◌||◌, [], Option, none, some, ◌==◌, if◌then◌else◌,
}
use clawbot_server.Json.{str, end, field}
use clawbot_server.Text.{trim_space}
use clawbot_server.Runs.Types.{Run, Cycle, CreateCycleInput, UpdateCycleInput}
use clawbot_server.Runs.Types.Execution.{MemoryWriteInput}
use clawbot_server.Runs.Failure.{Failure}
use clawbot_server.Runs.Refs.{append_unique}
use clawbot_server.Runs.Namespace.{compose_memory_namespace}
use clawbot_server.Runs.Normalize.{normalize_create_cycle_input}
use clawbot_server.Runs.Merge.{merge_cycle}
use clawbot_server.Runs.Store.{of_cycle, Env, Action, pure, lift, ◌>>=◌, ◌>>◌, require, in_tx}
use clawbot_server.Runs.Repository.{get_run, update_run}
use clawbot_server.Runs.Repository.Cycles.{create_cycle_row, get_cycle_row, update_cycle_row}
use clawbot_server.Runs.Repository.Ledger.{
  append_governance_audit_event, record_audit, record_run_intent,
}
use clawbot_server.Runs.Service.{
  DependencyConfig, evaluate_and_record_policy, policy_denied_error, event_of, persist_notes,
}

abbrev note_only : String → MemoryWriteInput
note_only note = record {
  note = note;
  prior_cycle_summaries = [];
  carry_forward_risks = [];
  unresolved_gaps = [];
  backlog_items = [];
  reviewer_notes = [];
}

-- The trimmed note, if there is one.
abbrev pub note_of : Option String → Option String
note_of none = none
note_of (some note) = if trim_space note == "" then none else some (trim_space note)

-- What is done with the reference of a snapshot, if it is not empty: the cycle keeps it, and the run
-- is stored with one more reference.
unfoldable pub keep_snapshot : Env → Run → Cycle → String → Bool → Action (Run × Cycle)
keep_snapshot env run cycle ref true = pure (run, cycle)
keep_snapshot env run cycle ref false = do
  stored ←
      update_run env
        (record run { memory_snapshot_refs = append_unique run.memory_snapshot_refs ref })
  pure (stored, record cycle { memory_snapshot_ref = ref })

unfoldable pub write_note : Env → Run → Cycle → Option String → Option String → Action (Run × Cycle)
unfolding keep_snapshot
write_note env run cycle agent none = pure (run, cycle)
write_note env run cycle agent (some note) = do
  ref ← persist_notes env (compose_memory_namespace run cycle agent) (note_only note)
  keep_snapshot env run cycle ref (ref == "")

module _ (env : Env) (deps : DependencyConfig) where
  unfoldable pub create_cycle : String → CreateCycleInput → String → Action Cycle
  create_cycle given_run given actor = do
    let run_id = trim_space given_run
    require (not (run_id == "")) Failure.run_id_required
    input ← lift (normalize_create_cycle_input given)
    policy_run ← get_run env run_id
    decision ←
        evaluate_and_record_policy env deps "run.cycle.create" actor (some policy_run) none none
          (some input) none none
    require decision.allow (policy_denied_error decision)
    in_tx env (do
      run ← get_run env run_id
      require (run.run_type == "week_run") Failure.cycles_need_week_run
      created ← create_cycle_row env run_id input
      record_audit env "cycle" "run.cycle.created" actor created.id (of_cycle created)
      append_governance_audit_event env (
          event_of actor "user" "run.cycle.create" (some run.id) (some created.id)
            (some decision.id)
            (field "cycle_key" (str created.cycle_key)
              (field "execution_ring" (str created.execution_ring) end)))
      record_run_intent env run actor "run.cycle.created"
      pure created)

  unfoldable pub get_cycle : String → String → Action Cycle
  get_cycle run_id cycle_id = get_cycle_row env (trim_space run_id) (trim_space cycle_id)

  unfoldable pub update_cycle : String → String → UpdateCycleInput → String → Action Cycle
  unfolding write_note
  update_cycle given_run given_id input actor = do
    let run_id = trim_space given_run
    let cycle_id = trim_space given_id
    require (not (run_id == "" || cycle_id == "")) Failure.run_and_cycle_id_required
    in_tx env (do
      run ← get_run env run_id
      existing ← get_cycle_row env run_id cycle_id
      merged ← lift (merge_cycle existing input)
      written ← write_note env run merged input.agent_namespace (note_of input.memory_note)
      updated ← update_cycle_row env written.1
      record_audit env "cycle" "run.cycle.updated" actor updated.id (of_cycle updated)
      record_run_intent env written.0 actor "run.cycle.updated"
      pure updated)
