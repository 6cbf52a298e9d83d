-- ===== src/Runs/Service/Execute/Ended.antt =====
-- How an execution ends: the statuses of its run and of its cycle.
use clawbot_server.Base.{String, Option, ◌≡◌, ◌∙◌}
use clawbot_server.Text.{trim_space}
use clawbot_server.Runs.Types.{Run}
use clawbot_server.Runs.Types.Execution.{ModelProfile, ExecuteRunInput, ExecuteRunResult}
use clawbot_server.Runs.Config.{DependencyConfig}
use clawbot_server.Runs.Failure.{ok}
use clawbot_server.Runs.Store.{World, Db, Env}
use clawbot_server.Runs.Store.Outcomes.{
  Ensures, Anything, Ensures-bind, Ensures-pure, Ensures-in_tx, Ensures-after, Ensures-given,
  Ensures-keeps,
}
use clawbot_server.Runs.Service.Guards.Known.{IsKnown}
use clawbot_server.Runs.Service.Execution.Denied.{RunHas, get_run-id}
use clawbot_server.Runs.Service.Execution.Resolved.{resolve_execution_cycle-Ensures}
use clawbot_server.Runs.Service.Phases.{Produced}
use clawbot_server.Runs.Service.Finish.{log_execution}
use clawbot_server.Runs.Service.Execute.Final.{IsFinal, final_run_status-IsFinal}
use clawbot_server.Runs.Service.Execute.Stays.{rows_stay, stays-log_execution}
use clawbot_server.Runs.Service.Execute.{perform, execute_run}
use clawbot_server.Runs.Service.Execute.Steps.{
  CycleEnds, IsResolved-Matches, RunHas-stays, CycleEnds-stays, Ensures-and,
  run_deterministic-status, run_inference-status, start_cycle-Matches, finish_cycle-CycleEnds,
  finish_run-Stored,
}

-- The statuses at the end of an execution of this run.
abbrev pub IsEnded : String → ExecuteRunResult → Db → Type 0
IsEnded run result db =
    (result.run_id ≡ run)
    × IsFinal result.execution_mode result.guardrail_status result.status
    × IsKnown result.guardrail_status
    × RunHas result.run_id result.status db
    × CycleEnds result.cycle_id result.status db

module _ (env : Env) (deps : DependencyConfig) where
  -- The end of the transaction keeps what is stored of the run and of the cycle.
  logged :
      (actor : String) (run : Run) (id : Option String) (decision : String) (produced : Produced)
      (name status : String)
      → Ensures
          (λ db. RunHas name status db × CycleEnds id status db)
          (log_execution env actor run id decision produced)
          (λ u db. RunHas name status db × CycleEnds id status db)
  logged actor run id decision produced name status =
      Ensures-keeps rows_stay _
        (λ before after same (stored, ends). (
          RunHas-stays name status before after same stored,
          CycleEnds-stays id status before after same ends,
        ))
        (stays-log_execution env actor run id decision produced)

  perform-IsEnded :
      (run_id : String) (forced : Option String) (input : ExecuteRunInput) (actor : String)
      (profile : Option ModelProfile) (decision : String)
      → Ensures Anything
          (perform env deps run_id forced input actor profile decision)
          (IsEnded run_id)
  unfolding perform
  perform-IsEnded run_id forced input actor profile decision =
      Ensures-bind _ _ (get_run-id env run_id) λ read. Ensures-given λ named.
        Ensures-after _ _ λ supported.
          Ensures-bind _ _ (resolve_execution_cycle-Ensures env read forced input.cycle_id)
            λ (found, id). Ensures-given λ resolved. Ensures-after _ _ λ at.
              Ensures-after _ _ λ running.
                Ensures-bind _ _
                  (start_cycle-Matches env found id at (IsResolved-Matches read found id resolved))
                  λ cycle. Ensures-given λ matched. Ensures-after _ _ λ memory.
                    Ensures-bind _ _ (run_deterministic-status env _ _ cycle id memory input)
                      λ first. Ensures-given λ known.
                        Ensures-bind _ _
                          (run_inference-status env deps _ _ cycle id memory input profile first
                            known)
                          λ produced. Ensures-given λ known_end. Ensures-after _ _ λ comparison.
                            Ensures-after _ _ λ ref. Ensures-after _ _ λ finished.
                              Ensures-bind _ _
                                (finish_run-Stored env _ produced ref decision finished)
                                λ updated. Ensures-and λ (same_id, same_status, same_mode).
                                  Ensures-bind _ _
                                    (finish_cycle-CycleEnds env _ _ cycle id _ produced ref finished
                                      matched)
                                    λ u.
                                      Ensures-bind _ _
                                        (logged actor updated id decision produced _ _)
                                        λ v. Ensures-pure _ (λ db (stored, ends). (
                                          same_id ∙ named,
                                          rw (same_mode, same_status)
                                              (final_run_status-IsFinal _ _),
                                          known_end,
                                          rw (same_id, same_status) stored,
                                          rw same_status ends,
                                        ))

  execute_run-Ensures :
      (given : String) (forced : Option String) (input : ExecuteRunInput) (actor : String)
      → Ensures Anything
          (execute_run env deps given forced input actor)
          (IsEnded (trim_space given))
  unfolding execute_run
  execute_run-Ensures given forced input actor = Ensures-after _ _ λ named. Ensures-after _ _ λ run.
      Ensures-after _ _ λ resolved. Ensures-after _ _ λ profile.
        Ensures-after _ _ λ decision.
          Ensures-after _ _ λ admitted. Ensures-in_tx env _ (perform-IsEnded _ _ _ _ _ _)

-- An execution that succeeds is about the run that was asked for. It ends with the run stored as
-- `completed` in the deterministic mode, else as `guardrail_deferred` where the guardrail timed out or
-- was unavailable, else as `review_pending`; the cycle, if there is one, is stored with the same
-- status. The result has this status, and its guardrail status is a known one.
pub execute_run-IsEnded :
    (env : Env) (deps : DependencyConfig) (run_id : String) (forced : Option String)
    (input : ExecuteRunInput) (actor : String) (w : World) (result : ExecuteRunResult)
    → (execute_run env deps run_id forced input actor w).0 ≡ ok result
    → IsEnded (trim_space run_id) result (execute_run env deps run_id forced input actor w).1.db
execute_run-IsEnded env deps run_id forced input actor w result succeeded =
    (execute_run-Ensures env deps run_id forced input actor).holds w tt result succeeded
