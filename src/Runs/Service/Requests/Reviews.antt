-- ===== src/Runs/Service/Requests/Reviews.antt =====
-- What a review leaves in the database.
use clawbot_server.Base.{
  String, ◌≡◌, refl, sym, subst, ap, ◌∙◌, IsAmong, IsAmong-append, inl, inr, ◌⊎◌, [], ◌∷◌, Option,
  none, some, All-one_of, arith,
}
use clawbot_server.Text.{trim_space, to_lower}
use clawbot_server.Runs.Types.{Run}
use clawbot_server.Runs.Types.Governance.{
  ReviewActionInput, ReviewActionRecord, GovernanceAuditEventInput,
}
use clawbot_server.Runs.Failure.{Result, ok, ok-injective}
use clawbot_server.Runs.Normalize.{normalize_review_action_input, validate_review_action_input}
use clawbot_server.Runs.Store.{World, Db, Env, Action, Payload, pure, lift, ◌>>=◌}
use clawbot_server.Runs.Store.Steps.{Keeps}
use clawbot_server.Runs.Store.Outcomes.{
  Ensures, Anything, Ensures-bind, Ensures-pure, Ensures-keeps, Ensures-store, Ensures-in_tx,
  Ensures-after, Ensures-given, Ensures-lift,
}
use clawbot_server.Runs.Repository.{update_run}
use clawbot_server.Runs.Repository.Tables.{Keeps-append_governance_audit_event}
use clawbot_server.Runs.Repository.Decisions.{record_review_action}
use clawbot_server.Runs.Repository.Ledger.{
  append_governance_audit_event, record_audit, record_run_intent,
}
use clawbot_server.Runs.Service.{DependencyConfig}
use clawbot_server.Runs.Service.Guards.{
  map_review_action_to_run_status, map_review_action_to_cycle_status,
}
use clawbot_server.Runs.Service.Runs.{given_id, review_cycle, apply_review, review_action}
use clawbot_server.Runs.Service.Execution.Denied.{
  RunHas, CycleHas, get_run-id, get_cycle_row-id, update_cycle_row-CycleHas,
}
use clawbot_server.Runs.Service.Execute.Stays.{
  rows_stay, AllowsPolicy-rows_stay, stays-record_audit, stays-record_review_action,
}
use clawbot_server.Runs.Service.Execute.Steps.{
  CycleEnds, RunHas-stays, CycleEnds-stays, Ensures-and, update_run-Stored,
}
use clawbot_server.Runs.Service.Requests.Rules.{keeps_rules, request_rules}
use clawbot_server.Runs.Service.Requests.Tables.{Keeps-review_cycle}
use clawbot_server.Runs.Service.Requests.Logs.{
  AreAppended, appended, AllowsPolicy-appended, Allows-appended,
}

-- The status that the word of a review stands for.
abbrev pub IsDecision : String → String → Type 0
IsDecision action status =
    ((action ≡ "approve") × (status ≡ "approved"))
    ⊎ ((action ≡ "reject") × (status ≡ "rejected"))
    ⊎ ((action ≡ "override") × (status ≡ "overridden"))
    ⊎ ((action ≡ "defer") × (status ≡ "deferred"))

-- A review of a run is recorded, with what the reviewer said and the status that it gives.
abbrev pub HasReview : String → ReviewActionInput → String → Db → Type 0
HasReview run input status db =
    (row : ReviewActionRecord) × IsAmong row db.reviews
    × (row.run_id ≡ run)
    × (row.action_type ≡ input.action)
    × (row.reviewer_id ≡ input.reviewer_id)
    × (row.rationale ≡ input.rationale)
    × (row.new_status ≡ status)

-- The run, the cycle that the review names, and the record of the review.
abbrev Leaves : String → ReviewActionInput → String → Db → Type 0
Leaves run input status db =
    RunHas run status db
    × CycleEnds (given_id input.cycle_id) status db
    × HasReview run input status db

-- What a review by this input leaves.
abbrev pub IsReviewed : String → ReviewActionInput → Run → Db → Type 0
IsReviewed run input reviewed db =
    (reviewed.id ≡ run)
    × IsDecision input.action reviewed.status
    × RunHas run reviewed.status db
    × CycleEnds (given_id input.cycle_id) reviewed.status db
    × HasReview run input reviewed.status db

HasReview-stable :
    (run : String) (input : ReviewActionInput) (status : String) (before after : Db)
    → AreAppended before after
    → HasReview run input status before
    → HasReview run input status after
HasReview-stable run input status before after (decisions, (new, e), chain, audits)
      (row, among, r, a, p, t, n) =
    (row, subst (IsAmong row) (sym e) (IsAmong-append row new before.reviews among), r, a, p, t, n)

module _ (env : Env) where
  record_review_action-HasReview :
      (run : String) (input : ReviewActionInput) (prior status : String)
      → Ensures Anything
          (record_review_action env run input prior status)
          (λ row. HasReview run input status)
  unfolding record_review_action
  record_review_action-HasReview run input prior status = Ensures-after _ _ λ now.
      Ensures-after _ _ λ id. Ensures-after _ _ λ db. Ensures-bind _ _ (Ensures-store _) λ u.
        Ensures-pure _ (λ after same. (
          _,
          subst (IsAmong _) (sym (ap (λ t. t.reviews) same)) (inl refl),
          refl,
          refl,
          refl,
          refl,
          refl,
        ))

ruleset after_rules = (request_rules, Allows-appended, AllowsPolicy-appended)

ruleset log_rules = (keeps_rules, Keeps-append_governance_audit_event, AllowsPolicy-rows_stay)

-- An accepted word is one of four, and the status is that of the word.
accepted-IsDecision :
    (input : ReviewActionInput) (status : String)
    → validate_review_action_input input ≡ ok tt
    → map_review_action_to_run_status input.action ≡ ok status
    → IsDecision input.action status
unfolding validate_review_action_input map_review_action_to_run_status trim_space to_lower
accepted-IsDecision input status valid mapped =
    All-one_of
      (λ action. map_review_action_to_run_status action ≡ ok status → IsDecision action status)
      ("approve" ∷ "reject" ∷ "override" ∷ "defer" ∷ []) input.action
      (
        (λ h. inl (refl, sym (ok-injective h))),
        (
          (λ h. inr (inl (refl, sym (ok-injective h)))),
          (
            (λ h. inr (inr (inl (refl, sym (ok-injective h))))),
            ((λ h. inr (inr (inr (refl, sym (ok-injective h))))), tt),
          ),
        ),
      )
      (ground arith) mapped

-- A result that is known, of an action that leaves the tables.
Ensures-known :
    {P : Db → Type 0} {A : Type 0} (r : Result A) (a : A)
    → r ≡ ok a
    → Ensures P (lift r) (λ b db. P db × (b ≡ a))
unfolding lift
Ensures-known r a known = record { holds = λ w p b e. (p, ok-injective (sym e ∙ known)) }

module _ (env : Env) where
  -- Storing a run with the identifier and the status of another.
  update_run-Ends :
      (item : Run) (run : String)
      → item.id ≡ run
      → Ensures Anything (update_run env item) (λ updated db.
        ((updated.id ≡ run) × (updated.status ≡ item.status)) × RunHas run item.status db)
  update_run-Ends item run same = record {
    holds = λ w t updated e.
        let ((named, status, mode), stored) = (update_run-Stored env item).holds w t updated e in
        (
          (named ∙ same, status),
          subst (λ id. RunHas id item.status (update_run env item w).1.db) same stored,
        );
  }

  record_review_action-Leaves :
      (run : String) (input : ReviewActionInput) (prior status : String)
      → Ensures
          (RunHas run status)
          (record_review_action env run input prior status)
          (λ row db. RunHas run status db × HasReview run input status db)
  record_review_action-Leaves run input prior status = record {
    holds = λ w stored row e. (
      (Ensures-keeps rows_stay _ (RunHas-stays run status)
            (stays-record_review_action env run input prior status)).holds
          w stored row e,
      (record_review_action-HasReview env run input prior status).holds w tt row e,
    );
  }

  review_cycle-Ends :
      (run : String) (id : Option String) (action status : String)
      → map_review_action_to_cycle_status action ≡ ok status
      → Ensures
          (RunHas run status)
          (review_cycle env run id action)
          (λ u db. RunHas run status db × CycleEnds id status db)
  unfolding review_cycle
  review_cycle-Ends run none action status known = Ensures-pure tt (λ db stored. (stored, tt))
  review_cycle-Ends run (some id) action status known =
      Ensures-bind _ _ (get_cycle_row-id env {P = RunHas run status} run id) λ loaded. record {
        holds = λ w (stored, in_run, same).
            (Ensures-bind {P = RunHas run status}
                {Q = λ u db. RunHas run status db × CycleHas id status db} _ _
                (Ensures-known _ status known)
                λ given. record {
                  holds = λ w' (kept, is).
                      (Ensures-bind {Q = λ u db. RunHas run status db × CycleHas id status db} _ _
                          (update_cycle_row-CycleHas env run status
                            (record loaded { status = given }))
                          λ c. Ensures-pure tt (λ db (r, h). (
                            r,
                            subst (λ s. CycleHas id s db) is
                                (subst (λ n. CycleHas n given db) same h),
                          ))).holds
                        w' kept;
                }).holds
              w stored;
      }

module _ (env : Env) (deps : DependencyConfig) where
  review_cycle-Leaves :
      (run : String) (input : ReviewActionInput) (status : String)
      → map_review_action_to_cycle_status input.action ≡ ok status
      → Ensures
          (λ db. RunHas run status db × HasReview run input status db)
          (review_cycle env run (given_id input.cycle_id) input.action)
          (λ u. Leaves run input status)
  review_cycle-Leaves run input status known = record {
    holds = λ w (stored, recorded) u e.
        let (kept, ends) =
          (review_cycle-Ends env run (given_id input.cycle_id) input.action status known).holds w
            stored u e in
        (
          kept,
          ends,
          (Ensures-keeps appended _ (HasReview-stable run input status) (
                Keeps-review_cycle env deps appended (Allows-appended env) run
                  (given_id input.cycle_id) input.action)).holds
              w recorded u e,
        );
  }

  -- A log keeps what the review leaves.
  after_log :
      {A B : Type 0} {Q : B → Db → Type 0} (run : String) (input : ReviewActionInput)
      (status : String) (m : Action A) (f : A → Action B)
      → Keeps rows_stay m
      → Keeps appended m
      → ((a : A) → Ensures (Leaves run input status) (f a) Q)
      → Ensures (Leaves run input status) (m >>= f) Q
  after_log run input status m f stays k h =
      Ensures-bind m f
        (record {
          holds = λ w (stored, ends, recorded) a e. (
            RunHas-stays run status w.db (m w).1.db (stays.at w) stored,
            CycleEnds-stays (given_id input.cycle_id) status w.db (m w).1.db (stays.at w) ends,
            HasReview-stable run input status w.db (m w).1.db (k.at w) recorded,
          );
        })
        h

  logged :
      {Q : Run → Db → Type 0} (run : String) (input : ReviewActionInput) (status actor : String)
      (updated : Run) (audit : Payload) (event : GovernanceAuditEventInput)
      → ((db : Db) → Leaves run input status db → Q updated db)
      → Ensures
          (Leaves run input status)
          (record_audit env "run" "run.review.action" actor updated.id audit >>= λ u.
            append_governance_audit_event env event >>= λ v.
            record_run_intent env updated actor "run.review.action" >>= λ x. pure updated)
          Q
  unfolding record_run_intent
  logged run input status actor updated audit event ends =
      after_log run input status _ _ (stays-record_audit env _ _ _ _ _) (search after_rules depth 8)
        λ u.
          after_log run input status _ _ (search log_rules depth 8) (search after_rules depth 8)
            λ v.
              after_log run input status _ _ (stays-record_audit env _ _ _ _ _)
                (search after_rules depth 8) λ x. Ensures-pure updated ends

  apply_review-IsReviewed :
      (run : String) (input : ReviewActionInput) (actor decision : String)
      → validate_review_action_input input ≡ ok tt
      → Ensures Anything (apply_review env deps run input actor decision) (IsReviewed run input)
  unfolding apply_review map_review_action_to_run_status map_review_action_to_cycle_status
  apply_review-IsReviewed run input actor decision valid =
      Ensures-bind _ _ (get_run-id env run) λ before. Ensures-given λ named.
        Ensures-bind _ _ (Ensures-lift _) λ status. Ensures-given λ known. Ensures-after _ _ λ at.
          Ensures-after _ _ λ metadata.
            Ensures-bind _ _ (update_run-Ends env _ run named) λ updated.
              Ensures-and λ (same, given).
                Ensures-bind _ _ (record_review_action-Leaves env run _ before.status status) λ row.
                  Ensures-bind _ _ (review_cycle-Leaves run input status known) λ u.
                    logged run input status actor updated _ _ (λ db (stored, ends, recorded).
                      rw given (
                        same,
                        accepted-IsDecision input status valid known,
                        stored,
                        ends,
                        recorded,
                      ))

  review_action-Ensures :
      (run : String) (input : ReviewActionInput) (actor : String)
      → Ensures Anything
          (review_action env deps run input actor)
          (IsReviewed (trim_space run) (normalize_review_action_input input actor))
  unfolding review_action
  review_action-Ensures run input actor = Ensures-after _ _ λ named.
      Ensures-bind _ _ (Ensures-lift _) λ u. Ensures-given λ valid. Ensures-after _ _ λ found.
        Ensures-after _ _ λ cycle. Ensures-after _ _ λ d.
          Ensures-after _ _
            λ allowed. Ensures-in_tx env _ (apply_review-IsReviewed _ _ _ d.id valid)

-- A review that succeeds gives the run the status that its action stands for: approved, rejected,
-- overridden or deferred. The run is stored with this status, and so is the cycle, if the review names
-- one; and the review is on record, under that run, with the action, the reviewer, the rationale and
-- the status given.
pub review_action-reviews :
    (env : Env) (deps : DependencyConfig) (run : String) (input : ReviewActionInput)
    (actor : String) (w : World) (reviewed : Run)
    → (review_action env deps run input actor w).0 ≡ ok reviewed
    → IsReviewed
        (trim_space run)
        (normalize_review_action_input input actor)
        reviewed
        (review_action env deps run input actor w).1.db
review_action-reviews env deps run input actor w reviewed succeeded =
    (review_action-Ensures env deps run input actor).holds w tt reviewed succeeded
