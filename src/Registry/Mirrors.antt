-- ===== src/Registry/Mirrors.antt =====
-- The rows of a registry are what its audit events say, whatever happens.
use clawbot_server.Base.{
  ℕ, String, false, List, [], ◌∷◌, Option, none, some, ◌≡◌, refl, subst, ◌∙◌, Bool-cases,
  Option-cases, inl, inr, ◌==◌, eq_of_test, if◌then◌else◌,
}
use clawbot_server.Runs.Repository.{find_by, replace_by}
use clawbot_server.Runs.Service.Execution.Denied.{find_by-replace_by, find_by_id}
use clawbot_server.Registry.Keeps.{Gives, Stays, within_tx-Stays, then-Gives, Result-cases}
use clawbot_server.Registry.{
  Kind, RegistryEvent, State, Outside, ◌>>◌, pure, record_change, get_entry, insert_row, update_row,
  create_entry, update_entry, merge_in_tx,
}

-- The row in the newest event of an identifier.
abbrev pub latest : {A : Type 0} → (A → String) → String → List (RegistryEvent A) → Option A
latest id_of id [] = none
latest id_of id (event ∷ events) =
    if id_of event.payload == id then some event.payload else latest id_of id events

module _ {A C U : Type 0} (kind : Kind A C U) where
  -- An update keeps the identifier of a row.
  abbrev pub KeepsId : Type 0
  KeepsId = (row item : A) (now : ℕ) → kind.id_of (kind.stored row item now) ≡ kind.id_of row

  -- What the table has under an identifier is what its newest event says.
  abbrev pub Mirrors : List A → List (RegistryEvent A) → Type 0
  Mirrors rows audits = (id : String) → find_by kind.id_of id rows ≡ latest kind.id_of id audits

  abbrev StateMirrors : State A → Type 0
  StateMirrors w = Mirrors w.rows w.audits

  -- A row that is there under its identifier now, and the others mirrored.
  abbrev Ahead : A → State A → Type 0
  Ahead row w =
      (id : String)
      → find_by kind.id_of id w.rows
        ≡ (if kind.id_of row == id then some row else latest kind.id_of id w.audits)

  find_by-replace_by_other :
      (id other : String) (change : A → A) (rows : List A)
      → ((row : A) → kind.id_of (change row) ≡ kind.id_of row)
      → (id == other) ≡ false
      → find_by kind.id_of other (replace_by kind.id_of id change rows)
        ≡ find_by kind.id_of other rows
  find_by-replace_by_other id other change [] kept apart = refl
  find_by-replace_by_other id other change (row ∷ rows) kept apart =
      let rest = find_by-replace_by_other id other change rows kept apart in
      elim (Bool-cases (kind.id_of row == id)) [
        | inl same ↦
            let unlike : (kind.id_of row == other) ≡ false =
              rw (eq_of_test (kind.id_of row) id same) apart in
            rw (same, kept row, unlike) rest
        | inr unlike ↦ elim (Bool-cases (kind.id_of row == other)) [
          | inl here ↦ rw (unlike, here) refl
          | inr there ↦ rw (unlike, there) rest
        ]
      ]

  module _ (env : Outside) where
    -- The event of a row, and the row as the result.
    audited :
        (event_type actor : String) (row : A) (w : State A)
        → Ahead row w
        → Gives
            (λ b w'. StateMirrors w')
            ((record_change env kind event_type actor row >> pure row) w)
    unfolding record_change
    audited event_type actor row w ahead = elim (Bool-cases (env.succeeds w.calls)) [
      | inl sent ↦ rw sent ahead
      | inr failed ↦ rw failed tt
    ]

    insert_row-Ahead :
        (input : C) (w : State A) → StateMirrors w → Gives Ahead (insert_row env kind input w)
    unfolding insert_row
    insert_row-Ahead input w mirrored = elim (Result-cases (kind.insert_columns input)) [
      | inl (ready, fits) ↦ elim (Bool-cases (env.succeeds w.calls)) [
        | inl sent ↦ rw (fits, sent) (λ id. rw (mirrored id) refl)
        | inr failed ↦ rw (fits, failed) tt
      ]
      | inr (e, refused) ↦ rw refused tt
    ]

    get_entry-Mirrors :
        (id : String) (w : State A)
        → StateMirrors w
        → Gives (λ row w'. StateMirrors w') (get_entry env kind id w)
    unfolding get_entry
    get_entry-Mirrors id w mirrored = elim (Bool-cases (env.succeeds w.calls)) [
      | inl sent ↦ elim (Option-cases (find_by kind.id_of id w.rows)) [
        | inl absent ↦ rw sent (rw absent tt)
        | inr (row, found) ↦ rw sent (rw found mirrored)
      ]
      | inr failed ↦ rw failed tt
    ]

    -- The table with the row of an identifier changed.
    replaced-Ahead :
        (keeps : KeepsId) (target : String) (ready old : A) (now : ℕ) (rows : List A)
        (audits : List (RegistryEvent A))
        → find_by kind.id_of target rows ≡ some old
        → Mirrors rows audits
        → (id : String)
        → find_by kind.id_of id
            (replace_by kind.id_of target (λ row. kind.stored row ready now) rows)
          ≡ (if kind.id_of (kind.stored old ready now) == id
              then some (kind.stored old ready now)
              else latest kind.id_of id audits)
    replaced-Ahead keeps target ready old now rows audits found mirrored id =
        let change : A → A = λ row. kind.stored row ready now in
        let named = keeps old ready now ∙ find_by_id kind.id_of target rows old found in
        elim (Bool-cases (target == id)) [
          | inl same ↦
              rw (named, same)
                (subst
                  (λ i.
                    find_by kind.id_of i (replace_by kind.id_of target change rows)
                    ≡ some (change old))
                  (eq_of_test target id same)
                  (find_by-replace_by kind.id_of target change rows old (λ r. keeps r ready now)
                    found))
          | inr other ↦
              rw (named, other)
                (find_by-replace_by_other target id change rows (λ r. keeps r ready now) other
                  ∙ mirrored id)
        ]

    update_row-Ahead :
        (keeps : KeepsId) (item : A) (w : State A)
        → StateMirrors w
        → Gives Ahead (update_row env kind item w)
    unfolding update_row
    update_row-Ahead keeps item w mirrored = elim (Result-cases (kind.update_columns item)) [
      | inl (ready, fits) ↦ elim (Bool-cases (env.succeeds w.calls)) [
        | inl sent ↦ elim (Option-cases (find_by kind.id_of (kind.id_of item) w.rows)) [
          | inl absent ↦ rw (fits, sent, absent) tt
          | inr (old, found) ↦
              rw (fits, sent, found)
                (replaced-Ahead keeps (kind.id_of item) ready old _ w.rows w.audits found mirrored)
        ]
        | inr failed ↦ rw (fits, failed) tt
      ]
      | inr (e, refused) ↦ rw refused tt
    ]

    create_entry-Mirrors :
        (input : C) (actor : String) → Stays env Mirrors (create_entry env kind input actor)
    unfolding create_entry
    create_entry-Mirrors input actor w mirrored = elim (Result-cases (kind.prepare input)) [
      | inl (ready, fits) ↦ rw fits (
          within_tx-Stays env Mirrors _
            (λ v before.
              then-Gives Ahead (λ b w'. StateMirrors w') (insert_row env kind ready v) _
                (insert_row-Ahead ready v before)
                (λ row u ahead. audited kind.created_event actor row u ahead))
            w mirrored)
      | inr (e, refused) ↦ rw refused mirrored
    ]

    update_entry-Mirrors :
        (keeps : KeepsId) (id : String) (input : U) (actor : String)
        → Stays env Mirrors (update_entry env kind id input actor)
    unfolding update_entry
    update_entry-Mirrors keeps id input actor = within_tx-Stays env Mirrors _ (λ v before.
        then-Gives (λ row w'. StateMirrors w') (λ b w'. StateMirrors w') (get_entry env kind id v)
          (merge_in_tx env kind input actor) (get_entry-Mirrors id v before)
          (λ existing u same. elim (Result-cases (kind.merge existing input)) [
            | inl (merged, fits) ↦ rw fits (
                then-Gives Ahead (λ b w'. StateMirrors w') (update_row env kind merged u) _
                  (update_row-Ahead keeps merged u same)
                  (λ row x ahead. audited kind.updated_event actor row x ahead))
            | inr (e, refused) ↦ rw refused tt
          ]))

-- Creations and updates, one after the other, each with any outcome.
pub data History {A C U : Type 0} (kind : Kind A C U) (env : Outside)
    : State A → State A → Type 0 where
  begun : {w : State A} → History kind env w w
  created :
      {w w' : State A} (input : C) (actor : String)
      → History kind env w w'
      → History kind env w (create_entry env kind input actor w').1
  updated :
      {w w' : State A} (id : String) (input : U) (actor : String)
      → History kind env w w'
      → History kind env w (update_entry env kind id input actor w').1

-- In a registry whose updates keep the identifier of a row, creations and updates, each with any
-- outcome of its calls, keep the table and the audit events in step: under every identifier the table
-- has the row of the newest event with it, and no row where there is no event.
pub History-Mirrors :
    {A C U : Type 0} (kind : Kind A C U) (env : Outside) (w w' : State A)
    → KeepsId kind
    → Mirrors kind w.rows w.audits
    → History kind env w w'
    → Mirrors kind w'.rows w'.audits
History-Mirrors kind env w w' keeps mirrored begun = mirrored
History-Mirrors kind env w w' keeps mirrored (created input actor history) =
    create_entry-Mirrors kind env input actor _
      (History-Mirrors kind env w _ keeps mirrored history)
History-Mirrors kind env w w' keeps mirrored (updated id input actor history) =
    update_entry-Mirrors kind env keeps id input actor _
      (History-Mirrors kind env w _ keeps mirrored history)
