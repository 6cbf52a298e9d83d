-- ===== src/Registry/Valid.antt =====
-- Every row of a registry has what the checks of its kind ask.
use clawbot_server.Base.{
  ℕ, String, true, false, List, [], ◌∷◌, ◌≡◌, Bool-cases, Option-cases, inl, inr, subst, ◌==◌, All,
  if◌then◌else◌,
}
use clawbot_server.Json.{Raw}
use clawbot_server.Text.{trim_space}
use clawbot_server.Runs.Repository.{find_by, replace_by}
use clawbot_server.Registry.{
  Kind, RegistryEvent, State, Outside, Result, ok, err, jsonb, ◌>>=◌, ◌>>◌, pure, create_in_tx,
  merge_in_tx, record_change, get_entry, insert_row, update_row, create_entry, update_entry,
}
use clawbot_server.Registry.Keeps.{Gives, Stays, within_tx-Stays, then-Gives, Result-cases}
use clawbot_server.Registry.Mirrors.{History, begun, created, updated}
use clawbot_server.Registry.Bots.{
  Bot, CreateBotInput, bots, is_valid_bot_status, prepare_bot, insert_bot_columns, new_bot,
  merge_bot, merged_bot, checked_bot, with_config, update_bot_columns, stored_bot,
}

-- The checks of a kind give this of every row that they let through.
abbrev Grants : {A C U : Type 0} → Kind A C U → (A → Type 0) → Type 0
Grants {A} {C} {U} kind P =
    ((input ready columns : C) (id : String) (now : ℕ)
      → kind.prepare input ≡ ok ready
      → kind.insert_columns ready ≡ ok columns
      → P (kind.new_row columns id now))
    × ((existing merged columns row : A) (input : U) (now : ℕ)
        → kind.merge existing input ≡ ok merged
        → kind.update_columns merged ≡ ok columns
        → P (kind.stored row columns now))

All-replace_by :
    {A : Type 0} (P : A → Type 0) (id_of : A → String) (id : String) (change : A → A)
    (rows : List A)
    → ((row : A) → P (change row))
    → All P rows
    → All P (replace_by id_of id change rows)
All-replace_by P id_of id change [] p all = tt
All-replace_by P id_of id change (row ∷ rows) p (first, rest) =
    elim (Bool-cases (id_of row == id)) [
      | inl same ↦ rw same ((p row, All-replace_by P id_of id change rows p rest))
      | inr other ↦ rw other ((first, All-replace_by P id_of id change rows p rest))
    ]

module _ {A C U : Type 0} (kind : Kind A C U) (env : Outside) (P : A → Type 0) where
  abbrev RowsHave : List A → List (RegistryEvent A) → Type 0
  RowsHave rows audits = All P rows

  abbrev HasRows : {B : Type 0} → B → State A → Type 0
  HasRows b w = All P w.rows

  audited-RowsHave :
      (event_type actor : String) (row : A) (w : State A)
      → All P w.rows
      → Gives HasRows ((record_change env kind event_type actor row >> pure row) w)
  unfolding record_change
  audited-RowsHave event_type actor row w all = elim (Bool-cases (env.succeeds w.calls)) [
    | inl sent ↦ rw sent all
    | inr failed ↦ rw failed tt
  ]

  create_entry-RowsHave :
      Grants kind P
      → (input : C) (actor : String) → Stays env RowsHave (create_entry env kind input actor)
  unfolding create_entry insert_row
  create_entry-RowsHave (fresh, changed) input actor w all =
      elim (Result-cases (kind.prepare input)) [
        | inl (ready, fits) ↦ rw fits (
            within_tx-Stays env RowsHave (create_in_tx env kind ready actor)
              (λ v before.
                then-Gives HasRows HasRows (insert_row env kind ready v)
                  (λ row. record_change env kind kind.created_event actor row >> pure row)
                  (elim (Result-cases (kind.insert_columns ready)) [
                    | inl (columns, typed) ↦ elim (Bool-cases (env.succeeds v.calls)) [
                      | inl sent ↦
                          rw (typed, sent) ((fresh input ready columns _ _ fits typed, before))
                      | inr failed ↦ rw (typed, failed) tt
                    ]
                    | inr (e, refused) ↦ rw refused tt
                  ])
                  (λ row u has. audited-RowsHave kind.created_event actor row u has))
              w all)
        | inr (e, refused) ↦ rw refused all
      ]

  update_row-RowsHave :
      Grants kind P
      → (existing merged : A) (input : U) (w : State A) → kind.merge existing input ≡ ok merged
      → All P w.rows
      → Gives HasRows (update_row env kind merged w)
  unfolding update_row
  update_row-RowsHave (fresh, changed) existing merged input w fits all =
      elim (Result-cases (kind.update_columns merged)) [
        | inl (columns, typed) ↦ elim (Bool-cases (env.succeeds w.calls)) [
          | inl sent ↦ elim (Option-cases (find_by kind.id_of (kind.id_of merged) w.rows)) [
            | inl absent ↦ rw (typed, sent, absent) tt
            | inr (old, found) ↦
                rw (typed, sent, found)
                  (All-replace_by P kind.id_of (kind.id_of merged) _ w.rows
                    (λ row. changed existing merged columns row input _ fits typed) all)
          ]
          | inr failed ↦ rw (typed, failed) tt
        ]
        | inr (e, refused) ↦ rw refused tt
      ]

  update_entry-RowsHave :
      Grants kind P
      → (id : String) (input : U) (actor : String)
      → Stays env RowsHave (update_entry env kind id input actor)
  unfolding update_entry get_entry
  update_entry-RowsHave grants id input actor =
      within_tx-Stays env RowsHave (get_entry env kind id >>= merge_in_tx env kind input actor)
        (λ v before.
          then-Gives HasRows HasRows (get_entry env kind id v) (merge_in_tx env kind input actor)
            (elim (Bool-cases (env.succeeds v.calls)) [
              | inl sent ↦ elim (Option-cases (find_by kind.id_of id v.rows)) [
                | inl absent ↦ rw sent (rw absent tt)
                | inr (row, found) ↦ rw sent (rw found before)
              ]
              | inr failed ↦ rw failed tt
            ])
            (λ existing u has. elim (Result-cases (kind.merge existing input)) [
              | inl (merged, fits) ↦ rw fits (
                  then-Gives HasRows HasRows (update_row env kind merged u)
                    (λ row. record_change env kind kind.updated_event actor row >> pure row)
                    (update_row-RowsHave grants existing merged input u fits has)
                    (λ row x all. audited-RowsHave kind.updated_event actor row x all))
              | inr (e, refused) ↦ rw refused tt
            ]))

  History-RowsHave :
      (w w' : State A) → Grants kind P → All P w.rows → History kind env w w' → All P w'.rows
  History-RowsHave w w' grants all begun = all
  History-RowsHave w w' grants all (created input actor history) =
      create_entry-RowsHave grants input actor _ (History-RowsHave w _ grants all history)
  History-RowsHave w w' grants all (updated id input actor history) =
      update_entry-RowsHave grants id input actor _ (History-RowsHave w _ grants all history)

-- A bot has a name, and a status that is known.
abbrev pub IsValidBot : Bot → Type 0
IsValidBot bot = ((bot.name == "") ≡ false) × (is_valid_bot_status bot.status ≡ true)

abbrev IsValidNamed : String → String → Type 0
IsValidNamed name status = ((name == "") ≡ false) × (is_valid_bot_status status ≡ true)

ok-injective : {A : Type 0} {a b : A} → ok a ≡ ok b → a ≡ b
ok-injective h = cc

with_config-eq :
    {A : Type 0} (build : Raw → A) (r : Result Raw) (result : A)
    → with_config build r ≡ ok result
    → (raw : Raw) × (build raw ≡ result)
with_config-eq build (ok raw) result h = (raw, ok-injective h)
with_config-eq build (err e) result h = cc

prepare_bot-IsValidNamed :
    (input ready : CreateBotInput)
    → prepare_bot input ≡ ok ready
    → IsValidNamed ready.name ready.status
unfolding prepare_bot
prepare_bot-IsValidNamed input ready h =
    let status = if input.status == "" then "active" else input.status in
    elim (Bool-cases (trim_space input.name == "")) [
      | inl blank ↦ cc (rw blank at h)
      | inr named ↦ elim (Bool-cases (is_valid_bot_status status)) [
        | inl known ↦
            subst (λ c. IsValidNamed c.name c.status) (ok-injective (rw (named, known) at h))
              ((named, known))
        | inr unknown ↦ cc (rw (named, unknown) at h)
      ]
    ]

checked_bot-IsValidNamed :
    (bot checked : Bot) → checked_bot bot ≡ ok checked → IsValidNamed checked.name checked.status
checked_bot-IsValidNamed bot checked h = elim (Bool-cases (bot.name == "")) [
  | inl blank ↦ cc (rw blank at h)
  | inr named ↦ elim (Bool-cases (is_valid_bot_status bot.status)) [
    | inl known ↦
        subst (λ c. IsValidNamed c.name c.status) (ok-injective (rw (named, known) at h))
          ((named, known))
    | inr unknown ↦ cc (rw (named, unknown) at h)
  ]
]

bots-Grants : Grants bots IsValidBot
unfolding insert_bot_columns new_bot merge_bot update_bot_columns stored_bot
bots-Grants = (
  (λ input ready columns id now fits typed.
      let (raw, same) = with_config-eq _ (jsonb ready.config_json) columns typed in
      subst (λ c. IsValidNamed c.name c.status) same (prepare_bot-IsValidNamed input ready fits)),
  (λ existing merged columns row input now fits typed.
      let (raw, same) = with_config-eq _ (jsonb merged.config_json) columns typed in
      subst (λ c. IsValidNamed c.name c.status) same
        (checked_bot-IsValidNamed (merged_bot existing input) merged fits)),
)

-- Whatever bots are created and updated, with any outcome of every call, every bot in the table has a
-- name that is not empty and one of the three known statuses, where those before had.
pub History-IsValidBot :
    (env : Outside) (w w' : State Bot)
    → All IsValidBot w.rows
    → History bots env w w'
    → All IsValidBot w'.rows
History-IsValidBot env w w' valid history =
    History-RowsHave bots env IsValidBot w w' bots-Grants valid history
