-- ===== src/Runs/Clients/Agrees.antt =====
-- The status that a guardrail's score gives.
use clawbot_server.Base.{
  String, true, false, Option, none, some, ◌≡◌, ◌≤◌, ◌<◌, refl, arith, if◌then◌else◌, Bool-cases,
  inl, inr, ◌⊎◌, ◌==◌, ◌||◌, one_of, [], ◌∷◌,
}
use clawbot_server.Base.Int.{ℤ, pos, negsuc, at_least}
use clawbot_server.Json.{
  Json, null, bool, num, str, arr, obj, Fields, Raw, empty, braces, end, invalid, doc, lookup,
}
use clawbot_server.Text.{trim_space, to_lower}
use clawbot_server.Runs.Service.Guards.{text_of}
use clawbot_server.Runs.Clients.{Reader, Answer, answer, error}
use clawbot_server.Runs.Clients.Content.{
  strip_json_fence, strip_think_wrappers, parse_score_token_content, is_guardrail_yes_token,
  is_guardrail_no_token, is_json,
}
use clawbot_server.Runs.Clients.Scores.{
  Reading, by_score, parse_guardrail_status_and_score, map_guardrail_numeric_score,
  map_guardrail_score_token, parse_local_guardrail_content, by_decision, by_number, by_value,
  by_word, number_or, of_token,
}

-- The score, in thousandths, is below 0.7.
abbrev pub IsLow : ℤ → Type 0
IsLow (pos n) = n < 700
IsLow (negsuc n) = Unit {0}

-- The score is 0.7 or more.
abbrev pub IsHigh : ℤ → Type 0
IsHigh (pos n) = 700 ≤ n
IsHigh (negsuc n) = ⊥

-- A score decides the status; without one, the status is one of three.
abbrev pub Agrees : String → Option ℤ → Type 0
Agrees status (some score) =
    (IsHigh score × (status ≡ "guardrail_flagged")) ⊎ (IsLow score × (status ≡ "guardrail_passed"))
Agrees status none =
    (status ≡ "guardrail_passed")
    ⊎ (status ≡ "guardrail_flagged")
    ⊎ (status ≡ "guardrail_unavailable")

abbrev pub AnswerAgrees : Answer Reading → Type 0
AnswerAgrees (answer reading) = Agrees reading.status reading.score
AnswerAgrees (error e) = Unit {0}

at_least-IsHigh : (score : ℤ) → at_least score 700 ≡ true → IsHigh score
at_least-IsHigh (pos n) h = ground arith
at_least-IsHigh (negsuc n) h = cc

at_least-IsLow : (score : ℤ) → at_least score 700 ≡ false → IsLow score
at_least-IsLow (pos n) h = ground arith
at_least-IsLow (negsuc n) h = tt

-- What the test on a score gives.
tested-Agrees :
    (score : ℤ)
    → Agrees (if at_least score 700 then "guardrail_flagged" else "guardrail_passed") (some score)
tested-Agrees score = elim (Bool-cases (at_least score 700)) [
  | inl high ↦ rw high (inl (at_least-IsHigh score high, refl))
  | inr low ↦ rw low (inr (at_least-IsLow score low, refl))
]

abbrev PairAgrees : String × Option ℤ → Type 0
PairAgrees (status, score) = Agrees status score

by_decision-Agrees : (payload : Fields) → PairAgrees (by_decision payload)
by_decision-Agrees payload =
    elim (Bool-cases (
      one_of ("allow" ∷ "pass" ∷ "passed" ∷ "ok" ∷ "approve" ∷ "approved" ∷ [])
        (to_lower (trim_space (text_of (lookup "decision" payload)))))) [
          | inl passed ↦ rw passed (inl refl)
          | inr flagged ↦ rw flagged (inr (inl refl))
        ]

by_score-Agrees : (score : ℤ) → PairAgrees (by_score score)
by_score-Agrees score = elim (Bool-cases (at_least score 700)) [
  | inl high ↦ rw high (inl (at_least-IsHigh score high, refl))
  | inr low ↦ rw low (inr (at_least-IsLow score low, refl))
]

by_number-Agrees : (n : Option ℤ) (payload : Fields) → PairAgrees (by_number n payload)
by_number-Agrees none payload = by_decision-Agrees payload
by_number-Agrees (some score) payload = by_score-Agrees score

module _ (r : Reader) where
  by_value-Agrees : (value : Option Json) (payload : Fields) → PairAgrees (by_value r value payload)
  by_value-Agrees none payload = by_decision-Agrees payload
  by_value-Agrees (some null) payload = by_decision-Agrees payload
  by_value-Agrees (some (bool b)) payload = by_decision-Agrees payload
  by_value-Agrees (some (num n)) payload = by_score-Agrees n
  by_value-Agrees (some (arr xs)) payload = by_decision-Agrees payload
  by_value-Agrees (some (obj fields)) payload = by_decision-Agrees payload
  by_value-Agrees (some (str word)) payload =
      let normalized = to_lower (trim_space word) in
      elim (Bool-cases (is_guardrail_yes_token normalized)) [
        | inl is_yes ↦ rw is_yes (inl (omega arith, refl))
        | inr not_yes ↦ elim (Bool-cases (is_guardrail_no_token normalized)) [
          | inl is_no ↦ rw (not_yes, is_no) (inr (omega arith, refl))
          | inr not_no ↦ rw (not_yes, not_no) (by_number-Agrees (r.parse_float normalized) payload)
        ]
      ]

  parse_guardrail_status_and_score-Agrees :
      (output : Raw) → PairAgrees (parse_guardrail_status_and_score r output)
  unfolding parse_guardrail_status_and_score
  parse_guardrail_status_and_score-Agrees empty = inr (inr refl)
  parse_guardrail_status_and_score-Agrees braces = inr (inr refl)
  parse_guardrail_status_and_score-Agrees invalid = inr (inl refl)
  parse_guardrail_status_and_score-Agrees (doc null) = by_decision-Agrees end
  parse_guardrail_status_and_score-Agrees (doc (obj payload)) =
      by_value-Agrees (lookup "score" payload) payload
  parse_guardrail_status_and_score-Agrees (doc (bool b)) = inr (inl refl)
  parse_guardrail_status_and_score-Agrees (doc (num n)) = inr (inl refl)
  parse_guardrail_status_and_score-Agrees (doc (str s)) = inr (inl refl)
  parse_guardrail_status_and_score-Agrees (doc (arr xs)) = inr (inl refl)

  number_or-AnswerAgrees :
      (n : Option ℤ) (raw_text : String) (other : Answer Reading)
      → AnswerAgrees other
      → AnswerAgrees (number_or r n raw_text other)
  unfolding map_guardrail_numeric_score
  number_or-AnswerAgrees none raw_text other agrees = agrees
  number_or-AnswerAgrees (some score) raw_text other agrees = tested-Agrees score

  map_guardrail_score_token-AnswerAgrees :
      (raw_text token : String) → AnswerAgrees (map_guardrail_score_token r raw_text token)
  unfolding map_guardrail_score_token
  map_guardrail_score_token-AnswerAgrees raw_text token =
      let normalized = to_lower (trim_space token) in
      number_or-AnswerAgrees (r.parse_float normalized) raw_text
        (by_word r raw_text token normalized)
        (elim (Bool-cases (is_guardrail_yes_token normalized)) [
          | inl is_yes ↦ rw is_yes (inl (omega arith, refl))
          | inr not_yes ↦ elim (Bool-cases (is_guardrail_no_token normalized)) [
            | inl is_no ↦ rw (not_yes, is_no) (inr (omega arith, refl))
            | inr not_no ↦ rw (not_yes, not_no) tt
          ]
        ])

  of_token-AnswerAgrees :
      (token : Option String) (candidate : String) → AnswerAgrees (of_token r token candidate)
  of_token-AnswerAgrees (some token) candidate =
      map_guardrail_score_token-AnswerAgrees candidate token
  of_token-AnswerAgrees none candidate =
      let plain = to_lower (trim_space candidate) in
      elim (Bool-cases (is_guardrail_yes_token plain || is_guardrail_no_token plain)) [
        | inl word ↦ rw word (map_guardrail_score_token-AnswerAgrees candidate plain)
        | inr other ↦ rw other (
            number_or-AnswerAgrees (r.parse_float (trim_space candidate)) candidate
              (error "guardrail content is not parseable score output") tt)
      ]

-- Where no score is NaN or infinite, a reading of what a local guardrail writes that has a score is
-- flagged where the score is 0.7 or more and passed where it is less, and one without a score is
-- passed, flagged or unavailable.
pub parse_local_guardrail_content-AnswerAgrees :
    (r : Reader) (content : String) → AnswerAgrees (parse_local_guardrail_content r content)
unfolding parse_local_guardrail_content
parse_local_guardrail_content-AnswerAgrees r content =
    let trimmed = trim_space (strip_think_wrappers content) in
    let candidate = strip_json_fence trimmed in
    elim (Bool-cases (trimmed == "")) [
      | inl blank ↦ rw blank tt
      | inr full ↦ elim (Bool-cases (is_json (r.parse candidate))) [
        | inl json ↦ rw (full, json) (parse_guardrail_status_and_score-Agrees r (r.parse candidate))
        | inr other ↦
            rw (full, other)
              (of_token-AnswerAgrees r (parse_score_token_content candidate) candidate)
      ]
    ]
