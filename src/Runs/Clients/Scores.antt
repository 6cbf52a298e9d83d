-- ===== src/Runs/Clients/Scores.antt =====
-- The score and the status of a guardrail, in internal/platform/runs/clients.go.
use Prim.Native.String
use clawbot_server.Base.{String, ◌||◌, [], ◌∷◌, Option, none, some, ◌==◌, if◌then◌else◌, one_of}
use clawbot_server.Base.Int.{ℤ, pos, at_least}
use clawbot_server.Json.{
  Json, num, str, Fields, end, field, Raw, is_empty, is_braces, lookup, marshal, Decoded, object,
  nil_map, failed, unmarshal,
}
use clawbot_server.Text.{trim_space, to_lower}
use clawbot_server.Runs.Service.Guards.{text_of}
use clawbot_server.Runs.Clients.{Reader, Answer, answer, error}
use clawbot_server.Runs.Clients.Content.{
  strip_json_fence, strip_think_wrappers, parse_score_token_content, is_guardrail_yes_token,
  is_guardrail_no_token, is_json,
}

-- What a guardrail says, as four results in the source.
pub record Reading : Type 0 where
  pub output : Raw
  pub text : String
  pub status : String
  pub score : Option ℤ

-- A score that is a JSON number.
abbrev pub by_score : ℤ → String × Option ℤ
by_score typed =
    if at_least typed 700
    then ("guardrail_flagged", some typed)
    else ("guardrail_passed", some typed)

-- The `switch` on the decision; a decision that is no text is none of these.
abbrev pub by_decision : Fields → String × Option ℤ
by_decision payload =
    let decision = to_lower (trim_space (text_of (lookup "decision" payload))) in
    if one_of ("allow" ∷ "pass" ∷ "passed" ∷ "ok" ∷ "approve" ∷ "approved" ∷ []) decision
    then ("guardrail_passed", none)
    else ("guardrail_flagged", none)

-- A score that is a text with a number in it, or not.
abbrev pub by_number : Option ℤ → Fields → String × Option ℤ
by_number none payload = by_decision payload
by_number (some score) payload =
    if at_least score 700
    then ("guardrail_flagged", some score)
    else ("guardrail_passed", some score)

module _ (r : Reader) where
  abbrev pub by_value : Option Json → Fields → String × Option ℤ
  by_value (some (num score)) payload = by_score score
  by_value (some (str word)) payload =
      let normalized = to_lower (trim_space word) in
      if is_guardrail_yes_token normalized
      then ("guardrail_flagged", some (pos 1000))
      else if is_guardrail_no_token normalized
      then ("guardrail_passed", some (pos 0))
      else by_number (r.parse_float normalized) payload
  by_value _ payload = by_decision payload

  abbrev pub by_decoded : Decoded → String × Option ℤ
  by_decoded (object payload) = by_value (lookup "score" payload) payload
  by_decoded nil_map = by_decision end
  by_decoded failed = ("guardrail_flagged", none)

  unfoldable pub parse_guardrail_status_and_score : Raw → String × Option ℤ
  parse_guardrail_status_and_score output =
      if is_empty output || is_braces output
      then ("guardrail_unavailable", none)
      else by_decoded (unmarshal output)

  unfoldable pub map_guardrail_numeric_score : String → ℤ → Answer Reading
  map_guardrail_numeric_score raw_text score =
      let status : String =
        if at_least score 700 then "guardrail_flagged" else "guardrail_passed" in
      answer record {
        output = marshal (field "score" (num score) (field "status" (str status) end));
        text = trim_space raw_text;
        status = status;
        score = some score;
      }

  -- A reading of a word.
  abbrev of_word : String → String → String → ℤ → Reading
  of_word raw_text word status score = record {
    output = marshal (field "score" (str word) (field "status" (str status) end));
    text = trim_space raw_text;
    status = status;
    score = some score;
  }

  abbrev pub by_word : String → String → String → Answer Reading
  by_word raw_text token normalized =
      if is_guardrail_yes_token normalized
      then answer (of_word raw_text "yes" "guardrail_flagged" (pos 1000))
      else if is_guardrail_no_token normalized
      then answer (of_word raw_text "no" "guardrail_passed" (pos 0))
      else error (String.◌++◌ "unsupported guardrail score token " (r.quoted token))

  abbrev pub number_or : Option ℤ → String → Answer Reading → Answer Reading
  number_or none raw_text other = other
  number_or (some score) raw_text other = map_guardrail_numeric_score raw_text score

  unfoldable pub map_guardrail_score_token : String → String → Answer Reading
  map_guardrail_score_token raw_text token =
      let normalized = to_lower (trim_space token) in
      number_or (r.parse_float normalized) raw_text (by_word raw_text token normalized)

  -- A content that is no JSON.
  abbrev pub of_token : Option String → String → Answer Reading
  of_token (some token) candidate = map_guardrail_score_token candidate token
  of_token none candidate =
      let plain = to_lower (trim_space candidate) in
      if is_guardrail_yes_token plain || is_guardrail_no_token plain
      then map_guardrail_score_token candidate plain
      else number_or (r.parse_float (trim_space candidate)) candidate
          (error "guardrail content is not parseable score output")

  abbrev of_json : String → Raw → Reading
  of_json candidate output =
      let (status, score) = parse_guardrail_status_and_score output in
      record { output = output; text = candidate; status = status; score = score }

  unfoldable pub parse_local_guardrail_content : String → Answer Reading
  unfolding map_guardrail_score_token parse_guardrail_status_and_score
  parse_local_guardrail_content content =
      let trimmed = trim_space (strip_think_wrappers content) in
      let candidate = strip_json_fence trimmed in
      if trimmed == ""
      then error "empty guardrail content"
      else if is_json (r.parse candidate)
      then answer (of_json candidate (r.parse candidate))
      else of_token (parse_score_token_content candidate) candidate
