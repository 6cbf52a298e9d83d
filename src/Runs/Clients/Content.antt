-- ===== src/Runs/Clients/Content.antt =====
-- The content of a chat message: wrappers around it and the score in it, in
-- internal/platform/runs/clients.go.
use clawbot_server.Base.{
  ℕ, ◌+◌, String, Bool, true, false, ◌||◌, [], ◌∷◌, Option, none, some, ◌==◌, if◌then◌else◌, leb,
  one_of,
}
use clawbot_server.Base.Int.{ℤ}
use clawbot_server.Json.{Raw, invalid, str, num, end, field, marshal}
use clawbot_server.Text.{
  trim_space, to_lower, trim_prefix, trim_suffix, replace_all, index, slice, contains,
}
use clawbot_server.Runs.Clients.{Reader, Answer, answer, error}

unfoldable pub strip_json_fence : String → String
strip_json_fence value =
    trim_space (trim_suffix (trim_prefix (trim_prefix (trim_space value) "```json") "```") "```")

unfoldable pub strip_think_wrappers : String → String
strip_think_wrappers value =
    let trimmed = trim_space value in
    let closed = replace_all trimmed "<think></think>" "" in
    let broken = replace_all closed "<think>\n</think>" "" in
    trim_space (replace_all (replace_all broken "</think>" "") "<think>" "")

-- The token between the two tags, unless it is blank.
abbrev token_between : String → Option ℕ → Option ℕ → Option String
token_between value (some start) (some stop) =
    let token = trim_space (slice (start + 7) stop value) in
    if leb stop (start + 7) then none else if token == "" then none else some (to_lower token)
token_between value _ _ = none

unfoldable pub parse_score_token_content : String → Option String
parse_score_token_content value =
    let lower = to_lower value in
    token_between value (index lower "<score>") (index lower "</score>")

unfoldable pub is_guardrail_yes_token : String → Bool
is_guardrail_yes_token value =
    one_of ("yes" ∷ "y" ∷ "true" ∷ "flag" ∷ "flagged" ∷ "deny" ∷ "blocked" ∷ "reject" ∷ "fail" ∷ [])
      (to_lower (trim_space value))

unfoldable pub is_guardrail_no_token : String → Bool
is_guardrail_no_token value =
    one_of ("no" ∷ "n" ∷ "false" ∷ "allow" ∷ "pass" ∷ "passed" ∷ "ok" ∷ "approve" ∷ "approved" ∷ [])
      (to_lower (trim_space value))

-- On the text of the error.
unfoldable pub classify_guardrail_failure : String → String
classify_guardrail_failure message =
    let lower = to_lower message in
    if contains lower "deadline exceeded" || contains lower "timeout"
    then "guardrail_timeout"
    else "guardrail_unavailable"

abbrev pub is_json : Raw → Bool
is_json invalid = false
is_json _ = true

module _ (r : Reader) where
  abbrev float_of : Option String → Option ℤ
  float_of none = none
  float_of (some token) = r.parse_float token

  unfoldable pub parse_score_from_content : String → Option ℤ
  unfolding parse_score_token_content
  parse_score_from_content value = float_of (parse_score_token_content value)

  abbrev scored : String → Option ℤ → Answer (Raw × String)
  scored candidate none = error "content is not valid json"
  scored candidate (some score) = answer (marshal (field "score" (num score) end), candidate)

  unfoldable pub map_ollama_content : String → Bool → Answer (Raw × String)
  unfolding strip_think_wrappers strip_json_fence parse_score_from_content
  map_ollama_content content expect_json =
      let trimmed = trim_space (strip_think_wrappers content) in
      let candidate = strip_json_fence trimmed in
      let plain : Answer (Raw × String) =
        answer (marshal (field "text" (str trimmed) end), trimmed) in
      if trimmed == ""
      then error "empty content"
      else if is_json (r.parse candidate)
      then answer (r.parse candidate, candidate)
      else if expect_json
      then scored candidate (parse_score_from_content candidate)
      else plain
