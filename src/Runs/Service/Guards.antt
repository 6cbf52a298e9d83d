-- ===== src/Runs/Service/Guards.antt =====
-- The status of the guardrail, and the statuses that reviews give: helpers of
-- internal/platform/runs/service.go.
pub mod Known
use clawbot_server.Base.{String, Bool, [], ◌∷◌, Option, none, some, ◌==◌, if◌then◌else◌, one_of}
use clawbot_server.Base.Int.{ℤ}
use clawbot_server.Json.{
  Json, str, num, Fields, end, Raw, is_empty, is_braces, lookup, insert, marshal, Decoded, object,
  nil_map, failed, unmarshal,
}
use clawbot_server.Text.{trim_space, to_lower}
use clawbot_server.Runs.Failure.{Failure, Result, ok, err}
use clawbot_server.Runs.Status.{is_valid_guardrail_status}

-- `value, _ := x.(string)`.
abbrev pub text_of : Option Json → String
text_of (some (str s)) = s
text_of _ = ""

abbrev pub known_status : Option Json → String
known_status value =
    let status = trim_space (to_lower (text_of value)) in
    if is_valid_guardrail_status status then status else "guardrail_flagged"

abbrev decoded_status : Decoded → String
decoded_status (object payload) = known_status (lookup "status" payload)
decoded_status nil_map = known_status none
decoded_status failed = "guardrail_flagged"

unfoldable pub guardrail_status_from_summary : Raw → String
guardrail_status_from_summary summary =
    if is_empty summary
    then "guardrail_disabled"
    else if is_braces summary
    then "guardrail_disabled"
    else decoded_status (unmarshal summary)

unfoldable pub resolve_guardrail_status : Bool → String → Raw → String
unfolding guardrail_status_from_summary
resolve_guardrail_status enabled returned summary =
    let status = trim_space (to_lower returned) in
    if enabled
    then if one_of
        ("guardrail_passed" ∷ "guardrail_flagged" ∷ "guardrail_timeout" ∷ "guardrail_unavailable"
          ∷ [])
        status
      then status
      else if is_empty summary
      then "guardrail_unavailable"
      else if is_braces summary
      then "guardrail_unavailable"
      else guardrail_status_from_summary summary
    else "guardrail_disabled"

abbrev set_note : String → Fields → Fields
set_note text payload =
    if trim_space text == "" then payload else insert "note" (str (trim_space text)) payload

abbrev set_score : Option ℤ → Fields → Fields
set_score none payload = payload
set_score (some score) payload = insert "score" (num score) payload

-- Writing into the nil map, which the text `null` gives, is a panic.
abbrev ensure_decoded : Decoded → String → String → Option ℤ → Result Raw
ensure_decoded (object payload) status text score =
    ok (marshal (set_score score (set_note text (insert "status" (str status) payload))))
ensure_decoded nil_map status text score = err Failure.nil_map_write
ensure_decoded failed status text score =
    ok (marshal (set_score score (set_note text (insert "status" (str status) end))))

unfoldable pub ensure_guardrail_summary : Raw → String → String → Option ℤ → Result Raw
ensure_guardrail_summary summary given text score =
    let status = if given == "" then "guardrail_disabled" else given in
    if is_empty summary
    then ensure_decoded (object end) status text score
    else if is_braces summary
    then ensure_decoded (object end) status text score
    else ensure_decoded (unmarshal summary) status text score

unfoldable pub map_review_action_to_run_status : String → Result String
map_review_action_to_run_status action =
    let word = trim_space (to_lower action) in
    if word == "approve"
    then ok "approved"
    else if word == "reject"
    then ok "rejected"
    else if word == "override"
    then ok "overridden"
    else if word == "defer"
    then ok "deferred"
    else err (Failure.unsupported_review_action action)

-- The same words, in a function of its own.
unfoldable pub map_review_action_to_cycle_status : String → Result String
map_review_action_to_cycle_status action =
    let word = trim_space (to_lower action) in
    if word == "approve"
    then ok "approved"
    else if word == "reject"
    then ok "rejected"
    else if word == "override"
    then ok "overridden"
    else if word == "defer"
    then ok "deferred"
    else err (Failure.unsupported_review_action action)
