-- ===== src/Runs/Service/Guards/Known.antt =====
-- The guardrail status of an execution is one of the known words.
use clawbot_server.Base.{
  String, Bool, true, false, List, [], ◌∷◌, Option, none, ◌≡◌, refl, Bool-cases, inl, inr, one_of,
  All, All-one_of,
}
use clawbot_server.Json.{
  Json, null, bool, num, str, arr, obj, Raw, lookup, empty, braces, invalid, doc,
}
use clawbot_server.Text.{trim_space, to_lower}
use clawbot_server.Runs.Status.{is_valid_guardrail_status}
use clawbot_server.Runs.Service.Guards.{
  text_of, known_status, guardrail_status_from_summary, resolve_guardrail_status,
}

-- The guardrail status is one of those known.
abbrev pub IsKnown : String → Type 0
IsKnown status = is_valid_guardrail_status status ≡ true

known_status-IsKnown : (value : Option Json) → IsKnown (known_status value)
unfolding is_valid_guardrail_status
known_status-IsKnown value =
    let status = trim_space (to_lower (text_of value)) in
    elim (Bool-cases (is_valid_guardrail_status status)) [
      | inl known ↦ rw known known
      | inr other ↦ rw other refl
    ]

guardrail_status_from_summary-IsKnown :
    (summary : Raw) → IsKnown (guardrail_status_from_summary summary)
unfolding guardrail_status_from_summary is_valid_guardrail_status
guardrail_status_from_summary-IsKnown empty = refl
guardrail_status_from_summary-IsKnown braces = refl
guardrail_status_from_summary-IsKnown invalid = refl
guardrail_status_from_summary-IsKnown (doc null) = known_status-IsKnown none
guardrail_status_from_summary-IsKnown (doc (obj fields)) =
    known_status-IsKnown (lookup "status" fields)
guardrail_status_from_summary-IsKnown (doc (bool b)) = refl
guardrail_status_from_summary-IsKnown (doc (num n)) = refl
guardrail_status_from_summary-IsKnown (doc (str s)) = refl
guardrail_status_from_summary-IsKnown (doc (arr xs)) = refl

-- What a guardrail answers.
abbrev answers : List String
answers =
    "guardrail_passed" ∷ "guardrail_flagged" ∷ "guardrail_timeout" ∷ "guardrail_unavailable" ∷ []

answers-IsKnown : All IsKnown answers
unfolding is_valid_guardrail_status
answers-IsKnown = (refl, (refl, (refl, (refl, tt))))

-- Where the guardrail gives none of its four answers, the summary decides.
from_summary-IsKnown :
    (returned : String) (summary : Raw)
    → one_of answers (trim_space (to_lower returned)) ≡ false
    → IsKnown (resolve_guardrail_status true returned summary)
unfolding resolve_guardrail_status is_valid_guardrail_status
from_summary-IsKnown returned empty other = rw other refl
from_summary-IsKnown returned braces other = rw other refl
from_summary-IsKnown returned invalid other =
    rw other (guardrail_status_from_summary-IsKnown invalid)
from_summary-IsKnown returned (doc j) other =
    rw other (guardrail_status_from_summary-IsKnown (doc j))

pub resolve_guardrail_status-IsKnown :
    (enabled : Bool) (returned : String) (summary : Raw)
    → IsKnown (resolve_guardrail_status enabled returned summary)
unfolding resolve_guardrail_status is_valid_guardrail_status
resolve_guardrail_status-IsKnown false returned summary = refl
resolve_guardrail_status-IsKnown true returned summary =
    let status = trim_space (to_lower returned) in
    elim (Bool-cases (one_of answers status)) [
      | inl answer ↦ rw answer (All-one_of IsKnown answers status answers-IsKnown answer)
      | inr other ↦ from_summary-IsKnown returned summary other
    ]
