-- ===== src/Runs/Refs.antt =====
-- Lists of references: `dedupeAndTrimStrings` and `appendUnique` of
-- internal/platform/runs/service.go.
pub mod Clean
use clawbot_server.Base.{String, Bool, ◌||◌, List, [], ◌∷◌, ◌++◌, ◌==◌, if◌then◌else◌, one_of}
use clawbot_server.Text.{trim_space}

-- The loop, on the set `seen` and the slice `result`.
dedupe_from : List String → List String → List String → List String
dedupe_from seen result [] = result
dedupe_from seen result (value ∷ values) =
    let trimmed = trim_space value in
    let skipped = dedupe_from seen result values in
    let kept = dedupe_from (trimmed ∷ seen) (result ++ trimmed ∷ []) values in
    if trimmed == "" || one_of seen trimmed then skipped else kept

unfoldable pub dedupe_and_trim_strings : List String → List String
unfolding dedupe_from
dedupe_and_trim_strings values = dedupe_from [] [] values

unfoldable pub append_unique : List String → String → List String
append_unique values value =
    let trimmed = trim_space value in
    if trimmed == "" || one_of values trimmed then values else values ++ trimmed ∷ []
