-- ===== src/Text/Trimming.antt =====
-- `strings.TrimSpace` leaves a trimmed text alone.
use Prim.Native.String.{[], ◌∷◌}
use Prim.Native.String
use text.Mathlib.TextLemmas.{cons-append, nil-append}
use clawbot_server.Base.{String, ◌≡◌, refl, false, arith}
use clawbot_server.Text.{is_space, trim_left, trim_right, trim_space}

trim_right_idem : (s : String) → trim_right (trim_right s) ≡ trim_right s
unfolding trim_right
trim_right_idem [] = refl
trim_right_idem (c ∷ s) = ground (arith, trim_right_idem s)

-- A text that is empty, or that begins with no white space.
abbrev StartsPlain : String → Type 0
StartsPlain [] = Unit
StartsPlain (c ∷ s) = is_space c ≡ false

trim_left-StartsPlain : (s : String) → StartsPlain (trim_left s)
unfolding trim_left
trim_left-StartsPlain [] = tt
trim_left-StartsPlain (c ∷ s) = ground (arith, trim_left-StartsPlain s)

trim_right-StartsPlain : (s : String) → StartsPlain s → StartsPlain (trim_right s)
unfolding trim_right
trim_right-StartsPlain [] h = tt
trim_right-StartsPlain (c ∷ s) h = ground arith

trim_left_of_StartsPlain : (s : String) → StartsPlain s → trim_left s ≡ s
unfolding trim_left
trim_left_of_StartsPlain [] h = refl
trim_left_of_StartsPlain (c ∷ s) h = ground arith

pub trim_space_idem : (s : String) → trim_space (trim_space s) ≡ trim_space s
unfolding trim_space
trim_space_idem s =
    rw
      (trim_left_of_StartsPlain (trim_right (trim_left s))
        (trim_right-StartsPlain (trim_left s) (trim_left-StartsPlain s)))
      (trim_right_idem (trim_left s))

trim_right_of_trimmed : (s : String) → trim_space s ≡ s → trim_right s ≡ s
unfolding trim_space
trim_right_of_trimmed s h = rw (← h) (trim_right_idem (trim_left s))

-- A text that begins with the letters of `run-` is trimmed at its end alone.
trim_space-run :
    (s : String) → trim_right s ≡ s → trim_space (String.◌++◌ "run-" s) ≡ String.◌++◌ "run-" s
unfolding trim_space
trim_space-run s h = rw (cons-append, cons-append, cons-append, cons-append, nil-append) (rw h)

pub trim_space-run_trimmed :
    (s : String) → trim_space s ≡ s → trim_space (String.◌++◌ "run-" s) ≡ String.◌++◌ "run-" s
trim_space-run_trimmed s h = trim_space-run s (trim_right_of_trimmed s h)
