-- ===== src/Base/Lists.antt =====
-- Lists measured by native numbers, and predicates on all members.
use Prim.Native.Nat.{ℕ, zero, suc, ◌+◌, ◌≤◌}
use Prim.Native.String.{String}
use mathlib.Core.Path.{◌≡◌, refl, sym, subst}
use mathlib.Core.Bool.{Bool, true, false, ◌||◌, ◌&&◌}
use mathlib.Core.List.{List, [], ◌∷◌, ◌++◌}
use native.Mathlib.Omega.{arith}
use text.Mathlib.Text.{◌==◌}
use text.Mathlib.TextEquality.{eq_iff}
use mathlib.Core.Logic.{◌⊎◌, inl, inr}

-- A split on a computed value that keeps the equation.
pub Bool-cases : (b : Bool) → (b ≡ true) ⊎ (b ≡ false)
Bool-cases true = inl refl
Bool-cases false = inr refl

module _ {ℓ} {A : Type ℓ} where
  abbrev pub length : List A → ℕ
  length [] = 0
  length (x ∷ xs) = suc (length xs)

  abbrev pub take : ℕ → List A → List A
  take zero xs = []
  take (suc n) [] = []
  take (suc n) (x ∷ xs) = x ∷ take n xs

  pub length-take_le : (n : ℕ) (xs : List A) → length (take n xs) ≤ n
  length-take_le zero xs = omega arith
  length-take_le (suc n) [] = omega arith
  length-take_le (suc n) (x ∷ xs) = omega (arith, length-take_le n xs)

  pub take_all : (n : ℕ) (xs : List A) → length xs ≤ n → take n xs ≡ xs
  take_all zero [] h = refl
  take_all zero (x ∷ xs) h = absurd (omega arith)
  take_all (suc n) [] h = refl
  take_all (suc n) (x ∷ xs) h = rw (take_all n xs (omega arith))

  pub length-append : (xs ys : List A) → length (xs ++ ys) ≡ length xs + length ys
  length-append [] ys = omega arith
  length-append (x ∷ xs) ys = omega (arith, length-append xs ys)

module _ {ℓ κ} {A : Type ℓ} (P : A → Type κ) where
  abbrev pub All : List A → Type κ
  All [] = Unit
  All (x ∷ xs) = P x × All xs

  pub All-append : (xs ys : List A) → All xs → All ys → All (xs ++ ys)
  All-append [] ys _ k = k
  All-append (x ∷ xs) ys (p, h) k = (p, All-append xs ys h k)

  pub All-take : (n : ℕ) (xs : List A) → All xs → All (take n xs)
  All-take zero xs h = tt
  All-take (suc n) [] h = tt
  All-take (suc n) (x ∷ xs) (p, h) = (p, All-take n xs h)

module _ {A : Type 0} where
  -- A member of a list.
  abbrev pub IsAmong : A → List A → Type 0
  IsAmong x [] = ⊥
  IsAmong x (y ∷ ys) = (x ≡ y) ⊎ IsAmong x ys

  pub IsAmong-append : (x : A) (new xs : List A) → IsAmong x xs → IsAmong x (new ++ xs)
  IsAmong-append x [] xs h = h
  IsAmong-append x (y ∷ new) xs h = inr (IsAmong-append x new xs h)

  pub All-IsAmong {κ} : (P : A → Type κ) (x : A) (xs : List A) → All P xs → IsAmong x xs → P x
  All-IsAmong P x [] h i = absurd i
  All-IsAmong P x (y ∷ ys) (p, h) (inl same) = subst P (sym same) p
  All-IsAmong P x (y ∷ ys) (p, h) (inr i) = All-IsAmong P x ys h i

-- Whether a text is one of a list, as `switch` and a loop of comparisons test it.
abbrev pub one_of : List String → String → Bool
one_of [] s = false
one_of (x ∷ xs) s = s == x || one_of xs s

-- A listed text differs from every text that is not listed.
pub one_of_ne :
    (xs : List String) (s t : String) → one_of xs s ≡ true → one_of xs t ≡ false → (s == t) ≡ false
one_of_ne [] s t h k = ground arith
one_of_ne (x ∷ xs) s t h k = ground (arith, one_of_ne xs s t, eq_iff s x, eq_iff t x, eq_iff s t)

-- What holds of every listed text holds of a text that is found in the list.
pub All-one_of {κ} :
    (P : String → Type κ) (xs : List String) (s : String) → All P xs → one_of xs s ≡ true → P s
All-one_of P [] s h k = cc
All-one_of P (x ∷ xs) s (p, h) k = elim (Bool-cases (s == x)) [
  | inl same ↦ subst P (sym ((eq_iff s x).0 same)) p
  | inr other ↦ All-one_of P xs s h (rw other at k)
]

-- Whether a test holds of every listed text.
abbrev pub all_of : (String → Bool) → List String → Bool
all_of test [] = true
all_of test (x ∷ xs) = test x && all_of test xs

pub all_of-one_of :
    (test : String → Bool) (xs : List String) (s : String)
    → all_of test xs ≡ true
    → one_of xs s ≡ true
    → test s ≡ true
all_of-one_of test [] s h k = cc
all_of-one_of test (x ∷ xs) s h k = elim (Bool-cases (s == x)) [
  | inl same ↦ rw ((eq_iff s x).0 same) (ground arith)
  | inr other ↦ all_of-one_of test xs s (ground arith) (rw other at k)
]

-- No text stands twice in the list.
abbrev pub IsDistinct : List String → Type 0
IsDistinct [] = Unit
IsDistinct (x ∷ xs) = (one_of xs x ≡ false) × IsDistinct xs

pub one_of-concat :
    (xs : List String) (t s : String) → one_of (xs ++ t ∷ []) s ≡ (s == t || one_of xs s)
one_of-concat [] t s = refl
one_of-concat (x ∷ xs) t s = ground (arith, one_of-concat xs t s)

pub IsDistinct-concat :
    (xs : List String) (t : String)
    → IsDistinct xs
    → one_of xs t ≡ false
    → IsDistinct (xs ++ t ∷ [])
IsDistinct-concat [] t d h = (refl, tt)
IsDistinct-concat (x ∷ xs) t (fresh, d) h = (
  ground (arith, one_of-concat xs t x, eq_iff x t, eq_iff t x),
  ground (arith, IsDistinct-concat xs t d),
)
