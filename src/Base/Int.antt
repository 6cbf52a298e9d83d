-- ===== src/Base/Int.antt =====
-- Integers over the native numbers, with the tests that the program makes.
use Prim.Native.Nat.{ℕ, zero, suc, ◌/◌, compare, Ordering}
use mathlib.Core.Bool.{Bool, true, false}
use mathlib.Core.Path.{◌≡◌, refl, ap}
use mathlib.Core.Logic.{◌≢◌}
use native.Mathlib.Omega.{arith}

-- `negsuc n` is -(n + 1).
pub data ℤ : Type 0 where
  pos : ℕ → ℤ
  negsuc : ℕ → ℤ

abbrev pub is_positive : ℤ → Bool
is_positive (pos zero) = false
is_positive (pos (suc n)) = true
is_positive (negsuc n) = false

abbrev pub is_negative : ℤ → Bool
is_negative (pos n) = false
is_negative (negsuc n) = true

-- `max(left, right)` of the source, for a right side that is not negative.
abbrev pub at_least : ℤ → ℕ → Bool
at_least (pos n) m = elim (compare n m) [ Ordering.lt ↦ false | _ ↦ true ]
at_least (negsuc n) m = false

-- Division by a positive number that rounds towards zero, as Go's `/` and `int(...)` do.
abbrev pub quot : ℤ → ℕ → ℤ
quot (pos n) d = pos (n / d)
quot (negsuc n) d = elim (suc n / d) [ zero ↦ pos 0 | suc m ↦ negsuc m ]

abbrev pub ltb_ℤ : ℤ → ℤ → Bool
ltb_ℤ (pos a) (pos b) = elim (compare a b) [ Ordering.lt ↦ true | _ ↦ false ]
ltb_ℤ (pos a) (negsuc b) = false
ltb_ℤ (negsuc a) (pos b) = true
ltb_ℤ (negsuc a) (negsuc b) = elim (compare b a) [ Ordering.lt ↦ true | _ ↦ false ]

abbrev pub eqb_ℤ : ℤ → ℤ → Bool
eqb_ℤ (pos a) (pos b) = elim (compare a b) [ Ordering.eq ↦ true | _ ↦ false ]
eqb_ℤ (pos a) (negsuc b) = false
eqb_ℤ (negsuc a) (pos b) = false
eqb_ℤ (negsuc a) (negsuc b) = elim (compare a b) [ Ordering.eq ↦ true | _ ↦ false ]

pub eqb_ℤ-sound : (a b : ℤ) → eqb_ℤ a b ≡ true → a ≡ b
eqb_ℤ-sound (pos a) (pos b) h = ap pos (ground arith)
eqb_ℤ-sound (pos a) (negsuc b) h = cc
eqb_ℤ-sound (negsuc a) (pos b) h = cc
eqb_ℤ-sound (negsuc a) (negsuc b) h = ap negsuc (ground arith)

pub eqb_ℤ_refl : (a : ℤ) → eqb_ℤ a a ≡ true
eqb_ℤ_refl (pos a) = ground arith
eqb_ℤ_refl (negsuc a) = ground arith

pub ltb_ℤ_trans : (a b c : ℤ) → ltb_ℤ a b ≡ true → ltb_ℤ b c ≡ true → ltb_ℤ a c ≡ true
ltb_ℤ_trans (pos a) (pos b) (pos c) h k = ground arith
ltb_ℤ_trans (pos a) (pos b) (negsuc c) h k = cc
ltb_ℤ_trans (pos a) (negsuc b) c h k = cc
ltb_ℤ_trans (negsuc a) (pos b) (pos c) h k = refl
ltb_ℤ_trans (negsuc a) (pos b) (negsuc c) h k = cc
ltb_ℤ_trans (negsuc a) (negsuc b) (pos c) h k = refl
ltb_ℤ_trans (negsuc a) (negsuc b) (negsuc c) h k = ground arith

-- One of two different numbers is the smaller one.
pub ltb_ℤ_total : (a b : ℤ) → a ≢ b → ltb_ℤ a b ≡ false → ltb_ℤ b a ≡ true
ltb_ℤ_total (pos a) (pos b) h k = ground (arith, ap pos)
ltb_ℤ_total (pos a) (negsuc b) h k = refl
ltb_ℤ_total (negsuc a) (pos b) h k = cc
ltb_ℤ_total (negsuc a) (negsuc b) h k = ground (arith, ap negsuc)

pub ltb_ℤ_asym : (a b : ℤ) → ltb_ℤ a b ≡ true → ltb_ℤ b a ≡ false
ltb_ℤ_asym (pos a) (pos b) h = ground arith
ltb_ℤ_asym (pos a) (negsuc b) h = cc
ltb_ℤ_asym (negsuc a) (pos b) h = refl
ltb_ℤ_asym (negsuc a) (negsuc b) h = ground arith

pub ltb_ℤ_irrefl : (a : ℤ) → ltb_ℤ a a ≡ false
ltb_ℤ_irrefl (pos a) = ground arith
ltb_ℤ_irrefl (negsuc a) = ground arith
