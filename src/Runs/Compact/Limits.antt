-- ===== src/Runs/Compact/Limits.antt =====
-- How long the texts of the compact payload are.
use Prim.Native.String
use Prim.Native.String.{[], ◌∷◌}
use text.Mathlib.TextLemmas.{nil-append, cons-append}
use clawbot_server.Base.{
  ℕ, zero, suc, ◌+◌, ◌*◌, ◌-◌, ◌≤◌, ◌<◌, String, List, length, take, length-take_le, map, All, ◌==◌,
  ◌≡◌, refl, ap, if◌then◌else◌, arith, Bool-cases, inl, inr,
}
use clawbot_server.Text.{trim_space}
use clawbot_server.Text.Bytes.{width, byte_length, broken, cut}
use clawbot_server.Runs.Compact.{shorten, limit_strings}

byte_length-append : (s t : String) → byte_length (String.◌++◌ s t) ≡ byte_length s + byte_length t
unfolding byte_length
byte_length-append [] t = rw (nil-append t) (omega arith)
byte_length-append (c ∷ s) t = rw (cons-append c s t) (omega (arith, byte_length-append s t))

byte_length-broken : (n : ℕ) → byte_length (broken n) ≡ 3 * n
unfolding byte_length broken
byte_length-broken zero = omega arith
byte_length-broken (suc n) = omega (arith, byte_length-append "�" (broken n), byte_length-broken n)

-- A cut character leaves three bytes at most, each of which is written as three.
byte_length-cut : (n : ℕ) (s : String) → byte_length (cut n s) ≤ n + 6
unfolding byte_length cut
byte_length-cut n [] = omega arith
byte_length-cut n (c ∷ s) = ground (arith, byte_length-broken n, byte_length-cut (n - width c) s)

byte_length-shorten : (m : ℕ) (s : String) → 0 < m → byte_length (shorten m s) ≤ m + 9
unfolding byte_length
byte_length-shorten m s h = ground (arith, byte_length-append (cut m s) "...", byte_length-cut m s)

-- The items with their white space trimmed, without those that are blank.
abbrev pub nonblank : List String → List String
nonblank List.[] = List.[]
nonblank (List.◌∷◌ value values) =
    let rest = nonblank values in
    if trim_space value == "" then rest else List.◌∷◌ (trim_space value) rest

limit_strings-take :
    (values : List String) (n m : ℕ)
    → limit_strings values n m ≡ map (shorten m) (take n (nonblank values))
unfolding limit_strings
limit_strings-take List.[] zero m = refl
limit_strings-take (List.◌∷◌ value values) zero m = refl
limit_strings-take List.[] (suc n) m = refl
limit_strings-take (List.◌∷◌ value values) (suc n) m = elim (Bool-cases (trim_space value == "")) [
  | inl blank ↦ rw blank (limit_strings-take values (suc n) m)
  | inr full ↦
      rw full (ap (List.◌∷◌ (shorten m (trim_space value))) (limit_strings-take values n m))
]

length-map : {A B : Type 0} (f : A → B) (xs : List A) → length (map f xs) ≡ length xs
length-map f List.[] = refl
length-map f (List.◌∷◌ x xs) = ap suc (length-map f xs)

All-shorten :
    (m : ℕ) (values : List String)
    → 0 < m
    → All (λ s. byte_length s ≤ m + 9) (map (shorten m) values)
All-shorten m List.[] h = tt
All-shorten m (List.◌∷◌ value values) h = (byte_length-shorten m value h, All-shorten m values h)

-- The texts of a compact list are the first of those that are not blank, each trimmed and cut: no
-- more than the count, and none longer than the limit and nine bytes, for three dots and for a
-- character that is cut.
pub limit_strings_lem :
    (values : List String) (count limit : ℕ)
    → 0 < limit
    → (limit_strings values count limit ≡ map (shorten limit) (take count (nonblank values)))
      × (length (limit_strings values count limit) ≤ count)
      × All (λ s. byte_length s ≤ limit + 9) (limit_strings values count limit)
limit_strings_lem values count limit h =
    let same = limit_strings-take values count limit in
    let texts = take count (nonblank values) in
    (
      same,
      rw same
          (omega (arith, length-map (shorten limit) texts, length-take_le count (nonblank values))),
      rw same (All-shorten limit texts h),
    )
