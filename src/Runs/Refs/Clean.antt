-- ===== src/Runs/Refs/Clean.antt =====
-- What a list of references holds after it is cleaned, and after one more is added.
use clawbot_server.Base.{
  String, false, ◌||◌, List, [], ◌∷◌, ◌++◌, ◌≡◌, refl, ◌==◌, arith, eq_iff, one_of, IsDistinct,
  IsDistinct-concat, All, All-append, one_of-concat, not, ◌&&◌, map, sym, Bool-cases, inl, inr,
}
use mathlib.Core.List.{append-nil, append_assoc}
use clawbot_server.Text.{trim_space}
use clawbot_server.Text.Trimming.{trim_space_idem}
use clawbot_server.Runs.Refs.{dedupe_from, dedupe_and_trim_strings, append_unique}

-- A reference that is trimmed and not empty.
abbrev pub IsPlain : String → Type 0
IsPlain s = (trim_space s ≡ s) × ((s == "") ≡ false)

-- Every reference is plain, and none stands twice.
abbrev pub IsClean : List String → Type 0
IsClean values = All IsPlain values × IsDistinct values

IsPlain-trim_space : (s : String) → (trim_space s == "") ≡ false → IsPlain (trim_space s)
IsPlain-trim_space s h = (trim_space_idem s, h)

IsClean-concat :
    (xs : List String) (s : String)
    → IsClean xs
    → IsPlain s
    → one_of xs s ≡ false
    → IsClean (xs ++ s ∷ [])
IsClean-concat xs s (plain, distinct) p fresh =
    (All-append IsPlain xs (s ∷ []) plain (p, tt), IsDistinct-concat xs s distinct fresh)

-- The set `seen` holds what the slice holds.
abbrev Agrees : List String → List String → Type 0
Agrees seen result = (s : String) → one_of seen s ≡ one_of result s

Agrees-concat :
    (seen result : List String) (t : String)
    → Agrees seen result
    → Agrees (t ∷ seen) (result ++ t ∷ [])
Agrees-concat seen result t a s = rw (one_of-concat result t s, a s)

dedupe_from-IsClean :
    (seen result values : List String)
    → Agrees seen result
    → IsClean result
    → IsClean (dedupe_from seen result values)
unfolding dedupe_from
dedupe_from-IsClean seen result [] a h = h
dedupe_from-IsClean seen result (value ∷ values) a h =
    elim (Bool-cases (trim_space value == "" || one_of seen (trim_space value))) [
      | inl skip ↦ rw skip (dedupe_from-IsClean seen result values a h)
      | inr keep ↦
          let t = trim_space value in
          let agreed = Agrees-concat seen result t a in
          let clean =
            IsClean-concat result t h (IsPlain-trim_space value (ground arith))
              (ground (arith, a t)) in
          rw keep (dedupe_from-IsClean (t ∷ seen) (result ++ t ∷ []) values agreed clean)
    ]

dedupe_from-one_of :
    (seen result values : List String) (s : String)
    → Agrees seen result
    → one_of (dedupe_from seen result values) s
      ≡ (one_of result s || (not (s == "") && one_of (map trim_space values) s))
unfolding dedupe_from
dedupe_from-one_of seen result [] s a = ground arith
dedupe_from-one_of seen result (value ∷ values) s a =
    let t = trim_space value in
    ground (
      arith,
      dedupe_from-one_of seen result values s a,
      dedupe_from-one_of (t ∷ seen) (result ++ t ∷ []) values s (Agrees-concat seen result t a),
      one_of-concat result t s,
      a t,
      eq_iff t "",
      eq_iff s t,
      eq_iff s "",
    )

-- The cleaned list holds trimmed references alone, none empty and none twice, and holds exactly the
-- non-empty trimmed forms of the values given.
pub dedupe_and_trim_strings-IsClean :
    (values : List String)
    → IsClean (dedupe_and_trim_strings values)
      × ((s : String)
          → one_of (dedupe_and_trim_strings values) s
            ≡ (not (s == "") && one_of (map trim_space values) s))
unfolding dedupe_and_trim_strings
dedupe_and_trim_strings-IsClean values = (
  dedupe_from-IsClean [] [] values (λ s. refl) (tt, tt),
  λ s. dedupe_from-one_of [] [] values s (λ r. refl),
)

-- None of the values is in the set.
abbrev AreFresh : List String → List String → Type 0
AreFresh seen values = All (λ v. one_of seen v ≡ false) values

AreFresh-nil : (values : List String) → AreFresh [] values
AreFresh-nil [] = tt
AreFresh-nil (v ∷ values) = (refl, AreFresh-nil values)

AreFresh-cons :
    (seen : List String) (t : String) (values : List String)
    → AreFresh seen values
    → one_of values t ≡ false
    → AreFresh (t ∷ seen) values
AreFresh-cons seen t [] d h = tt
AreFresh-cons seen t (v ∷ values) (fresh, d) h =
    (ground (arith, eq_iff t v, eq_iff v t), AreFresh-cons seen t values d (ground arith))

dedupe_from_of_IsClean :
    (seen result values : List String)
    → IsClean values
    → AreFresh seen values
    → dedupe_from seen result values ≡ result ++ values
unfolding dedupe_from
dedupe_from_of_IsClean seen result [] c d = sym (append-nil _)
dedupe_from_of_IsClean seen result (value ∷ values) (((trimmed, full), plain), (new, distinct)) d =
    let later = AreFresh-cons seen value values d.1 new in
    let ih =
      dedupe_from_of_IsClean (value ∷ seen) (result ++ value ∷ []) values (plain, distinct) later in
    rw (trimmed, full, d.0, ih) (simp append_assoc)

-- A clean list is left alone.
pub dedupe_and_trim_strings_of_IsClean :
    (values : List String) → IsClean values → dedupe_and_trim_strings values ≡ values
unfolding dedupe_and_trim_strings
dedupe_and_trim_strings_of_IsClean values c =
    dedupe_from_of_IsClean [] [] values c (AreFresh-nil values)

-- One more reference keeps the list clean; the list then holds what it held and the trimmed
-- reference, if that is not empty.
pub append_unique-IsClean :
    (values : List String) (value : String)
    → IsClean values
    → IsClean (append_unique values value)
      × ((s : String)
          → one_of (append_unique values value) s
            ≡ (one_of values s || (not (trim_space value == "") && s == trim_space value)))
unfolding append_unique
append_unique-IsClean values value c =
    elim (Bool-cases (trim_space value == "" || one_of values (trim_space value))) [
      | inl skip ↦ rw skip (c, λ s. ground (arith, eq_iff s (trim_space value)))
      | inr keep ↦
          let t = trim_space value in
          rw keep (
            IsClean-concat values t c (IsPlain-trim_space value (ground arith)) (ground arith),
            λ s. ground (arith, one_of-concat values t s),
          )
    ]
