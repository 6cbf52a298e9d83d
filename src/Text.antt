-- ===== src/Text.antt =====
-- The functions of Go's `strings` package that the program calls, on texts as sequences of code
-- points.
pub mod Trimming
pub mod Number
pub mod Digits
pub mod Bytes
pub mod Tests
use Prim.Native.String
use Prim.Native.String.{[], ◌∷◌, count}
use mathlib.Core.Option
use clawbot_server.Base.{
  ℕ, zero, suc, ◌-◌, Char, code, String, Bool, true, false, ◌&&◌, ◌||◌, List, leb, eqb,
  if◌then◌else◌, starts_with, ◌==◌, Option, some, none,
}

-- `unicode.IsSpace`.
pub is_space : Char → Bool
is_space c =
    let n = code c in
    (leb 9 n && leb n 13)
    || eqb n 32
    || eqb n 0x85
    || eqb n 0xa0
    || eqb n 0x1680
    || (leb 0x2000 n && leb n 0x200a)
    || eqb n 0x2028
    || eqb n 0x2029
    || eqb n 0x202f
    || eqb n 0x205f
    || eqb n 0x3000

pub trim_left : String → String
trim_left [] = []
trim_left (c ∷ s) = if is_space c then trim_left s else c ∷ s

abbrev is_empty : String → Bool
is_empty [] = true
is_empty (c ∷ s) = false

pub trim_right : String → String
trim_right [] = []
trim_right (c ∷ s) = let rest = trim_right s in if is_space c && is_empty rest then [] else c ∷ rest

-- `strings.TrimSpace`.
unfoldable pub trim_space : String → String
unfolding is_space trim_left trim_right
trim_space s = trim_right (trim_left s)

abbrev nth_char : List Char → ℕ → Char → Char
nth_char List.[] n d = d
nth_char (List.◌∷◌ c cs) zero d = c
nth_char (List.◌∷◌ c cs) (suc n) d = nth_char cs n d

abbrev small_letters : String
small_letters = "abcdefghijklmnopqrstuvwxyz"

abbrev chars : String → List Char
chars [] = List.[]
chars (c ∷ s) = List.◌∷◌ c (chars s)

-- `unicode.ToLower` on ASCII, and on the two letters outside it (U+0130, U+212A) that it takes into
-- ASCII; it takes every other letter to a letter outside ASCII, and this leaves it alone.
lower_char : Char → Char
lower_char c =
    let n = code c in
    if leb 65 n && leb n 90
    then nth_char (chars small_letters) (n - 65) c
    else if eqb n 0x130
    then "i"
    else if eqb n 0x212a
    then "k"
    else c

-- `strings.ToLower`.
unfoldable pub to_lower : String → String
unfolding lower_char
to_lower [] = []
to_lower (c ∷ s) = lower_char c ∷ to_lower s

-- `strings.Contains`.
unfoldable pub contains : String → String → Bool
contains [] t = starts_with "" t
contains (c ∷ s) t = starts_with (c ∷ s) t || contains s t

-- `strings.ReplaceAll(value, " ", "-")`.
unfoldable pub dash_spaces : String → String
dash_spaces [] = []
dash_spaces (c ∷ s) = (if eqb (code c) 32 then "-" else c) ∷ dash_spaces s

abbrev drop_chars : ℕ → String → String
drop_chars zero s = s
drop_chars (suc n) [] = []
drop_chars (suc n) (c ∷ s) = drop_chars n s

-- `strings.TrimPrefix`.
unfoldable pub trim_prefix : String → String → String
trim_prefix value prefix =
    if starts_with value prefix then drop_chars (count prefix) value else value

-- `strings.HasSuffix`.
unfoldable pub ends_with : String → String → Bool
ends_with [] t = [] == t
ends_with (c ∷ s) t = (c ∷ s) == t || ends_with s t

abbrev onto_first : Char → List String → List String
onto_first c List.[] = List.[]
onto_first c (List.◌∷◌ part parts) = List.◌∷◌ (c ∷ part) parts

-- `strings.Split`, by one character.
unfoldable pub split : Char → String → List String
split mark [] = List.◌∷◌ "" List.[]
split mark (c ∷ s) =
    let parts = split mark s in
    if eqb (code c) (code mark) then List.◌∷◌ "" parts else onto_first c parts

-- `strings.TrimSuffix`, of a suffix that is not empty.
unfoldable pub trim_suffix : String → String → String
trim_suffix [] suffix = []
trim_suffix (c ∷ s) suffix =
    let rest = trim_suffix s suffix in if (c ∷ s) == suffix then [] else c ∷ rest

-- `strings.ReplaceAll` of a text that is not empty, with the characters still to skip.
abbrev replace_from : String → String → ℕ → String → String
replace_from old new skip [] = []
replace_from old new (suc skip) (c ∷ s) = replace_from old new skip s
replace_from old new zero (c ∷ s) =
    let kept = replace_from old new zero s in
    let after = replace_from old new (count old - 1) s in
    if starts_with (c ∷ s) old then String.◌++◌ new after else c ∷ kept

unfoldable pub replace_all : String → String → String → String
replace_all value old new = replace_from old new zero value

-- `strings.Index`, counted in characters.
unfoldable pub index : String → String → Option ℕ
index [] t = if starts_with "" t then some zero else none
index (c ∷ s) t = if starts_with (c ∷ s) t then some zero else Option.map suc (index s t)

abbrev take_chars : ℕ → String → String
take_chars zero s = []
take_chars (suc n) [] = []
take_chars (suc n) (c ∷ s) = c ∷ take_chars n s

-- `value[from:to]`, counted in characters.
unfoldable pub slice : ℕ → ℕ → String → String
slice from to value = take_chars (to - from) (drop_chars from value)

-- `strings.Join`.
unfoldable pub join : String → List String → String
join mark List.[] = ""
join mark (List.◌∷◌ part List.[]) = part
join mark (List.◌∷◌ part (List.◌∷◌ next parts)) =
    String.◌++◌ part (String.◌++◌ mark (join mark (List.◌∷◌ next parts)))

-- `strings.TrimRight(value, "/")`.
unfoldable pub trim_right_slashes : String → String
trim_right_slashes [] = []
trim_right_slashes (c ∷ s) =
    let rest = trim_right_slashes s in if eqb (code c) 47 && is_empty rest then [] else c ∷ rest
