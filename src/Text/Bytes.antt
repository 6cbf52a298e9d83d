-- ===== src/Text/Bytes.antt =====
-- Texts by their bytes in UTF-8: the length `len(s)` of Go and the cut `s[:n]`.
use Prim.Native.String
use Prim.Native.String.{[], ◌∷◌}
use clawbot_server.Base.{ℕ, zero, suc, ◌+◌, ◌-◌, Char, code, String, ltb, leb, if◌then◌else◌}

-- The bytes of a character.
abbrev pub width : Char → ℕ
width c =
    let n = code c in
    if ltb n 0x80 then 1 else if ltb n 0x800 then 2 else if ltb n 0x10000 then 3 else 4

-- `len(s)`.
unfoldable pub byte_length : String → ℕ
byte_length [] = 0
byte_length (c ∷ s) = width c + byte_length s

-- `encoding/json` writes U+FFFD for each byte that is part of no character.
unfoldable pub broken : ℕ → String
broken zero = ""
broken (suc n) = String.◌++◌ "�" (broken n)

-- `s[:n]`, as `encoding/json` writes it: a character that is cut leaves its first bytes.
unfoldable pub cut : ℕ → String → String
unfolding broken
cut n [] = []
cut n (c ∷ s) = let rest = cut (n - width c) s in if leb (width c) n then c ∷ rest else broken n
