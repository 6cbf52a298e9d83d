-- ===== src/Text/Number.antt =====
-- `strconv.Atoi` on an `int` of 64 bits.
use Prim.Native.String.{[], ◌∷◌}
use clawbot_server.Base.{
  ℕ, zero, suc, ◌+◌, ◌*◌, ◌-◌, String, code, ◌&&◌, Option, none, some, leb, eqb, ltb, if◌then◌else◌,
}
use clawbot_server.Base.Int.{ℤ, pos, negsuc}

-- The digits that follow, read on top of the value so far.
digits_from : ℕ → String → Option ℕ
digits_from acc [] = some acc
digits_from acc (c ∷ s) =
    let n = code c in
    let rest = digits_from (10 * acc + (n - 48)) s in if leb 48 n && leb n 57 then rest else none

-- One digit or more.
digits : String → Option ℕ
digits [] = none
digits (c ∷ s) = digits_from 0 (c ∷ s)

positive : Option ℕ → Option ℤ
positive none = none
positive (some n) = if ltb n 0x8000000000000000 then some (pos n) else none

negative : Option ℕ → Option ℤ
negative none = none
negative (some zero) = some (pos 0)
negative (some (suc n)) = if ltb n 0x8000000000000000 then some (negsuc n) else none

-- `none` is the error: no digits, another character, or a value out of range.
unfoldable pub atoi : String → Option ℤ
unfolding digits_from digits positive negative
atoi [] = none
atoi (c ∷ s) =
    if eqb (code c) b'-'
    then negative (digits s)
    else if eqb (code c) b'+'
    then positive (digits s)
    else positive (digits (c ∷ s))
