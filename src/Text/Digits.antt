-- ===== src/Text/Digits.antt =====
-- Numbers and times printed in decimal: `%d` and `%03d` of Go's `fmt`, and the format
-- `time.RFC3339Nano` in UTC.
use Prim.Native.String
use Prim.Native.Nat.{◌%◌}
use clawbot_server.Base.{
  ℕ, zero, suc, ◌+◌, ◌-◌, ◌*◌, ◌/◌, String, List, [], ◌∷◌, ltb, leb, eqb, if◌then◌else◌,
}

nth_text : List String → ℕ → String
nth_text [] n = ""
nth_text (d ∷ ds) zero = d
nth_text (d ∷ ds) (suc n) = nth_text ds n

-- A digit, as the text of its character.
digit : ℕ → String
unfolding nth_text
digit n = nth_text ("0" ∷ "1" ∷ "2" ∷ "3" ∷ "4" ∷ "5" ∷ "6" ∷ "7" ∷ "8" ∷ "9" ∷ []) n

-- The last `width` digits.
unfoldable pub padded : ℕ → ℕ → String
unfolding digit
padded zero n = ""
padded (suc width) n = String.◌++◌ (padded width (n / 10)) (digit (n % 10))

-- How many digits a number has, on fuel; as much fuel as the number is enough.
digit_count : ℕ → ℕ → ℕ
digit_count zero n = 1
digit_count (suc fuel) n = let rest = digit_count fuel (n / 10) in if ltb n 10 then 1 else suc rest

-- `%d`.
unfoldable pub decimal : ℕ → String
unfolding digit_count padded
decimal n = padded (digit_count n n) n

-- `%0wd`.
unfoldable pub decimal_at_least : ℕ → ℕ → String
unfolding digit_count padded
decimal_at_least width n =
    let count = digit_count n n in padded (if ltb count width then width else count) n

-- The fraction of a second without its trailing zeros, from the count of nanoseconds and the digits
-- left to it.
fraction : ℕ → ℕ → String
unfolding padded
fraction zero n = ""
fraction (suc width) n =
    let shorter = fraction width (n / 10) in
    if eqb (n % 10) 0 then shorter else String.◌++◌ "." (padded (suc width) n)

-- The year, the month and the day of a count of days since 1970-01-01.
civil : ℕ → ℕ × ℕ × ℕ
civil days =
    let z = days + 719468 in
    let era = z / 146097 in
    let doe = z % 146097 in
    let yoe = (doe - doe / 1460 + doe / 36524 - doe / 146096) / 365 in
    let doy = doe - (365 * yoe + yoe / 4 - yoe / 100) in
    let mp = (5 * doy + 2) / 153 in
    let day = doy - (153 * mp + 2) / 5 + 1 in
    let month = if ltb mp 10 then mp + 3 else mp - 9 in
    (yoe + era * 400 + (if leb month 2 then 1 else 0), month, day)

-- `time.Unix(0, n).UTC().Format(time.RFC3339Nano)`, up to the year 9999.
unfoldable pub format_time : ℕ → String
unfolding fraction civil padded
format_time n =
    let second = n / 1000000000 in
    let (year, month, day) = civil (second / 86400) in
    let clock = second % 86400 in
    String.◌++◌ (padded 4 year) (
      String.◌++◌ "-" (
        String.◌++◌ (padded 2 month) (
          String.◌++◌ "-" (
            String.◌++◌ (padded 2 day) (
              String.◌++◌ "T" (
                String.◌++◌ (padded 2 (clock / 3600)) (
                  String.◌++◌ ":" (
                    String.◌++◌ (padded 2 (clock / 60 % 60)) (
                      String.◌++◌ ":" (
                        String.◌++◌ (padded 2 (clock % 60))
                          (String.◌++◌ (fraction 9 (n % 1000000000)) "Z")))))))))))

-- `time.Unix(0, n).UTC().Format("20060102T150405Z")`, up to the year 9999.
unfoldable pub format_compact : ℕ → String
unfolding civil padded
format_compact n =
    let second = n / 1000000000 in
    let (year, month, day) = civil (second / 86400) in
    let clock = second % 86400 in
    String.◌++◌ (padded 4 year) (
      String.◌++◌ (padded 2 month) (
        String.◌++◌ (padded 2 day) (
          String.◌++◌ "T" (
            String.◌++◌ (padded 2 (clock / 3600)) (
              String.◌++◌ (padded 2 (clock / 60 % 60))
                (String.◌++◌ (padded 2 (clock % 60)) "Z"))))))
