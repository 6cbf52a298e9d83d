-- ===== src/Text/Tests.antt =====
-- Tests of what is printed in decimal.
use clawbot_server.Base.{◌≡◌, refl}
use clawbot_server.Text.Digits.{decimal, decimal_at_least, format_time, format_compact}

-- 2024-02-29 12:34:56.78, the days around it, and the start of the count.
times_printed :
    (format_time 1709210096780000000 ≡ "2024-02-29T12:34:56.78Z")
    × (format_time 1709251200000000000 ≡ "2024-03-01T00:00:00Z")
    × (format_time 0 ≡ "1970-01-01T00:00:00Z")
    × (format_compact 1709210096780000000 ≡ "20240229T123456Z")
    × (decimal_at_least 3 7 ≡ "007")
    × (decimal_at_least 3 1234 ≡ "1234")
    × (decimal 60 ≡ "60")
unfolding format_time format_compact decimal decimal_at_least
times_printed = (refl, refl, refl, refl, refl, refl, refl)
