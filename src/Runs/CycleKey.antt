-- ===== src/Runs/CycleKey.antt =====
-- Keys of the cycles of a week run: `isValidCycleKey` of internal/platform/runs/service.go.
use clawbot_server.Base.{
  String, Bool, false, not, ◌&&◌, Option, none, some, ◌==◌, leb, starts_with, if◌then◌else◌,
}
use clawbot_server.Base.Int.{ℤ, pos, negsuc}
use clawbot_server.Text.{trim_prefix}
use clawbot_server.Text.Number.{atoi}

-- `day >= 1 && day <= 7`, and false on the error of `strconv.Atoi`.
is_week_day : Option ℤ → Bool
is_week_day none = false
is_week_day (some (pos day)) = leb 1 day && leb day 7
is_week_day (some (negsuc n)) = false

unfoldable pub is_valid_cycle_key : String → Bool
unfolding is_week_day
is_valid_cycle_key value =
    if starts_with value "day-"
    then is_week_day (atoi (trim_prefix value "day-"))
    else not (value == "")
