-- ===== src/Dates.antt =====
-- src/modules/common/utils/dates.util.ts, the functions on durations; the others call the date library.
use node_ddd_boilerplate_typ.Base.{ℕ, ◌*◌}

-- `secondsToMilliseconds`
abbrev pub seconds_to_milliseconds : ℕ → ℕ
seconds_to_milliseconds s = s * 1000

-- `minutesToSeconds`
abbrev pub minutes_to_seconds : ℕ → ℕ
minutes_to_seconds n = n * 60

-- `hoursToSeconds`
abbrev pub hours_to_seconds : ℕ → ℕ
hours_to_seconds n = minutes_to_seconds (n * 60)

-- `daysToSeconds`
abbrev pub days_to_seconds : ℕ → ℕ
days_to_seconds n = hours_to_seconds (n * 24)
