-- ===== src/Clock.antt =====
-- Instants, client timezones and the allowed-hours clamp of backend/app/scheduler/service.py.
pub mod Window
use qora.Base.{ℕ, suc, ◌+◌, ◌-◌, ◌*◌, ◌/◌, ◌%◌, ◌<◌, ◌≤◌, ◌≡◌, ltb, leb, Bool, ◌&&◌, if◌then◌else◌}

-- An aware datetime is the number of microseconds since 0001-01-01 00:00 UTC; a wall-clock
-- datetime is the same count read on the local clock.
abbrev pub second : ℕ
second = 1000000

abbrev pub minute : ℕ
minute = 60 * second

abbrev pub hour : ℕ
hour = 3600 * second

abbrev pub day : ℕ
day = 86400 * second

-- `.hour` of a wall-clock datetime
unfoldable pub hour_of : ℕ → ℕ
hour_of w = w / hour % 24

-- `datetime.combine(local.date() + timedelta(days=k), time(h, 0, 0))`, for h in 0..23
unfoldable pub combine : ℕ → ℕ → ℕ → ℕ
combine w k h = (w / day + k) * day + h * hour

-- `ZoneInfo(tz)`: `astimezone` of an instant, and of a wall-clock datetime back to UTC.
pub record Zone : Type 0 where
  pub to_local : ℕ → ℕ
  pub of_local : ℕ → ℕ

-- What `zoneinfo` documents for a start hour that no offset change of the zone skips or repeats, on
-- any day: its wall clocks go to UTC and back, and an instant that reads earlier is earlier.
pub record IsRegular (z : Zone) (start_hour : ℕ) : Type 0 where
  pub to_local-of_local :
      (w k : ℕ) → z.to_local (z.of_local (combine w k start_hour)) ≡ combine w k start_hour
  pub of_local_later :
      (u w k : ℕ) → z.to_local u < combine w k start_hour → u < z.of_local (combine w k start_hour)

unfoldable pub calculate_scheduled_at : ℕ → ℕ → ℕ → ℕ → Zone → ℕ
calculate_scheduled_at now_utc cooldown_minutes start_hour end_hour tz =
    let candidate_utc = now_utc + cooldown_minutes * minute in
    let local = tz.to_local candidate_utc in
    if leb start_hour (hour_of local) && ltb (hour_of local) end_hour
    then candidate_utc
    else if ltb (hour_of local) start_hour
    then tz.of_local (combine local 0 start_hour)
    else tz.of_local (combine local 1 start_hour)
