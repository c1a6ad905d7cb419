-- ===== src/Entitlements/Usage.antt =====
-- backend/app/entitlements/service.py: `get_usage`. The start of a month on a wall clock is a
-- parameter, which `datetime.replace` gives.
use qora.Base.{
  ℕ, ◌+◌, ◌/◌, Bool, false, Option, none, some, List, [], ◌∷◌, ◌&&◌, ◌||◌, leb, ltb, ◌==◌,
  count_rows, where_rows, is_some,
}
use qora.Calls.Live.{count_active_calls}
use qora.Store.{Db}
use qora.Store.Rows.{CallSession, Client}

pub record Usage : Type 0 where
  pub period_start : ℕ
  pub monthly_calls : ℕ
  pub monthly_minutes : ℕ
  pub concurrent_calls : ℕ
  pub active_agents : ℕ

-- `local_now.replace(day=1, hour=0, minute=0, second=0, microsecond=0)`
pub record Calendar : Type 0 where
  pub month_start : ℕ → ℕ

unfoldable pub month_start_utc : Calendar → Client → ℕ → ℕ
month_start_utc calendar client now =
    let tz = client.scheduler_timezone in tz.of_local (calendar.month_start (tz.to_local now))

-- NULL is no positive duration
abbrev positive : Option ℕ → Bool
positive none = false
positive (some n) = ltb 0 n

-- a call reached the provider, or produced audio
abbrev pub is_real_call : CallSession → Bool
is_real_call r = is_some r.telephony_status || positive r.duration_seconds

abbrev pub is_counted : ℕ → ℕ → CallSession → Bool
is_counted client start r = r.client_id == client && (leb start r.started_at && is_real_call r)

abbrev or_zero : Option ℕ → ℕ
or_zero none = 0
or_zero (some n) = n

-- `COALESCE(SUM(duration_seconds), 0)`
abbrev pub sum_seconds : List CallSession → ℕ
sum_seconds [] = 0
sum_seconds (r ∷ rows) = or_zero r.duration_seconds + sum_seconds rows

-- `math.ceil(seconds / 60)`
abbrev pub minutes_of : ℕ → ℕ
minutes_of seconds = (seconds + 59) / 60

abbrev pub count_active_agents : ℕ → Db → ℕ
count_active_agents client db = count_rows (λ a. a.client_id == client && a.is_active) db.agents

unfoldable pub get_usage : Calendar → ℕ → Client → Db → Usage
unfolding month_start_utc count_active_calls
get_usage calendar now client db =
    let start = month_start_utc calendar client now in
    record {
      period_start = start;
      monthly_calls = count_rows (is_counted client.id start) db.call_sessions;
      monthly_minutes =
          minutes_of (sum_seconds (where_rows (is_counted client.id start) db.call_sessions));
      concurrent_calls = count_active_calls now client.id db;
      active_agents = count_active_agents client.id db;
    }
