-- ===== src/Tests/Fixtures.antt =====
-- The data that the tests share.
use qora.Base.{ℕ, ◌+◌, ◌-◌, ◌*◌, true, false, Option, none, some, List, [], ◌∷◌, arith}
use qora.Clock.{Zone, IsRegular, hour, day}
use qora.Leads.States.{new}
use qora.Store.{Db, Session}
use qora.Store.Rows.{ScheduledCall, Client, Lead, Agent, QueueStatus, Trigger}
use qora.Scheduler.Policy.{Library, Facts}

abbrev pub buenos_aires : Zone
buenos_aires = record { to_local = λ t. t - 3 * hour; of_local = λ w. w + 3 * hour }

pub buenos_aires-IsRegular : (start_hour : ℕ) → IsRegular buenos_aires start_hour
buenos_aires-IsRegular start_hour = record {
  to_local-of_local = λ w k. omega arith;
  of_local_later = λ u w k h. omega arith;
}

-- 13:00 and 23:30 UTC, which are 10:00 and 20:30 in Buenos Aires
abbrev pub morning : ℕ
morning = 739000 * day + 13 * hour

abbrev pub evening : ℕ
evening = 739000 * day + 23 * hour + 30 * 60000000

abbrev pub client_row : Client
client_row = record {
  id = 1;
  scheduler_enabled = true;
  scheduler_retry_on_outcomes = "[\"call_again\"]";
  scheduler_max_attempts = 3;
  scheduler_cooldown_minutes = 60;
  scheduler_backoff_multiplier = none;
  scheduler_allowed_hours_start = 9;
  scheduler_allowed_hours_end = 20;
  scheduler_timezone = buenos_aires;
  plan = some "pilot";
  entitlement_overrides = none;
}

-- +5491123456789
abbrev pub mobile_number : List ℕ
mobile_number =
    b'+' ∷ b'5' ∷ b'4' ∷ b'9' ∷ b'1' ∷ b'1' ∷ b'2' ∷ b'3' ∷ b'4' ∷ b'5' ∷ b'6' ∷ b'7' ∷ b'8' ∷ b'9'
    ∷ []

abbrev pub lead_row : Lead
lead_row = record {
  id = 7;
  client_id = 1;
  do_not_call = false;
  phone = mobile_number;
  status = new;
  call_count = 0;
  last_called_at = none;
  updated_at = 0;
}

abbrev pub agent_row : Agent
agent_row = record {
  id = 5;
  client_id = 1;
  is_active = true;
  elevenlabs_agent_id = some "agent_1";
  elevenlabs_phone_number_id = some "phnum_1";
}

-- row `key` of lead 7, last written at `at`
abbrev pub call_row : ℕ → QueueStatus → Trigger → Option ℕ → ℕ → ScheduledCall
call_row key status trigger outcome at = record {
  id = key;
  client_id = 1;
  lead_id = 7;
  source_session_id = none;
  status = status;
  scheduled_at = at;
  attempt_number = 1;
  max_attempts = 3;
  trigger_reason = trigger;
  outcome_session_id = outcome;
  notes = none;
  agent_id = some 5;
  created_at = at;
  updated_at = at;
}

abbrev pub db_of : List ScheduledCall → Db
db_of rows = record {
  scheduled_calls = rows;
  call_sessions = [];
  clients = client_row ∷ [];
  leads = lead_row ∷ [];
  agents = agent_row ∷ [];
  transcript_turns = [];
}

-- a session that has written nothing since its last commit
abbrev pub settled_on : List ScheduledCall → Session
settled_on rows = record { view = db_of rows; durable = db_of rows }

-- `json.loads` of the client's column, and no parsable instants
abbrev pub library : Library
library = record { json_loads = λ t. some ("call_again" ∷ []); from_iso = λ t. none }

abbrev pub retry_facts : Facts
retry_facts = record {
  next_action_result = some (record { action = some "retry_call"; next_action_at = none });
  next_action_suggested = none;
}
