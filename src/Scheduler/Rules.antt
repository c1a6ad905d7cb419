-- ===== src/Scheduler/Rules.antt =====
-- backend/app/scheduler/service.py: `auto_schedule` and `schedule_tech_retry`.
pub mod Recontact
pub mod TechRetry
use Prim.Native.String.{String}
use text.Mathlib.Text.{◌==◌ as str_eq}
use qora.Base.{
  ℕ, ◌+◌, ◌-◌, ◌*◌, ◌/◌, ◌^◌, Bool, false, Option, none, some, List, [], ◌∷◌, ◌&&◌, ◌||◌, not, ltb,
  ◌==◌, if◌then◌else◌, any_row, where_rows, count_rows, is_none,
}
use qora.Base.Maybe.{◌>>=◌, ◌>>◌, require}
use qora.Clock.{calculate_scheduled_at}
use qora.Store.{Db, Session, get_client, get_lead, get_session}
use qora.Store.Rows.{
  ScheduledCall, Client, Agent, Multiplier, is_active, auto_retry, tech_retry, is_tech_retry,
}
use qora.Scheduler.Policy.{
  AgentResolution, Facts, Library, NextActionFacts, NextAt, calculate_backoff_delay,
  effective_cooldown, engine_action_to_legacy_outcome, is_eligible, next_action_of, override_at,
  resolve_agent, resolve_single_active_agent, retry_outcomes,
}
use qora.Scheduler.Queue.{create_scheduled_call, get_active_scheduled_call_for_lead}

-- rows that count against `scheduler_max_attempts`
abbrev pub is_recontact : ℕ → ℕ → ScheduledCall → Bool
is_recontact client lead r =
    r.lead_id == lead && (r.client_id == client && not (is_tech_retry r.trigger_reason))

abbrev pub is_tech_row : ℕ → ℕ → ScheduledCall → Bool
is_tech_row client lead r =
    r.lead_id == lead && (r.client_id == client && is_tech_retry r.trigger_reason)

abbrev pub is_active_tech_row : ℕ → ℕ → ScheduledCall → Bool
is_active_tech_row client lead r = is_tech_row client lead r && is_active r.status

pub record Plan : Type 0 where
  pub at : ℕ
  pub attempt : ℕ
  pub max : ℕ
  pub agent : Option ℕ

-- the rules of `auto_schedule`, which only read
unfoldable pub auto_schedule_plan : Library → ℕ → ℕ → ℕ → ℕ → Facts → Option ℕ → Db → Option Plan
unfolding is_eligible override_at effective_cooldown
auto_schedule_plan lib now session lead_id client_id facts agent_id db = do
  client ← get_client client_id db
  require client.scheduler_enabled
  require (is_eligible lib client facts)
  lead ← get_lead lead_id db
  require (not lead.do_not_call)
  require (is_none (get_active_scheduled_call_for_lead client_id lead_id db))
  let count = count_rows (is_recontact client_id lead_id) db.scheduled_calls
  require (ltb count client.scheduler_max_attempts)
  agent ← resolve_agent agent_id session client_id db
  let computed =
      calculate_scheduled_at now (effective_cooldown client (count + 1))
        client.scheduler_allowed_hours_start client.scheduler_allowed_hours_end
        client.scheduler_timezone
  some (record {
    at = elim (override_at lib facts) [ some t ↦ t | none ↦ computed ];
    attempt = count + 1;
    max = client.scheduler_max_attempts;
    agent = some agent;
  })

unfoldable pub auto_schedule :
    Library → ℕ → ℕ → ℕ → ℕ → ℕ → Facts → Option ℕ → Session → Option ScheduledCall × Session
unfolding create_scheduled_call
auto_schedule lib now new_id session lead client facts agent s =
    elim (auto_schedule_plan lib now session lead client facts agent s.view) [
      | none ↦ (none, s)
      | some p ↦
          let (sc, s') =
            create_scheduled_call new_id now client lead p.at auto_retry (some session) p.attempt
              p.max none p.agent s in
          (some sc, s')
    ]

-- `_TECH_RETRY_MAX_ATTEMPTS`, `_TECH_RETRY_DELAY_MINUTES`
abbrev pub tech_retry_max_attempts : ℕ
tech_retry_max_attempts = 2

abbrev pub tech_retry_delay_minutes : ℕ
tech_retry_delay_minutes = 5

-- `scalar_one_or_none()` raises `MultipleResultsFound` on two rows or more.
pub data TechOutcome : Type 0 where
  skipped : TechOutcome
  multiple_results_found : TechOutcome
  scheduled : ScheduledCall → TechOutcome

abbrev pub tech_retry_note : String
tech_retry_note = "Qora-owned technical retry: transient provider failure"

-- what follows the dedup guard
unfoldable pub tech_retry_plan : ℕ → ℕ → ℕ → ℕ → Option ℕ → Db → Option Plan
tech_retry_plan now session lead_id client_id agent_id db = do
  let count = count_rows (is_tech_row client_id lead_id) db.scheduled_calls
  require (ltb count tech_retry_max_attempts)
  agent ← resolve_agent agent_id session client_id db
  client ← get_client client_id db
  some (record {
    at =
        calculate_scheduled_at now tech_retry_delay_minutes client.scheduler_allowed_hours_start
          client.scheduler_allowed_hours_end client.scheduler_timezone;
    attempt = count + 1;
    max = tech_retry_max_attempts;
    agent = some agent;
  })

unfoldable pub schedule_tech_retry : ℕ → ℕ → ℕ → ℕ → ℕ → Option ℕ → Session → TechOutcome × Session
unfolding create_scheduled_call
schedule_tech_retry now new_id session lead client agent s =
    let active = count_rows (is_active_tech_row client lead) s.view.scheduled_calls in
    if ltb 1 active
    then (multiple_results_found, s)
    else if active == 1
    then (skipped, s)
    else elim (tech_retry_plan now session lead client agent s.view) [
      | none ↦ (skipped, s)
      | some p ↦
          let (sc, s') =
            create_scheduled_call new_id now client lead p.at tech_retry (some session) p.attempt
              p.max (some tech_retry_note) p.agent s in
          (scheduled sc, s')
    ]
