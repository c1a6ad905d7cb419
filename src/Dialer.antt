-- ===== src/Dialer.antt =====
-- backend/app/scheduler/service.py: `_dial_claimed_scheduled_call` and `run_scheduler_cycle`.
pub mod Settled
pub mod Posts
use qora.Base.{
  ℕ, suc, ◌+◌, Bool, true, false, Option, none, some, List, [], ◌∷◌, ◌++◌, ◌&&◌, not, ◌==◌,
  if◌then◌else◌, where_rows, first_row,
}
use qora.Clock.{calculate_scheduled_at}
use qora.Store.{Db, Session, commit, put_scheduled, update_where, get_client, get_lead}
use qora.Store.Rows.{ScheduledCall, Client, Lead, Agent, QueueStatus, pending, failed, cancelled}
use qora.Scheduler.Policy.{
  AgentResolution, resolved, no_active_agent, ambiguous_agent, resolve_single_active_agent,
}
use qora.Scheduler.Queue.{write_status}
use qora.Scheduler.Claim.{claim_due_scheduled_calls, mark_due_calls_in_progress}
use qora.Scheduler.Reaper.{reap_stranded_scheduled_calls}
use qora.Outbound.Guards.{DialLibrary, Target}
use qora.Outbound.Dial.{Act, DialStatus, DialResult, Dialed, Moment, dial_outbound_call}

-- `sc.status`, after `sc.outcome_session_id` or `sc.scheduled_at`, and the commit
abbrev pub settle_status : ℕ → QueueStatus → ℕ → Session → Session
settle_status key status now s = commit (write_status key status now s)

abbrev pub defer_row : ℕ → ℕ → ScheduledCall → ScheduledCall
defer_row at now r = record r { scheduled_at = at; status = pending; updated_at = now }

-- outside the allowed hours: back to pending, at the next allowed time
abbrev pub defer : ℕ → ℕ → ℕ → Session → Session
defer key at now s =
    commit
      (put_scheduled (update_where (λ r. r.id == key) (defer_row at now) s.view.scheduled_calls) s)

abbrev pub link_row : Option ℕ → ℕ → ScheduledCall → ScheduledCall
link_row session now r = record r { outcome_session_id = session; updated_at = now }

abbrev pub link_outcome : ℕ → Option ℕ → ℕ → Session → Session
link_outcome key session now s = commit (
    put_scheduled (update_where (λ r. r.id == key) (link_row session now) s.view.scheduled_calls) s)

-- what follows the dial; no result is an exception
abbrev pub settle_result : ℕ → ℕ → Option DialResult → Session → Session
settle_result key now none s = settle_status key failed now s
settle_result key now (some r) s = elim (r.status) [
  | DialStatus.dialing ↦ link_outcome key r.call_session_id now s
  | DialStatus.failed ↦ settle_status key failed now s
  | DialStatus.recurrent_error ↦ settle_status key failed now s
]

abbrev pub get_agent : ℕ → Db → Option Agent
get_agent key db = first_row (where_rows (λ a. a.id == key) db.agents)

-- the agent that is passed on, or none for an exception
abbrev pub of_resolution : AgentResolution → Option (Option Agent)
of_resolution (resolved a) = some (some a)
of_resolution no_active_agent = none
of_resolution ambiguous_agent = none

unfoldable pub agent_to_dial : ScheduledCall → Db → Option (Option Agent)
unfolding resolve_single_active_agent
agent_to_dial sc db = elim (sc.agent_id) [
  | some a ↦ some (get_agent a db)
  | none ↦ of_resolution (resolve_single_active_agent sc.client_id db)
]

abbrev pub is_barred : Option Lead → Bool
is_barred none = false
is_barred (some l) = l.do_not_call

-- from `lead = await get_lead(...)` on
unfoldable pub dial_lead :
    DialLibrary → Moment → Bool → ScheduledCall → Option Client → Session → Session × List Act
unfolding agent_to_dial dial_outbound_call
dial_lead lib m enabled sc client s =
    let lead = get_lead sc.lead_id s.view in
    if is_barred lead
    then (settle_status sc.id cancelled m.now s, [])
    else elim (agent_to_dial sc s.view) [
      | none ↦ (settle_status sc.id failed m.later s, [])
      | some agent ↦
          let d =
            dial_outbound_call lib m
              (record {
                lead = lead;
                agent = agent;
                client = client;
                enabled = enabled;
                scheduled_call = some sc;
              })
              s in
          (settle_result sc.id m.later d.result d.session, d.acts)
    ]

-- the first time from now on that the client allows
unfoldable pub next_allowed_at : ℕ → Client → ℕ
next_allowed_at now client =
    calculate_scheduled_at now 0 client.scheduler_allowed_hours_start
      client.scheduler_allowed_hours_end client.scheduler_timezone

unfoldable pub dial_claimed_scheduled_call :
    DialLibrary → Moment → Bool → ScheduledCall → Session → Session × List Act
unfolding dial_lead next_allowed_at
dial_claimed_scheduled_call lib m enabled sc s = elim (get_client sc.client_id s.view) [
  | none ↦ dial_lead lib m enabled sc none s
  | some client ↦
      if next_allowed_at m.now client == m.now
      then dial_lead lib m enabled sc (some client) s
      else (defer sc.id (next_allowed_at m.now client) m.now s, [])
]

pub record Settings : Type 0 where
  pub enable_auto_dialer : Bool
  pub enable_outbound_calls : Bool
  pub auto_dialer_max_concurrent_dials : ℕ

-- one row after the other; `moments` gives what the n-th dial meets
unfoldable pub dial_each :
    DialLibrary → (ℕ → Moment) → ℕ → Bool → List ScheduledCall → Session → Session × List Act
unfolding dial_claimed_scheduled_call
dial_each lib moments n enabled [] s = (s, [])
dial_each lib moments n enabled (sc ∷ rest) s =
    let (s', acts) = dial_claimed_scheduled_call lib (moments n) enabled sc s in
    let (s'', more) = dial_each lib moments (suc n) enabled rest s' in (s'', acts ++ more)

unfoldable pub run_scheduler_cycle :
    DialLibrary → ℕ → (ℕ → Moment) → Settings → Session → Session × List Act
unfolding reap_stranded_scheduled_calls claim_due_scheduled_calls dial_each
    mark_due_calls_in_progress
run_scheduler_cycle lib now moments settings s =
    if settings.enable_auto_dialer && settings.enable_outbound_calls
    then (let (claimed, s') =
          claim_due_scheduled_calls now settings.auto_dialer_max_concurrent_dials
            (reap_stranded_scheduled_calls now s) in
        dial_each lib moments 0 settings.enable_outbound_calls claimed s')
    else ((mark_due_calls_in_progress now s).1, [])
