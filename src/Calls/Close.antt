-- ===== src/Calls/Close.antt =====
-- backend/app/calls/service.py: `close_session`, `_reconcile_session` and the voicemail heuristic;
-- backend/app/sweeper.py: `sweep_stale_sessions`.
pub mod Tally
pub mod Once
use Prim.Native.String.{String}
use qora.Base.{
  ℕ, suc, ◌+◌, ◌-◌, ◌*◌, ◌/◌, Bool, true, false, Option, none, some, List, [], ◌∷◌, ◌&&◌, ◌||◌, not,
  leb, ltb, ◌==◌, if◌then◌else◌, where_rows, first_row, is_none, is_some, holds_key, length,
}
use qora.Clock.{second, minute}
use qora.Calls.Sessions.{SessionStatus}
use qora.Calls.States.{CallStatus}
use qora.Calls.Turns.{
  count_turns, set_turns, write_session, merge_sibling_sessions, reconciliation_window,
}
use qora.Store.{Db, Session, get_session, write_lead, update_where, put_sessions}
use qora.Store.Rows.{CallSession, Lead}
use qora.Scheduler.Resolve.{resolve_scheduled_call_for_session}
use qora.Outbound.Linkage.{has_status, update_telephony_status_on_session_end}

abbrev pub is_completed : SessionStatus → Bool
is_completed SessionStatus.completed = true
is_completed _ = false

abbrev pub is_initiated : SessionStatus → Bool
is_initiated SessionStatus.initiated = true
is_initiated _ = false

-- `int((now - started).total_seconds())`; a session does not start after it is closed
abbrev pub seconds_between : ℕ → ℕ → ℕ
seconds_between started now = (now - started) / second

abbrev pub billed_minutes : ℕ → ℕ
billed_minutes seconds = (seconds + 59) / 60

abbrev pub mark_closed : ℕ → String → CallSession → CallSession
mark_closed now reason r = record r {
  status = SessionStatus.completed;
  ended_at = some now;
  closed_reason = some reason;
  duration_seconds = some (seconds_between r.started_at now);
  billable_minutes = some (billed_minutes (seconds_between r.started_at now));
}

abbrev pub count_call : ℕ → Lead → Lead
count_call now l = record l {
  call_count = suc l.call_count;
  last_called_at = some now;
  updated_at = now;
}

-- the lead's counters
abbrev pub update_counters : Bool → Option ℕ → ℕ → Session → Session
update_counters counted none now s = s
update_counters counted (some lead) now s =
    if counted then write_lead lead (count_call now) s else s

abbrev or_zero : Option ℕ → ℕ
or_zero none = 0
or_zero (some n) = n

-- the test of `_apply_voicemail_heuristic`, after the guard of its call in `close_session`
abbrev pub is_voicemail : CallSession → Bool
is_voicemail r =
    (has_status r.telephony_status CallStatus.completed && is_some r.duration_seconds)
    && (ltb (or_zero r.duration_seconds) 30 && r.total_user_turns == 0)

-- `_apply_voicemail_heuristic`
unfoldable pub apply_voicemail_heuristic : CallSession → CallSession
apply_voicemail_heuristic r =
    if is_voicemail r then record r { telephony_status = some CallStatus.voicemail } else r

-- the linked queue row, by the final status
abbrev pub resolve_linked : ℕ → ℕ → Option CallSession → Session → Session
resolve_linked now key none s = s
resolve_linked now key (some r) s = elim (r.telephony_status) [
  | none ↦ s
  | some t ↦ (resolve_scheduled_call_for_session now key (some t) s).1
]

-- what `close_session` and `_reconcile_session` share, from the status to the merge
unfoldable pub close_row : ℕ → String → Bool → CallSession → Session → Session
unfolding count_turns update_telephony_status_on_session_end merge_sibling_sessions
close_row now reason counted cs s =
    let marked = write_session cs.id (mark_closed now reason) s in
    let turned = write_session cs.id (set_turns (count_turns cs.id marked.view)) marked in
    let counted_lead = update_counters counted cs.lead_id now turned in
    let ended = write_session cs.id update_telephony_status_on_session_end counted_lead in
    merge_sibling_sessions cs ended

unfoldable pub close_found : ℕ → String → Bool → CallSession → Session → Session
unfolding close_row apply_voicemail_heuristic resolve_scheduled_call_for_session
close_found now reason counted cs s =
    let closed =
      write_session cs.id apply_voicemail_heuristic (close_row now reason counted cs s) in
    resolve_linked now cs.id (get_session cs.id closed.view) closed

-- the orphan of `_reconcile_session`, and the order of its SELECT
abbrev pub is_open : ℕ → ℕ → ℕ → CallSession → Bool
is_open now client lead r =
    r.client_id == client
    && (holds_key r.lead_id lead
        && (is_initiated r.status
            && (is_none r.elevenlabs_conversation_id
                && leb now (r.started_at + reconciliation_window))))

abbrev turns_of : CallSession → ℕ
turns_of r = r.total_user_turns + r.total_agent_turns

-- the second comes before the first
abbrev busier : CallSession → CallSession → Bool
busier r x =
    ltb (turns_of r) (turns_of x) || (turns_of r == turns_of x && ltb r.started_at x.started_at)

abbrev pub most_active : List CallSession → Option CallSession
most_active [] = none
most_active (r ∷ rows) = elim (most_active rows) [
  | none ↦ some r
  | some x ↦ if busier r x then some x else some r
]

abbrev pub assign_conversation : ℕ → CallSession → CallSession
assign_conversation conversation r = record r { elevenlabs_conversation_id = some conversation }

unfoldable pub reconcile_session :
    ℕ → ℕ → ℕ → ℕ → String → Bool → Session → Option CallSession × Session
unfolding close_row
reconcile_session now conversation client lead reason counted s =
    elim (most_active (where_rows (is_open now client lead) s.view.call_sessions)) [
      | none ↦ (none, s)
      | some cs ↦ (
        some cs,
        close_row now reason counted cs (write_session cs.id (assign_conversation conversation) s),
      )
    ]

-- the error, a session that was closed already, and one that is closed now
pub data Closing : Type 0 where
  session_not_found : Closing
  already_closed : CallSession → Closing
  newly_closed : ℕ → Closing

abbrev of_reconciled : Option CallSession × Session → Closing × Session
of_reconciled (none, s) = (session_not_found, s)
of_reconciled (some cs, s) = (newly_closed cs.id, s)

-- the fallback, where both hints are given
abbrev fallback : ℕ → ℕ → String → Bool → Option ℕ → Option ℕ → Session → Closing × Session
unfolding reconcile_session
fallback now key reason counted (some client) (some lead) s =
    of_reconciled (reconcile_session now key client lead reason counted s)
fallback now key reason counted _ _ s = (session_not_found, s)

unfoldable pub close_session :
    ℕ → ℕ → String → Bool → Option ℕ → Option ℕ → Session → Closing × Session
unfolding close_found fallback
close_session now key reason counted client lead s = elim (get_session key s.view) [
  | none ↦ fallback now key reason counted client lead s
  | some cs ↦
      if is_completed cs.status
      then (already_closed cs, s)
      else (newly_closed cs.id, close_found now reason counted cs s)
]

-- `_STALE_THRESHOLD_MINUTES`
abbrev pub is_stale : ℕ → CallSession → Bool
is_stale now r = is_initiated r.status && ltb (r.started_at + 10 * minute) now

abbrev or_timeout : Option String → Option String
or_timeout none = some "timeout"
or_timeout (some reason) = some reason

abbrev pub abandon : ℕ → CallSession → CallSession
abandon now r = record r {
  status = SessionStatus.abandoned;
  ended_at = some now;
  closed_reason = or_timeout r.closed_reason;
}

unfoldable pub sweep_stale_sessions : ℕ → Session → ℕ × Session
sweep_stale_sessions now s = (
  length (where_rows (is_stale now) s.view.call_sessions),
  put_sessions (update_where (is_stale now) (abandon now) s.view.call_sessions) s,
)
