-- ===== src/Outbound/Dial.antt =====
-- backend/app/outbound/service.py: `dial_outbound_call`.
pub mod Persist
pub mod Requests
pub mod Single
pub mod Order
use qora.Base.{
  ℕ, Bool, true, false, Option, none, some, List, [], ◌∷◌, ◌++◌, ◌&&◌, ◌==◌, if◌then◌else◌, is_none,
}
use qora.Calls.Sessions.{SessionStatus}
use qora.Calls.States.{CallStatus}
use qora.Store.{Db, Session, commit, put_sessions, update_where}
use qora.Store.Rows.{
  CallSession, ErrorDetail, TelephonyError, detail, ambiguous_timeout, attempts, OutcomeReason,
  provider_transient, provider_permanent, timeout_ambiguous,
}
use qora.Scheduler.Rules.{
  TechOutcome, skipped, multiple_results_found, scheduled, schedule_tech_retry,
}
use qora.Outbound.Linkage.{has_session_id}
use qora.Outbound.Provider.{
  Exchange, CallResult, accepted, failure, raised, Category, transient, permanent, unknown,
  initiate_outbound_call,
}
use qora.Outbound.Guards.{
  DialLibrary, FailureCode, Target, Checked, passed, blocked, broke, Ready, check_guards,
}
use qora.Outbound.Dial.Persist.{persist_accepted_call_session}

-- `DialResult.status`
pub data DialStatus : Type 0 where
  dialing failed recurrent_error : DialStatus

-- The error text is that of the failure code, or of the session.
pub record DialResult : Type 0 where
  pub status : DialStatus
  pub call_session_id : Option ℕ
  pub failure_code : Option FailureCode

-- what leaves the process: a POST to the provider, and a probe in the background
pub data Act : Type 0 where
  posted probed : Act

-- the end of a dial; no result is an exception that goes through
pub record Dialed : Type 0 where
  pub result : Option DialResult
  pub session : Session
  pub acts : List Act

-- What a dial meets: the clock before and after, the new keys, what the two POSTs end in, and what other sessions
-- commit while each is in flight.
pub record Moment : Type 0 where
  pub now : ℕ
  pub later : ℕ
  pub new_session : ℕ
  pub new_retry : ℕ
  pub first_exchange : Exchange
  pub second_exchange : Exchange
  pub during_first : Db → Db
  pub during_second : Db → Db

-- the row that is durable before the provider is called
abbrev pub new_call_session : ℕ → ℕ → Ready → CallSession
new_call_session id now ready = record {
  id = id;
  client_id = ready.client.id;
  lead_id = some ready.lead.id;
  agent_id = some ready.agent.id;
  status = SessionStatus.initiated;
  started_at = now;
  ended_at = none;
  duration_seconds = none;
  billable_minutes = none;
  closed_reason = none;
  total_user_turns = 0;
  total_agent_turns = 0;
  merged_into_session_id = none;
  telephony_status = some CallStatus.dialing;
  telephony_error = none;
  outcome_reason = none;
  provider_metadata = none;
  provider_call_id = none;
  elevenlabs_conversation_id = none;
  session_end_received = false;
  sip_call_id = none;
  sip_status_code = none;
  sip_reason = none;
  reconciled_at = none;
  reconciliation_source = none;
  reconciliation_attempts = 0;
}

abbrev pub create_dialing : ℕ → ℕ → Ready → Session → Session
create_dialing id now ready s =
    commit (put_sessions (s.view.call_sessions ++ new_call_session id now ready ∷ []) s)

-- the next transaction sees what was committed meanwhile
abbrev pub meanwhile : (Db → Db) → Session → Session
meanwhile f s = record { view = f s.durable; durable = f s.durable }

-- an ORM write of one session's error columns, and the commit
abbrev pub mark_error :
    ℕ → CallStatus → TelephonyError → Option OutcomeReason → CallSession → CallSession
mark_error id status error none r = record r {
  telephony_status = some status;
  telephony_error = some error;
}
mark_error id status error (some reason) r = record r {
  telephony_status = some status;
  telephony_error = some error;
  outcome_reason = some reason;
}

abbrev pub commit_error : ℕ → CallStatus → TelephonyError → Option OutcomeReason → Session → Session
commit_error id status error reason s = commit (
    put_sessions
      (update_where (has_session_id id) (mark_error id status error reason) s.view.call_sessions) s)

abbrev pub result_of : DialStatus → ℕ → DialResult
result_of status id = record { status = status; call_session_id = some id; failure_code = none }

abbrev pub ended_with : DialStatus → ℕ → Session → List Act → Dialed
ended_with status id s acts = record {
  result = some (result_of status id);
  session = s;
  acts = acts;
}

-- the Qora-owned retry; what it raises is caught
abbrev pub after_tech_retry : TechOutcome × Session → Session
after_tech_retry (skipped, s) = s
after_tech_retry (multiple_results_found, s) = s
after_tech_retry (scheduled sc, s) = commit s

unfoldable pub give_up : Moment → Ready → ErrorDetail → ErrorDetail → Session → Dialed
unfolding schedule_tech_retry
give_up m ready first second s =
    let id = m.new_session in
    let marked =
      commit_error id CallStatus.recurrent_error (attempts first second) (some provider_transient)
        s in
    ended_with recurrent_error id
      (after_tech_retry (
        schedule_tech_retry m.later m.new_retry id ready.lead.id ready.client.id
          (some ready.agent.id) marked))
      (posted ∷ posted ∷ [])

-- the retry after a transient error; every result that is not accepted is a recurrent error
unfoldable pub after_second :
    DialLibrary → Moment → Ready → ErrorDetail → CallResult → Session → Dialed
unfolding give_up persist_accepted_call_session
after_second lib m ready first (accepted key body) s =
    ended_with dialing m.new_session
      (persist_accepted_call_session lib.strings m.new_session key body true s)
      (posted ∷ posted ∷ [])
after_second lib m ready first (failure category second) s = give_up m ready first second s
after_second lib m ready first raised s = record {
  result = none;
  session = s;
  acts = posted ∷ posted ∷ [];
}

unfoldable pub after_first : DialLibrary → Moment → Ready → CallResult → Session → Dialed
unfolding after_second initiate_outbound_call persist_accepted_call_session
after_first lib m ready (accepted key body) s =
    ended_with dialing m.new_session
      (persist_accepted_call_session lib.strings m.new_session key body false s)
      (posted ∷ probed ∷ [])
after_first lib m ready (failure Category.no_answer error) s =
    ended_with failed m.new_session
      (commit_error m.new_session CallStatus.no_answer (detail error) none s) (posted ∷ [])
after_first lib m ready (failure permanent error) s =
    ended_with failed m.new_session
      (commit_error m.new_session CallStatus.failed (detail error) (some provider_permanent) s)
      (posted ∷ [])
after_first lib m ready (failure unknown error) s =
    ended_with failed m.new_session
      (commit_error m.new_session CallStatus.failed (ambiguous_timeout error)
        (some timeout_ambiguous) s)
      (posted ∷ probed ∷ [])
after_first lib m ready (failure transient error) s =
    after_second lib m ready error (initiate_outbound_call lib.strings m.second_exchange)
      (meanwhile m.during_second s)
after_first lib m ready raised s = record { result = none; session = s; acts = posted ∷ [] }

unfoldable pub after_guards : DialLibrary → Moment → Checked Ready → Session → Dialed
unfolding after_first initiate_outbound_call
after_guards lib m broke s = record { result = none; session = s; acts = [] }
after_guards lib m (blocked code) s = record {
  result = some (record { status = failed; call_session_id = none; failure_code = some code });
  session = s;
  acts = [];
}
after_guards lib m (passed ready) s =
    after_first lib m ready (initiate_outbound_call lib.strings m.first_exchange)
      (meanwhile m.during_first (create_dialing m.new_session m.now ready s))

unfoldable pub dial_outbound_call : DialLibrary → Moment → Target → Session → Dialed
unfolding check_guards after_guards
dial_outbound_call lib m target s = after_guards lib m (check_guards lib m.now target s.view) s
