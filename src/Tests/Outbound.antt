-- ===== src/Tests/Outbound.antt =====
-- The outbound session's webhook and sweeps at concrete tables.
use qora.Base.{ℕ, ◌+◌, ◌≡◌, refl, false, none, some, List, [], ◌∷◌, All, where_rows}
use qora.Clock.{minute, hour}
use qora.Calls.Sessions.{SessionStatus}
use qora.Calls.States.{CallStatus, ringing, completed, failed}
use qora.Store.{Session}
use qora.Store.Rows.{CallSession}
use qora.Outbound.Linkage.{
  link_outbound_session_by_webhook, find_session, find_by_conversation_id, find_by_provider_call_id,
  find_orphan_outbound_session, mark_linked,
}
use qora.Outbound.Linkage.Sound.{link_sound}
use qora.Outbound.Sweep.{sweep_stale_outbound_sessions, ElevenLabsService}
use qora.Outbound.Sip.{SipMessage, is_invite, extract_sip_fields}
use qora.Outbound.Sip.Agree.{OfCall, Agreed, extract_sip_fields-Agreed}
use qora.Outbound.Evidence.{AllBacked, here, next, links, sweeps, Run-AllBacked}
use qora.Tests.Fixtures.{morning, db_of}

-- session `key` of lead 7, started in the morning
abbrev session_row : ℕ → CallStatus → CallSession
session_row key status = record {
  id = key;
  client_id = 1;
  lead_id = some 7;
  agent_id = some 5;
  status = SessionStatus.initiated;
  started_at = morning;
  ended_at = none;
  duration_seconds = none;
  billable_minutes = none;
  closed_reason = none;
  total_user_turns = 0;
  total_agent_turns = 0;
  merged_into_session_id = none;
  telephony_status = some status;
  telephony_error = none;
  outcome_reason = none;
  provider_metadata = none;
  provider_call_id = none;
  elevenlabs_conversation_id = none;
  session_end_received = false;
  sip_call_id = none;
  sip_status_code = none;
  sip_reason = none;
  reconciled_at = none;
  reconciliation_source = none;
  reconciliation_attempts = 4;
}

abbrev sessions_on : List CallSession → Session
sessions_on rows = record {
  view = record (db_of []) { call_sessions = rows };
  durable = record (db_of []) { call_sessions = rows };
}

-- a call that rings, and one that failed
abbrev calls : Session
calls = sessions_on (session_row 8 failed ∷ session_row 9 ringing ∷ [])

-- a provider that raises on every question
abbrev down : ElevenLabsService
down = record { list_recent_conversations = λ a. none; get_sip_messages = λ c. none }

-- the webhook of conversation 42 finds an orphan by its lead
link_sound_example :
    ((mark_linked 42 (session_row 8 failed)).client_id ≡ 1)
    × ((mark_linked 42 (session_row 8 failed)).telephony_status ≡ some completed)
unfolding link_outbound_session_by_webhook find_session find_by_conversation_id
    find_by_provider_call_id find_orphan_outbound_session
link_sound_example =
    link_sound (morning + minute) 42 1 none (some 7) calls (mark_linked 42 (session_row 8 failed))
      refl

Run-AllBacked_example :
    AllBacked
      (sweep_stale_outbound_sessions
        (morning + hour)
        (link_outbound_session_by_webhook (morning + minute) 42 none (some 1) (some 7) calls).1).1
Run-AllBacked_example =
    Run-AllBacked {s = calls}
      (next (next here (links (morning + minute) 42 none (some 1) (some 7)))
        (sweeps (morning + hour)))
      (record { seen = ((λ e. cc), ((λ e. cc), tt)); kept = ((λ e. cc), ((λ e. cc), tt)) })

-- one INVITE that the phone refused, after a provisional response
abbrev sip_message : ℕ → SipMessage
sip_message code = record {
  call_id = some 3;
  method = some "INVITE";
  status_code = some code;
  reason_phrase = none;
  cseq = some 1;
}

abbrev refused : List SipMessage
refused = sip_message 180 ∷ sip_message 404 ∷ []

extract_sip_fields-Agreed_example :
    All (OfCall 3) refused
    × ((code : ℕ) × ((extract_sip_fields refused).sip_status_code ≡ some code)
        × Agreed (where_rows is_invite refused) code)
unfolding extract_sip_fields
extract_sip_fields-Agreed_example = extract_sip_fields-Agreed refused 3 refl
