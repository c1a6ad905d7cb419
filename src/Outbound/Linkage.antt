-- ===== src/Outbound/Linkage.antt =====
-- backend/app/outbound/linkage.py: the webhook that ends a conversation, and the session-end hook.
pub mod Rows
pub mod Lookup
pub mod Again
pub mod Sound
use qora.Base.{
  ℕ, ◌+◌, ◌*◌, Bool, true, false, Option, none, some, List, [], ◌∷◌, ◌&&◌, leb, ltb, ◌==◌,
  if◌then◌else◌, where_rows, first_row, is_none, is_some, holds_key,
}
use qora.Clock.{minute}
use qora.Calls.States.{
  CallStatus, queued, dialing, ringing, connected, voicemail, completed, no_answer, failed,
  recurrent_error, stale_in_call, status_eq,
}
use qora.Store.{Db, Session, commit, put_sessions, update_where}
use qora.Store.Rows.{CallSession}

-- `cs.telephony_status == status`; NULL equals nothing
abbrev pub has_status : Option CallStatus → CallStatus → Bool
has_status none status = false
has_status (some t) status = status_eq t status

-- the optional `WHERE client_id = ...`
abbrev pub in_tenant : Option ℕ → CallSession → Bool
in_tenant none r = true
in_tenant (some client) r = r.client_id == client

abbrev pub is_conversation : ℕ → Option ℕ → CallSession → Bool
is_conversation conversation client r =
    holds_key r.elevenlabs_conversation_id conversation
    && (is_some r.telephony_status && in_tenant client r)

unfoldable pub find_by_conversation_id : ℕ → Option ℕ → Db → Option CallSession
find_by_conversation_id conversation client db =
    first_row (where_rows (is_conversation conversation client) db.call_sessions)

abbrev pub is_provider_call : ℕ → Option ℕ → CallSession → Bool
is_provider_call provider client r =
    holds_key r.provider_call_id provider && (is_some r.telephony_status && in_tenant client r)

unfoldable pub find_by_provider_call_id : ℕ → Option ℕ → Db → Option CallSession
find_by_provider_call_id provider client db =
    first_row (where_rows (is_provider_call provider client) db.call_sessions)

-- `_ORPHAN_STATUSES`
abbrev pub is_orphan_status : Option CallStatus → Bool
is_orphan_status none = false
is_orphan_status (some queued) = false
is_orphan_status (some voicemail) = false
is_orphan_status (some completed) = false
is_orphan_status (some recurrent_error) = false
is_orphan_status (some _) = true

abbrev pub is_orphan : ℕ → ℕ → ℕ → CallSession → Bool
is_orphan now client lead r =
    r.client_id == client
    && (holds_key r.lead_id lead
        && (is_orphan_status r.telephony_status
            && (is_none r.elevenlabs_conversation_id && leb now (r.started_at + 10 * minute))))

-- `ORDER BY started_at DESC LIMIT 1`, the first in table order among equals
abbrev pub latest : List CallSession → Option CallSession
latest [] = none
latest (r ∷ rows) = elim (latest rows) [
  | none ↦ some r
  | some later ↦ if ltb r.started_at later.started_at then some later else some r
]

unfoldable pub find_orphan_outbound_session : ℕ → ℕ → ℕ → Db → Option CallSession
find_orphan_outbound_session now client lead db =
    latest (where_rows (is_orphan now client lead) db.call_sessions)

-- `if cs is None: cs = ...`
abbrev pub or_find : Option CallSession → Option CallSession → Option CallSession
or_find none m = m
or_find (some r) m = some r

abbrev pub by_provider : Option ℕ → Option ℕ → Db → Option CallSession
by_provider none client db = none
by_provider (some provider) client db = find_by_provider_call_id provider client db

abbrev pub by_lead : ℕ → Option ℕ → Option ℕ → Db → Option CallSession
by_lead now (some client) (some lead) db = find_orphan_outbound_session now client lead db
by_lead now _ _ db = none

-- the three lookups
unfoldable pub find_session : ℕ → ℕ → Option ℕ → Option ℕ → Option ℕ → Db → Option CallSession
unfolding find_by_conversation_id find_by_provider_call_id find_orphan_outbound_session
find_session now conversation provider client lead db =
    or_find (find_by_conversation_id conversation client db)
      (or_find (by_provider provider client db) (by_lead now client lead db))

-- `if cs.elevenlabs_conversation_id is None: ...`
abbrev pub or_set : Option ℕ → ℕ → Option ℕ
or_set none conversation = some conversation
or_set (some c) conversation = some c

-- the evidence that the webhook writes; the step through `connected` is overwritten before a flush
abbrev pub mark_linked : ℕ → CallSession → CallSession
mark_linked conversation r = record r {
  elevenlabs_conversation_id = or_set r.elevenlabs_conversation_id conversation;
  telephony_status = some completed;
  session_end_received = true;
}

abbrev pub has_session_id : ℕ → CallSession → Bool
has_session_id key r = r.id == key

abbrev pub link_found : ℕ → CallSession → Session → Option CallSession × Session
link_found conversation cs s = if has_status cs.telephony_status completed then (some cs, s) else (
  some (mark_linked conversation cs),
  commit (
      put_sessions
        (update_where (has_session_id cs.id) (mark_linked conversation) s.view.call_sessions) s),
)

unfoldable pub link_outbound_session_by_webhook :
    (now conversation : ℕ)
    → (provider client lead : Option ℕ) → Session
    → Option CallSession × Session
unfolding find_session
link_outbound_session_by_webhook now conversation provider client lead s =
    elim (find_session now conversation provider client lead s.view) [
      | none ↦ (none, s)
      | some cs ↦ link_found conversation cs s
    ]

-- `_TERMINAL_NO_CONVERSATION_STATUSES`
abbrev pub is_no_conversation : CallStatus → Bool
is_no_conversation no_answer = true
is_no_conversation recurrent_error = true
is_no_conversation _ = false

abbrev pub ended : CallSession → Option CallStatus → CallSession
ended cs none = cs
ended cs (some t) =
    if is_no_conversation t
    then record cs { session_end_received = true }
    else record cs { session_end_received = true; telephony_status = some completed }

unfoldable pub update_telephony_status_on_session_end : CallSession → CallSession
update_telephony_status_on_session_end cs = ended cs cs.telephony_status
