-- ===== src/Outbound/Sweep.antt =====
-- backend/app/outbound/sweep.py: the sweep of stale sessions, and the reconciliation of sessions
-- with the SIP evidence of the provider.
pub mod Stale
pub mod Reconcile
use Prim.Native.String.{String}
use qora.Base.{
  ℕ, zero, suc, ◌+◌, ◌-◌, ◌*◌, Bool, true, false, Option, none, some, List, [], ◌∷◌, ◌&&◌, ◌||◌,
  leb, ltb, ◌==◌, if◌then◌else◌, where_rows, any_row, take, length, is_none, is_some,
}
use qora.Clock.{second, minute}
use qora.Calls.States.{CallStatus, dialing, ringing, connected, completed, failed, stale_in_call}
use qora.Store.{Session, commit, put_sessions, update_where}
use qora.Store.Rows.{CallSession, sweep, unreconcilable}
use qora.Outbound.Linkage.{has_status, has_session_id}
use qora.Outbound.Sip.{SipMessage, extract_sip_fields}

abbrev pub stale_telephony_threshold_minutes : ℕ
stale_telephony_threshold_minutes = 30

abbrev pub stale_ringing_threshold_minutes : ℕ
stale_ringing_threshold_minutes = 5

abbrev pub is_stale : ℕ → CallSession → Bool
is_stale now r =
    (has_status r.telephony_status ringing
      && ltb (r.started_at + stale_ringing_threshold_minutes * minute) now)
    || ((has_status r.telephony_status dialing || has_status r.telephony_status connected)
        && ltb (r.started_at + stale_telephony_threshold_minutes * minute) now)

-- completed with the evidence of the session-end webhook, else stale_in_call
abbrev pub settle : CallSession → CallSession
settle r = record r {
  telephony_status = some (if r.session_end_received then completed else stale_in_call);
}

unfoldable pub sweep_stale_outbound_sessions : ℕ → Session → ℕ × Session
sweep_stale_outbound_sessions now s =
    let n = length (where_rows (is_stale now) s.view.call_sessions) in
    if n == 0
    then (0, s)
    else (n, commit (put_sessions (update_where (is_stale now) settle s.view.call_sessions) s))

-- `_RECONCILIATION_CANDIDATE_STATUSES`, and the rest of the candidate query
abbrev pub is_candidate : ℕ → CallSession → Bool
is_candidate max_attempts r =
    ((has_status r.telephony_status failed || has_status r.telephony_status stale_in_call)
      || (has_status r.telephony_status completed && is_some r.elevenlabs_conversation_id))
    && (is_none r.reconciled_at && ltb r.reconciliation_attempts max_attempts)

abbrev pub insert_oldest : CallSession → List CallSession → List CallSession
insert_oldest r [] = r ∷ []
insert_oldest r (x ∷ xs) =
    if leb r.started_at x.started_at then r ∷ x ∷ xs else x ∷ insert_oldest r xs

abbrev pub oldest_first : List CallSession → List CallSession
oldest_first [] = []
oldest_first (r ∷ rows) = insert_oldest r (oldest_first rows)

-- One conversation of the provider's list; its start is an instant.
pub record Conversation : Type 0 where
  pub conversation_id : ℕ
  pub start_time : Option ℕ
  pub status : Option String
  pub call_successful : Option String

pub record SipResponse : Type 0 where
  pub sip_messages : List SipMessage
  pub has_more : Bool
  pub has_next_cursor : Bool

-- `ElevenLabsService`: the provider's answers; `none` is an exception.
pub record ElevenLabsService : Type 0 where
  pub list_recent_conversations : ℕ → Option (List Conversation)
  pub get_sip_messages : ℕ → Option SipResponse

-- `abs(start - started_at) <= 60`
abbrev pub starts_near : ℕ → Conversation → Bool
starts_near at c = elim c.start_time [
  | none ↦ false
  | some t ↦ leb (t - at) (60 * second) && leb (at - t) (60 * second)
]

-- Reconciling one session: it raises, it writes nothing, or it has the messages to write.
pub data Attempt : Type 0 where
  raises : Attempt
  nothing : Attempt
  evidence : List SipMessage → Attempt

abbrev pub of_response : Option SipResponse → Attempt
of_response none = raises
of_response (some r) =
    if r.has_more || r.has_next_cursor
    then nothing
    else elim r.sip_messages [ [] ↦ nothing | m ∷ ms ↦ evidence (m ∷ ms) ]

-- exactly one match, else nothing
abbrev pub of_matches : ElevenLabsService → List Conversation → Attempt
of_matches service [] = nothing
of_matches service (c ∷ []) = of_response (service.get_sip_messages c.conversation_id)
of_matches service (c ∷ d ∷ l) = nothing

abbrev pub of_list : ElevenLabsService → ℕ → Option (List Conversation) → Attempt
of_list service at none = raises
of_list service at (some l) = of_matches service (where_rows (starts_near at) l)

-- the lookup by agent and time, where no conversation is stored
abbrev pub of_agent : ElevenLabsService → ℕ → Option ℕ → Attempt
of_agent service at none = nothing
of_agent service at (some agent) = of_list service at (service.list_recent_conversations agent)

abbrev pub of_conversation : ElevenLabsService → CallSession → Option ℕ → Attempt
of_conversation service cs none = of_agent service cs.started_at cs.agent_id
of_conversation service cs (some c) = of_response (service.get_sip_messages c)

-- what `_reconcile_one_session` finds
abbrev pub look_up : ElevenLabsService → CallSession → Attempt
look_up service cs = of_conversation service cs cs.elevenlabs_conversation_id

-- what it writes, and what the `except` block of its caller writes
unfoldable pub reconciled : ℕ → ℕ → Attempt → CallSession → CallSession
unfolding extract_sip_fields
reconciled now max_attempts nothing r = r
reconciled now max_attempts (evidence messages) r =
    let f = extract_sip_fields messages in
    record r {
      sip_call_id = f.sip_call_id;
      sip_status_code = f.sip_status_code;
      sip_reason = f.sip_reason;
      reconciled_at = some now;
      reconciliation_source = some sweep;
    }
reconciled now max_attempts raises r =
    let counted = record r { reconciliation_attempts = r.reconciliation_attempts + 1 } in
    if leb max_attempts (r.reconciliation_attempts + 1)
    then record counted { reconciled_at = some now; reconciliation_source = some unreconcilable }
    else counted

abbrev pub is_evidence : Attempt → Bool
is_evidence (evidence _) = true
is_evidence _ = false

-- the loop over the candidates: how many were reconciled
unfoldable pub reconcile_each :
    ElevenLabsService → ℕ → ℕ → List CallSession → List CallSession → ℕ × List CallSession
unfolding reconciled
reconcile_each service now max_attempts [] rows = (0, rows)
reconcile_each service now max_attempts (cs ∷ rest) rows =
    let a = look_up service cs in
    let (n, rows') =
      reconcile_each service now max_attempts rest
        (update_where (has_session_id cs.id) (reconciled now max_attempts a) rows) in
    (if is_evidence a then suc n else n, rows')

abbrev pub writes : Attempt → Bool
writes nothing = false
writes _ = true

-- committed where some candidate was written
unfoldable pub reconcile_unreconciled_sessions :
    ElevenLabsService → ℕ → ℕ → ℕ → Session → ℕ × Session
unfolding reconcile_each
reconcile_unreconciled_sessions service now cap max_attempts s =
    let candidates =
      take cap (oldest_first (where_rows (is_candidate max_attempts) s.view.call_sessions)) in
    let (n, rows) = reconcile_each service now max_attempts candidates s.view.call_sessions in
    let s' = put_sessions rows s in
    (n, if any_row (λ cs. writes (look_up service cs)) candidates then commit s' else s')
