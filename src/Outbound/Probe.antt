-- ===== src/Outbound/Probe.antt =====
-- backend/app/outbound/probe.py: the probe in the background after a dial.
pub mod Kept
use Prim.Native.String.{String}
use text.Mathlib.Text.{◌==◌ as str_eq}
use qora.Base.{
  ℕ, Bool, true, false, Option, none, some, List, [], ◌∷◌, ◌&&◌, ◌||◌, not, leb, ◌==◌,
  if◌then◌else◌, where_rows, count_rows, is_some,
}
use qora.Calls.States.{CallStatus, dialing, ringing, failed}
use qora.Store.{Db, Session, commit, put_sessions, update_where, get_session}
use qora.Store.Rows.{CallSession, sip_routing_error, probe}
use qora.Outbound.Linkage.{has_status, has_session_id}
use qora.Outbound.Sip.{SipMessage, extract_sip_fields}
use qora.Outbound.Sweep.{
  Conversation, ElevenLabsService, Attempt, raises, nothing, evidence, of_response, starts_near,
}
use qora.Outbound.Dial.{meanwhile}

-- the provider's answers, with the detail of one conversation, and Python's `str.lower`
pub record ProbeLibrary : Type 0 where
  pub service : ElevenLabsService
  pub get_conversation_detail : ℕ → Option Conversation
  pub lower : String → String

-- `matches[0]`, where there is one match
abbrev sole_match : List Conversation → Option Conversation
sole_match [] = none
sole_match (c ∷ []) = some c
sole_match (c ∷ d ∷ l) = none

unfoldable pub find_best_match : List Conversation → ℕ → Option Conversation
find_best_match conversations at = sole_match (where_rows (starts_near at) conversations)

abbrev match_in : Option (List Conversation) → ℕ → Option Conversation
unfolding find_best_match
match_in none at = none
match_in (some l) at = find_best_match l at

-- the conversation of the session: the stored one, or the match by time
unfoldable pub resolve_conversation : ProbeLibrary → ℕ → CallSession → Option Conversation
unfolding match_in
resolve_conversation lib agent cs = elim cs.elevenlabs_conversation_id [
  | some c ↦ lib.get_conversation_detail c
  | none ↦ match_in (lib.service.list_recent_conversations agent) cs.started_at
]

abbrev or_empty : Option String → String
or_empty none = ""
or_empty (some t) = t

abbrev is_failure_status : String → Bool
is_failure_status t = str_eq t "failed" || (str_eq t "done" || str_eq t "ended")

abbrev is_successful : String → Bool
is_successful t = str_eq t "success" || str_eq t "true"

unfoldable pub is_sip_routing_failure : ProbeLibrary → Conversation → Option ℕ → Bool
is_sip_routing_failure lib conv none = false
is_sip_routing_failure lib conv (some code) =
    leb 400 code
    && (is_failure_status (lib.lower (or_empty conv.status))
        && not (is_successful (lib.lower (or_empty conv.call_successful))))

-- the evidence, without a change of state
abbrev pub with_evidence : ℕ → List SipMessage → CallSession → CallSession
unfolding extract_sip_fields
with_evidence now messages r =
    let f = extract_sip_fields messages in
    record r {
      sip_call_id = f.sip_call_id;
      sip_status_code = f.sip_status_code;
      sip_reason = f.sip_reason;
      reconciled_at = some now;
      reconciliation_source = some probe;
    }

abbrev pub mark_routing_failure : ℕ → List SipMessage → CallSession → CallSession
unfolding with_evidence
mark_routing_failure now messages r = record (with_evidence now messages r) {
  telephony_status = some failed;
  outcome_reason = some sip_routing_error;
}

-- the predicate of the conditional UPDATE
abbrev pub is_unanswered : ℕ → CallSession → Bool
is_unanswered key r =
    r.id == key && (has_status r.telephony_status dialing || has_status r.telephony_status ringing)

-- what is written for the messages; an UPDATE of no row is not committed
unfoldable pub write_evidence :
    ProbeLibrary → ℕ → ℕ → Conversation → List SipMessage → Session → Session
unfolding extract_sip_fields is_sip_routing_failure with_evidence mark_routing_failure
write_evidence lib now key conv messages s =
    if is_sip_routing_failure lib conv (extract_sip_fields messages).sip_status_code
    then (if count_rows (is_unanswered key) s.view.call_sessions == 1
        then commit (
            put_sessions
              (update_where (is_unanswered key) (mark_routing_failure now messages)
                s.view.call_sessions)
              s)
        else s)
    else commit (
        put_sessions
          (update_where (has_session_id key) (with_evidence now messages) s.view.call_sessions) s)

abbrev pub after_messages :
    ProbeLibrary → ℕ → ℕ → (Db → Db) → Conversation → Attempt → Session → Session
unfolding write_evidence
after_messages lib now key during conv raises s = s
after_messages lib now key during conv nothing s = s
after_messages lib now key during conv (evidence messages) s =
    write_evidence lib now key conv messages (meanwhile during s)

-- `_run_probe`; `during` is what other sessions commit while the provider is asked
unfoldable pub run_probe : ProbeLibrary → ℕ → ℕ → ℕ → (Db → Db) → Session → Session
unfolding resolve_conversation after_messages
run_probe lib now key agent during s = elim (get_session key s.view) [
  | none ↦ s
  | some cs ↦ if is_some cs.reconciled_at then s else elim (resolve_conversation lib agent cs) [
    | none ↦ s
    | some conv ↦
        after_messages lib now key during conv
          (of_response (lib.service.get_sip_messages conv.conversation_id)) s
  ]
]
