-- ===== src/Outbound/Dial/Persist.antt =====
-- backend/app/outbound/service.py: `_extract_safe_provider_metadata` and
-- `_persist_accepted_call_session`.
use Prim.Native.String.{String}
use package.text.Mathlib.Text.{◌==◌ as str_eq}
use qora.Base.{ℕ, Bool, Option, none, some, List, [], ◌∷◌, ◌&&◌, if◌then◌else◌, any_row, where_rows}
use qora.Calls.States.{dialing, ringing}
use qora.Store.{Session, commit, put_sessions, update_where}
use qora.Store.Rows.{CallSession, Metadata, Scalar, string}
use qora.Outbound.Linkage.{has_status, has_session_id}
use qora.Outbound.Provider.{Strings, get_value}

-- `_SAFE_PROVIDER_METADATA_FIELDS`
abbrev pub safe_provider_metadata_fields : List String
safe_provider_metadata_fields =
    "call_id" ∷ "conversation_id" ∷ "sip_call_id" ∷ "status" ∷ "duration_seconds"
    ∷ "billed_duration_seconds" ∷ "cost" ∷ []

abbrev pub is_safe : String × Scalar → Bool
is_safe (k, v) = any_row (str_eq k) safe_provider_metadata_fields

unfoldable pub extract_safe_provider_metadata : Metadata → Metadata
extract_safe_provider_metadata raw = where_rows is_safe raw

-- `CASE WHEN column IS NULL THEN value ELSE column END`
abbrev pub backfill {ℓ} : {A : Type ℓ} → Option A → Option A → Option A
backfill none value = value
backfill (some a) value = some a

-- the conversation id of the response, where it is a string with a character
abbrev pub conversation_of : Strings → Option Scalar → Option ℕ
conversation_of lib (some (string t)) = if str_eq t "" then none else some (lib.key_of t)
conversation_of lib _ = none

unfoldable pub persisted : Strings → ℕ → Metadata → Bool → CallSession → CallSession
unfolding extract_safe_provider_metadata
persisted lib key body clear r =
    let safe = extract_safe_provider_metadata body in
    let still = has_status r.telephony_status dialing in
    record r {
      telephony_status = if still then some ringing else r.telephony_status;
      provider_call_id = backfill r.provider_call_id (some key);
      provider_metadata = backfill r.provider_metadata (some safe);
      telephony_error = if still && clear then none else r.telephony_error;
      elevenlabs_conversation_id =
          backfill r.elevenlabs_conversation_id
            (conversation_of lib (get_value "conversation_id" safe));
    }

unfoldable pub persist_accepted_call_session : Strings → ℕ → ℕ → Metadata → Bool → Session → Session
unfolding persisted
persist_accepted_call_session lib id key body clear s = commit (
    put_sessions
      (update_where (has_session_id id) (persisted lib key body clear) s.view.call_sessions) s)
