-- ===== src/Outbound/Dial/Order.antt =====
-- The response of the provider and the webhook of the conversation, on one session of
-- backend/app/outbound/service.py and backend/app/outbound/linkage.py.
use qora.Base.{
  ℕ, ◌≡◌, refl, sym, Bool, Option, none, some, ◌&&◌, if◌then◌else◌, Bool-cases, inl, inr,
}
use qora.Calls.States.{dialing}
use qora.Store.Rows.{CallSession, Metadata}
use qora.Outbound.Linkage.{has_status, mark_linked, or_set}
use qora.Outbound.Provider.{Strings, get_value}
use qora.Outbound.Dial.Persist.{
  backfill, conversation_of, extract_safe_provider_metadata, persisted,
}

backfill-or_set :
    (o : Option ℕ) (k : ℕ) → backfill (or_set o k) (some k) ≡ or_set (backfill o (some k)) k
backfill-or_set none k = refl
backfill-or_set (some c) k = refl

-- The accepted response of the provider and the webhook of the same conversation leave a dialing
-- session without an error in the same state, whichever of the two is written first.
pub persisted-mark_linked :
    (lib : Strings) (key conversation : ℕ) (body : Metadata) (clear : Bool) (r : CallSession)
    → r.telephony_status ≡ some dialing
    → r.telephony_error ≡ none
    → conversation_of lib (get_value "conversation_id" (extract_safe_provider_metadata body))
      ≡ some conversation
    → persisted lib key body clear (mark_linked conversation r)
      ≡ mark_linked conversation (persisted lib key body clear r)
unfolding persisted
persisted-mark_linked lib key conversation body clear r e f g =
    let still : (if has_status r.telephony_status dialing && clear then none else r.telephony_error)
        ≡ r.telephony_error =
      elim (Bool-cases (has_status r.telephony_status dialing && clear)) [
        | inl s ↦ rw s (sym f)
        | inr s ↦ rw s refl
      ] in
    let first = backfill-or_set r.elevenlabs_conversation_id conversation in
    rw (g, still, first) refl
