-- ===== src/Outbound/Probe/Kept.antt =====
-- The rows that the probe of backend/app/outbound/probe.py writes.
use qora.Base.{
  ℕ, ◌≡◌, refl, Bool, true, false, some, List, [], ◌∷◌, ◌&&◌, ◌||◌, ◌==◌, ◌⊎◌, inl, inr, eqb→eq,
  Bool-cases, Option-cases, is_some, count_rows,
}
use qora.Calls.States.{dialing, ringing, failed}
use qora.Store.{Db, Session, update_where, get_session}
use qora.Store.Rows.{CallSession, sip_routing_error}
use qora.Outbound.Linkage.{has_status, has_session_id}
use qora.Outbound.Sip.{SipMessage, extract_sip_fields}
use qora.Outbound.Sweep.{Conversation, Attempt, raises, nothing, evidence, of_response}
use qora.Outbound.Probe.{
  ProbeLibrary, resolve_conversation, is_sip_routing_failure, with_evidence, mark_routing_failure,
  is_unanswered, write_evidence, after_messages, run_probe,
}

and-true : (a b : Bool) → (a && b) ≡ true → (a ≡ true) × (b ≡ true)
and-true true b h = (refl, h)
and-true false b h = cc

-- the call was not answered yet
abbrev waits : CallSession → Bool
waits r = has_status r.telephony_status dialing || has_status r.telephony_status ringing

-- An untouched row; or the probed one, with its key, its webhook evidence and its status, or with a
-- routing failure where it was dialing or ringing.
unfoldable pub IsProbed : ℕ → CallSession → CallSession → Type 0
IsProbed key r r' =
    (r' ≡ r)
    ⊎ ((r.id ≡ key)
        × (r'.id ≡ r.id)
        × (r'.session_end_received ≡ r.session_end_received)
        × ((r'.telephony_status ≡ r.telephony_status)
            ⊎ ((waits r ≡ true)
                × (r'.telephony_status ≡ some failed)
                × (r'.outcome_reason ≡ some sip_routing_error))))

-- row by row
unfoldable pub AreProbed : ℕ → List CallSession → List CallSession → Type 0
AreProbed key [] [] = Unit
AreProbed key [] (r' ∷ rows') = ⊥
AreProbed key (r ∷ rows) [] = ⊥
AreProbed key (r ∷ rows) (r' ∷ rows') = IsProbed key r r' × AreProbed key rows rows'

AreProbed-refl : (key : ℕ) (rows : List CallSession) → AreProbed key rows rows
unfolding AreProbed IsProbed
AreProbed-refl key [] = tt
AreProbed-refl key (r ∷ rows) = (inl refl, AreProbed-refl key rows)

update-AreProbed :
    (key : ℕ) (q : CallSession → Bool) (f : CallSession → CallSession)
    → ((r : CallSession) → q r ≡ true → IsProbed key r (f r))
    → (rows : List CallSession) → AreProbed key rows (update_where q f rows)
unfolding AreProbed IsProbed
update-AreProbed key q f h [] = tt
update-AreProbed key q f h (r ∷ rows) = elim (Bool-cases (q r)) [
  | inl e ↦ rw e (h r e, update-AreProbed key q f h rows)
  | inr e ↦ rw e (inl refl, update-AreProbed key q f h rows)
]

evidence-IsProbed :
    (now key : ℕ) (messages : List SipMessage) (r : CallSession)
    → has_session_id key r ≡ true
    → IsProbed key r (with_evidence now messages r)
unfolding IsProbed with_evidence
evidence-IsProbed now key messages r h = inr (eqb→eq r.id key h, refl, refl, inl refl)

failure-IsProbed :
    (now key : ℕ) (messages : List SipMessage) (r : CallSession)
    → is_unanswered key r ≡ true
    → IsProbed key r (mark_routing_failure now messages r)
unfolding IsProbed with_evidence mark_routing_failure
failure-IsProbed now key messages r h =
    let (mine, waiting) = and-true (r.id == key) (waits r) h in
    inr (eqb→eq r.id key mine, refl, refl, inr (waiting, refl, refl))

write-AreProbed :
    (lib : ProbeLibrary) (now key : ℕ) (conv : Conversation) (messages : List SipMessage) (db : Db)
    → AreProbed key db.call_sessions
        (write_evidence lib now key conv messages
          (record { view = db; durable = db })).durable.call_sessions
unfolding write_evidence
write-AreProbed lib now key conv messages db =
    elim (Bool-cases
      (is_sip_routing_failure lib conv (extract_sip_fields messages).sip_status_code)) [
        | inl e ↦ elim (Bool-cases (count_rows (is_unanswered key) db.call_sessions == 1)) [
          | inl f ↦
              rw (e, f, write_evidence)
                (update-AreProbed key (is_unanswered key) (mark_routing_failure now messages)
                  (failure-IsProbed now key messages) db.call_sessions)
          | inr f ↦ rw (e, f, write_evidence) (AreProbed-refl key db.call_sessions)
        ]
        | inr e ↦
            rw (e, write_evidence)
              (update-AreProbed key (has_session_id key) (with_evidence now messages)
                (evidence-IsProbed now key messages) db.call_sessions)
      ]

-- nothing is written, or the probe's row is, on what was committed meanwhile
abbrev Ends : ℕ → (Db → Db) → Session → Session → Type 0
Ends key during s t =
    (t ≡ s) ⊎ AreProbed key (during s.durable).call_sessions t.durable.call_sessions

messages-Ends :
    (lib : ProbeLibrary) (now key : ℕ) (during : Db → Db) (conv : Conversation) (a : Attempt)
    (s : Session)
    → Ends key during s (after_messages lib now key during conv a s)
unfolding after_messages
messages-Ends lib now key during conv raises s = inl refl
messages-Ends lib now key during conv nothing s = inl refl
messages-Ends lib now key during conv (evidence messages) s =
    inr (write-AreProbed lib now key conv messages (during s.durable))

-- Whatever the provider answers and whatever other sessions commit meanwhile, a probe changes
-- nothing, or leaves every call session as it was committed except its own, whose webhook evidence
-- it keeps, and whose status it changes only from dialing or ringing, to failed for a routing
-- error.
pub run_probe-AreProbed :
    (lib : ProbeLibrary) (now key agent : ℕ) (during : Db → Db) (s : Session)
    → (run_probe lib now key agent during s ≡ s)
      ⊎ AreProbed key
          (during s.durable).call_sessions
          (run_probe lib now key agent during s).durable.call_sessions
unfolding run_probe
run_probe-AreProbed lib now key agent during s = elim (Option-cases (get_session key s.view)) [
  | inl e ↦ rw (e, run_probe) (inl refl)
  | inr (cs, e) ↦ elim (Bool-cases (is_some cs.reconciled_at)) [
    | inl f ↦ rw (e, f, run_probe) (inl refl)
    | inr f ↦ elim (Option-cases (resolve_conversation lib agent cs)) [
      | inl g ↦ rw (e, f, g, run_probe) (inl refl)
      | inr (conv, g) ↦
          rw (e, f, g, run_probe)
            (messages-Ends lib now key during conv
              (of_response (lib.service.get_sip_messages conv.conversation_id)) s)
    ]
  ]
]
