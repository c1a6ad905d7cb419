-- ===== src/Calls/States/Reach.antt =====
-- The state machine that `validate_transition` admits: what can follow what.
use qora.Base.{◌≡◌, refl, subst, ◌≢◌, ◌⊎◌, inl, inr, ◌↔◌, arith, Bool, true, false}
use qora.Calls.States.{
  CallStatus, queued, dialing, ringing, connected, voicemail, completed, no_answer, failed,
  recurrent_error, stale_in_call, permitted, validate_transition,
}

-- A run of permitted transitions.
pub data Reach (s : CallStatus) : CallStatus → Type 0 where
  here : Reach s s
  next : {t u : CallStatus} → Reach s t → validate_transition t u ≡ permitted → Reach s u

-- no transition leaves it
abbrev pub IsTerminal : CallStatus → Type 0
IsTerminal s = (t : CallStatus) → validate_transition s t ≢ permitted

abbrev pub is_final : CallStatus → Bool
is_final completed = true
is_final no_answer = true
is_final recurrent_error = true
is_final stale_in_call = true
is_final _ = false

-- A state is terminal exactly if it is completed, no_answer, recurrent_error or stale_in_call.
pub IsTerminal-iff : (s : CallStatus) → IsTerminal s ↔ (is_final s ≡ true)
unfolding validate_transition
IsTerminal-iff queued = (λ h. absurd (h dialing refl), λ e. cc)
IsTerminal-iff dialing = (λ h. absurd (h ringing refl), λ e. cc)
IsTerminal-iff ringing = (λ h. absurd (h connected refl), λ e. cc)
IsTerminal-iff connected = (λ h. absurd (h voicemail refl), λ e. cc)
IsTerminal-iff voicemail = (λ h. absurd (h completed refl), λ e. cc)
IsTerminal-iff failed = (λ h. absurd (h dialing refl), λ e. cc)
IsTerminal-iff _ = (λ h. refl, λ e t p. cc)

Reach-of_final : {s t : CallStatus} → is_final s ≡ true → Reach s t → t ≡ s
Reach-of_final h here = refl
Reach-of_final {s} h (next {t} {u} r p) = absurd (
    (IsTerminal-iff s).1 h u
      (subst (λ x. validate_transition x u ≡ permitted) (Reach-of_final h r) p))

-- somebody, or a machine, has picked up
abbrev pub IsAnswered : CallStatus → Type 0
IsAnswered s = (s ≡ voicemail) ⊎ (s ≡ completed)

IsAnswered-step :
    (t u : CallStatus)
    → validate_transition t u ≡ permitted
    → IsAnswered u
    → IsAnswered t ⊎ (t ≡ connected)
unfolding validate_transition
IsAnswered-step queued u p h = ground arith
IsAnswered-step _ u p h = ground arith

-- A call that starts unanswered reaches voicemail or completed only through connected, by permitted
-- transitions.
answered-through-connected :
    {s t : CallStatus}
    → Reach s t
    → IsAnswered t
    → ¬ IsAnswered s
    → Reach s connected × Reach connected t
answered-through-connected here h n = absurd (n h)
answered-through-connected {s} (next {t} {u} r p) h n = elim (IsAnswered-step t u p h) [
  | inl before ↦ let (a, b) = answered-through-connected r before n in (a, next b p)
  | inr at ↦
      (subst (Reach s) at r, next here (subst (λ x. validate_transition x u ≡ permitted) at p))
]
