-- ===== src/Scheduler/Resolve/Once.antt =====
-- About `resolve_scheduled_call_for_session`: the signals of one session.
use qora.Base.{
  ℕ, ◌≡◌, refl, Bool, true, false, not, Option, none, some, arith, ◌==◌, holds_key, if◌then◌else◌,
  Option-cases, Bool-cases, inl, inr, subst, ap,
}
use qora.Calls.States.{CallStatus}
use qora.Store.{Session}
use qora.Store.Updates.{map_row, first-update}
use qora.Store.Rows.{ScheduledCall, QueueStatus, completed, cancelled, is_in_progress}
use qora.Scheduler.Queue.{write_status}
use qora.Scheduler.Resolve.{
  telephony_to_scheduled_status, find_by_outcome, get_pending_tech_retry_for_lead,
  cancel_parked_retry, resolve_scheduled_call_for_session,
}

-- no row is linked to the session, or the linked one is over
abbrev pub is_over : Option ScheduledCall → Bool
is_over none = true
is_over (some sc) = not (is_in_progress sc.status)

find-write :
    (session key now : ℕ) (q : QueueStatus) (s : Session)
    → find_by_outcome session (write_status key q now s).view
      ≡ map_row
          (λ r. if r.id == key then record r { status = q; updated_at = now } else r)
          (find_by_outcome session s.view)
find-write session key now q s =
    first-update (λ r. holds_key r.outcome_session_id session) (λ r. r.id == key)
      (λ r. record r { status = q; updated_at = now }) (λ r. refl) s.view.scheduled_calls

cancel_parked-is_over :
    (session : ℕ) (sc : ScheduledCall) (q : QueueStatus) (now : ℕ) (s : Session)
    → is_over (find_by_outcome session s.view) ≡ true
    → is_over (find_by_outcome session (cancel_parked_retry sc q now s).view) ≡ true
unfolding cancel_parked_retry
cancel_parked-is_over session sc completed now s h =
    elim (Option-cases (get_pending_tech_retry_for_lead sc.client_id sc.lead_id s.view)) [
      | inl e ↦ rw (e, cancel_parked_retry) h
      | inr (r, e) ↦
          rw (e, cancel_parked_retry) (rw (find-write session r.id now cancelled s) (ground arith))
    ]
cancel_parked-is_over session sc _ now s h = h

outcome_is_over :
    (t : Option CallStatus) (q : QueueStatus)
    → telephony_to_scheduled_status t ≡ some q
    → is_in_progress q ≡ false
unfolding telephony_to_scheduled_status
outcome_is_over none q e = cc
outcome_is_over (some CallStatus.queued) q e = ground arith
outcome_is_over (some _) q e = ground arith

over_running : (sc : ScheduledCall) → is_in_progress sc.status ≡ true → is_over (some sc) ≡ true → ⊥
over_running sc a b = ground arith

-- What a signal can do: nothing, or one resolution with the mapped status.
pub data Resolution (now session : ℕ) (t : Option CallStatus) (s : Session)
    (result : Option ScheduledCall × Session) : Type 0 where
  idle : result ≡ (none, s) → Resolution now session t s result
  resolves :
      (q : QueueStatus) (sc : ScheduledCall)
      → telephony_to_scheduled_status t ≡ some q
      → find_by_outcome session s.view ≡ some sc
      → is_in_progress sc.status ≡ true
      → result ≡ (
        some (record sc { status = q; updated_at = now }),
        cancel_parked_retry sc q now (write_status sc.id q now s),
      )
      → Resolution now session t s result

pub resolution :
    (now session : ℕ) (t : Option CallStatus) (s : Session)
    → Resolution now session t s (resolve_scheduled_call_for_session now session t s)
unfolding resolve_scheduled_call_for_session
resolution now session t s = elim (Option-cases (telephony_to_scheduled_status t)) [
  | inl e ↦ idle (rw (e, resolve_scheduled_call_for_session))
  | inr (q, e) ↦ elim (Option-cases (find_by_outcome session s.view)) [
    | inl e' ↦ idle (rw (e, e', resolve_scheduled_call_for_session))
    | inr (sc, e') ↦ elim (Bool-cases (is_in_progress sc.status)) [
      | inl running ↦
          resolves q sc e e' running (rw (e, e', running, resolve_scheduled_call_for_session))
      | inr done ↦ idle (rw (e, e', done, resolve_scheduled_call_for_session))
    ]
  ]
]

resolve_idle :
    (now session : ℕ) (t : Option CallStatus) (s : Session)
    → is_over (find_by_outcome session s.view) ≡ true
    → resolve_scheduled_call_for_session now session t s ≡ (none, s)
resolve_idle now session t s h = elim (resolution now session t s) [
  | idle e ↦ e
  | resolves q sc e found running _ ↦
      absurd (over_running sc running (subst (λ o. is_over o ≡ true) found h))
]

resolve-is_over :
    (now session : ℕ) (t : Option CallStatus) (s : Session) (sc : ScheduledCall)
    → (resolve_scheduled_call_for_session now session t s).0 ≡ some sc
    → is_over (find_by_outcome session (resolve_scheduled_call_for_session now session t s).1.view)
      ≡ true
resolve-is_over now session t s sc h = elim (resolution now session t s) [
  | idle e ↦ cc (ap (λ r. r.0) e, h)
  | resolves q row e found running eq ↦ rw eq (
      cancel_parked-is_over session row q now (write_status row.id q now s)
        (rw (find-write session row.id now q s, found) (ground (arith, outcome_is_over t q e))))
]

-- Once a session has resolved a row, a second signal for it, whatever its status, changes nothing.
pub resolve_once :
    (now session : ℕ) (t : Option CallStatus) (s : Session) (sc : ScheduledCall) (later : ℕ)
    (t' : Option CallStatus)
    → (resolve_scheduled_call_for_session now session t s).0 ≡ some sc
    → let s' = (resolve_scheduled_call_for_session now session t s).1 in
      resolve_scheduled_call_for_session later session t' s' ≡ (none, s')
resolve_once now session t s sc later t' h =
    resolve_idle later session t' (resolve_scheduled_call_for_session now session t s).1
      (resolve-is_over now session t s sc h)
