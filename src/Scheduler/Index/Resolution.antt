-- ===== src/Scheduler/Index/Resolution.antt =====
-- The unique index under the completion hook and the reaper.
use qora.Base.{
  ℕ, ◌≡◌, refl, Bool, true, false, not, Option, none, some, List, [], ◌∷◌, arith, Bool-cases,
  Option-cases, inl, inr, where_rows, ◌==◌, ◌||◌, ltb, count_rows, is_none,
}
use qora.Calls.States.{CallStatus, queued}
use qora.Store.{Session, put_scheduled, update_where}
use qora.Store.Rows.{
  ScheduledCall, QueueStatus, pending, completed, failed, cancelled, is_in_progress,
}
use qora.Scheduler.Queue.{write_status}
use qora.Scheduler.Resolve.{
  find_by_outcome, get_pending_tech_retry_for_lead, telephony_to_scheduled_status,
  cancel_parked_retry, resolve_scheduled_call_for_session,
}
use qora.Scheduler.Reaper.{
  is_stranded_a, is_stranded_b, is_aged_out, release_time, linked_session,
  cas_release_scheduled_call, is_releasable, release_row, reap_class_a, reap_class_b, for_each,
  reap_stranded_scheduled_calls,
}
use qora.Scheduler.Index.Writes.{IsQuiet, index_holds-update}
use qora.Scheduler.Index.Operations.{
  IndexHolds, put-IndexHolds, write_status-IndexHolds, commit-IndexHolds, rollback-IndexHolds,
}

-- no outcome of a call starts one
outcome_starts_none :
    (t : Option CallStatus) (q : QueueStatus)
    → telephony_to_scheduled_status t ≡ some q
    → is_in_progress q ≡ false
unfolding telephony_to_scheduled_status
outcome_starts_none none q e = cc
outcome_starts_none (some queued) q e = ground arith
outcome_starts_none (some _) q e = ground arith

cancel_parked-IndexHolds :
    (sc : ScheduledCall) (q : QueueStatus) (now : ℕ) (s : Session)
    → IndexHolds s
    → IndexHolds (cancel_parked_retry sc q now s)
unfolding cancel_parked_retry
cancel_parked-IndexHolds sc completed now s h =
    elim (Option-cases (get_pending_tech_retry_for_lead sc.client_id sc.lead_id s.view)) [
      | inl e ↦ rw (e, cancel_parked_retry) h
      | inr (r, e) ↦
          rw (e, cancel_parked_retry) (write_status-IndexHolds r.id cancelled now s refl h)
    ]
cancel_parked-IndexHolds sc _ now s h = h

pub resolve-IndexHolds :
    (now session : ℕ) (t : Option CallStatus) (s : Session)
    → IndexHolds s
    → IndexHolds (resolve_scheduled_call_for_session now session t s).1
unfolding resolve_scheduled_call_for_session
resolve-IndexHolds now session t s h = elim (Option-cases (telephony_to_scheduled_status t)) [
  | inl e ↦ rw (e, resolve_scheduled_call_for_session) h
  | inr (q, e) ↦ elim (Option-cases (find_by_outcome session s.view)) [
    | inl e' ↦ rw (e, e', resolve_scheduled_call_for_session) h
    | inr (sc, e') ↦ elim (Bool-cases (is_in_progress sc.status)) [
      | inl running ↦
          rw (e, e', running, resolve_scheduled_call_for_session)
            (cancel_parked-IndexHolds sc q now (write_status sc.id q now s)
              (write_status-IndexHolds sc.id q now s (outcome_starts_none t q e) h))
      | inr done ↦ rw (e, e', done, resolve_scheduled_call_for_session) h
    ]
  ]
]

release_row-IsQuiet :
    (status : QueueStatus) (at : Option ℕ) (now : ℕ)
    → is_in_progress status ≡ false
    → (r : ScheduledCall) → IsQuiet r (release_row status at now r)
release_row-IsQuiet status none now q r = record { lead = refl; starts_none = λ e. cc (q, e) }
release_row-IsQuiet status (some t) now q r = record { lead = refl; starts_none = λ e. cc (q, e) }

release-IndexHolds :
    (sc : ScheduledCall) (b : Bool) (status : QueueStatus) (at : Option ℕ) (now : ℕ) (s : Session)
    → is_in_progress status ≡ false
    → IndexHolds s
    → IndexHolds (cas_release_scheduled_call sc b status at now s).1
unfolding cas_release_scheduled_call
release-IndexHolds sc b status at now s q h =
    let rows =
      update_where (is_releasable b sc) (release_row status at now) s.view.scheduled_calls in
    let e =
      index_holds-update (is_releasable b sc) (release_row status at now)
        (release_row-IsQuiet status at now q) s.view.scheduled_calls h.seen in
    elim (Bool-cases (count_rows (is_releasable b sc) s.view.scheduled_calls == 1)) [
      | inl won ↦ rw won (commit-IndexHolds (put_scheduled rows s) (put-IndexHolds rows s e h))
      | inr lost ↦ rw lost (rollback-IndexHolds s h)
    ]

reap_a-IndexHolds :
    (now : ℕ) (sc : ScheduledCall) (s : Session) → IndexHolds s → IndexHolds (reap_class_a sc now s)
unfolding reap_class_a
reap_a-IndexHolds now sc s h =
    elim (Bool-cases (is_aged_out now sc || not (ltb sc.attempt_number sc.max_attempts))) [
      | inl e ↦ rw e (release-IndexHolds sc true failed none now s refl h)
      | inr e ↦ rw e (release-IndexHolds sc true pending (release_time now sc s.view) now s refl h)
    ]

reap_b-IndexHolds :
    (now : ℕ) (sc : ScheduledCall) (s : Session) → IndexHolds s → IndexHolds (reap_class_b sc now s)
unfolding reap_class_b
reap_b-IndexHolds now sc s h = elim (Option-cases (linked_session sc.outcome_session_id s.view)) [
  | inl e ↦ rw (e, reap_class_b) (release-IndexHolds sc false failed none now s refl h)
  | inr (cs, e) ↦ elim (Bool-cases (is_none (telephony_to_scheduled_status cs.telephony_status))) [
    | inl open_call ↦ rw (e, open_call, reap_class_b) h
    | inr over ↦
        rw (e, over, reap_class_b)
          (commit-IndexHolds _ (resolve-IndexHolds now cs.id cs.telephony_status s h))
  ]
]

for_each-IndexHolds :
    (step : ScheduledCall → Session → Session)
    → ((sc : ScheduledCall) (s : Session) → IndexHolds s → IndexHolds (step sc s))
    → (l : List ScheduledCall) (s : Session) → IndexHolds s
    → IndexHolds (for_each step l s)
for_each-IndexHolds step keep [] s h = h
for_each-IndexHolds step keep (sc ∷ l) s h =
    for_each-IndexHolds step keep l (step sc s) (keep sc s h)

pub reap-IndexHolds :
    (now : ℕ) (s : Session) → IndexHolds s → IndexHolds (reap_stranded_scheduled_calls now s)
unfolding reap_stranded_scheduled_calls
reap-IndexHolds now s h =
    let stranded = where_rows (is_stranded_a now) s.view.scheduled_calls in
    let first = for_each (λ sc. reap_class_a sc now) stranded s in
    for_each-IndexHolds (λ sc. reap_class_b sc now) (reap_b-IndexHolds now)
      (where_rows is_stranded_b first.view.scheduled_calls) first
      (for_each-IndexHolds (λ sc. reap_class_a sc now) (reap_a-IndexHolds now) stranded s h)
