-- ===== src/Scheduler/Resolve/Parked.antt =====
-- About `resolve_scheduled_call_for_session`: Decision 8, the parked technical retry.
use qora.Base.{
  ℕ, suc, ◌≤◌, ◌≡◌, refl, false, Option, none, some, List, [], ◌∷◌, arith, count_rows, where_rows,
  first_row, ◌==◌, Option-cases, inl, inr, ap, subst, sym,
}
use qora.Calls.States.{CallStatus}
use qora.Store.{Session, update_where}
use qora.Store.Updates.{count-update-le, count-zero, first-none}
use qora.Store.Rows.{ScheduledCall, QueueStatus, completed, cancelled, is_pending}
use qora.Scheduler.Queue.{write_status}
use qora.Scheduler.Resolve.{
  telephony_to_scheduled_status, is_pending_tech, get_pending_tech_retry_for_lead,
  cancel_parked_retry, resolve_scheduled_call_for_session,
}
use qora.Scheduler.Resolve.Once.{idle, resolves, resolution}

abbrev pub pending_tech_count : ℕ → ℕ → Session → ℕ
pending_tech_count client lead s = count_rows (is_pending_tech client lead) s.view.scheduled_calls

write-count :
    (client lead key now : ℕ) (q : QueueStatus) (s : Session)
    → is_pending q ≡ false
    → pending_tech_count client lead (write_status key q now s) ≤ pending_tech_count client lead s
write-count client lead key now q s h =
    count-update-le (is_pending_tech client lead) (λ r. r.id == key)
      (λ r. record r { status = q; updated_at = now }) (λ r e. ground arith) s.view.scheduled_calls

-- cancelling the first one found takes it out of the count
cancel-count :
    (client lead now : ℕ) (rows : List ScheduledCall) (r : ScheduledCall)
    → first_row (where_rows (is_pending_tech client lead) rows) ≡ some r
    → suc (
        count_rows (is_pending_tech client lead) (
          update_where
            (λ x. x.id == r.id)
            (λ x. record x { status = cancelled; updated_at = now })
            rows))
      ≤ count_rows (is_pending_tech client lead) rows
cancel-count client lead now [] r e = cc
cancel-count client lead now (x ∷ rows) r e = ground (
  arith,
  cancel-count client lead now rows r,
  count-update-le (is_pending_tech client lead) (λ y. y.id == r.id)
      (λ y. record y { status = cancelled; updated_at = now }) (λ y e'. ground arith) rows,
)

cancel_parked-clears :
    (sc : ScheduledCall) (now : ℕ) (s : Session)
    → pending_tech_count sc.client_id sc.lead_id s ≤ 1
    → pending_tech_count sc.client_id sc.lead_id (cancel_parked_retry sc completed now s) ≡ 0
unfolding cancel_parked_retry
cancel_parked-clears sc now s h =
    elim (Option-cases (get_pending_tech_retry_for_lead sc.client_id sc.lead_id s.view)) [
      | inl e ↦
          rw (e, cancel_parked_retry)
            (first-none (is_pending_tech sc.client_id sc.lead_id) s.view.scheduled_calls
              (unfold get_pending_tech_retry_for_lead in e))
      | inr (r, e) ↦
          rw (e, cancel_parked_retry)
            (omega (
              arith,
              cancel-count sc.client_id sc.lead_id now s.view.scheduled_calls r
                  (unfold get_pending_tech_retry_for_lead in e),
            ))
    ]

resolved-clears :
    (row : ScheduledCall) (q : QueueStatus) (now : ℕ) (s : Session)
    → q ≡ completed
    → pending_tech_count row.client_id row.lead_id s ≤ 1
    → pending_tech_count row.client_id row.lead_id
        (cancel_parked_retry row q now (write_status row.id q now s))
      ≡ 0
resolved-clears row q now s same h = rw same (
    cancel_parked-clears row now (write_status row.id completed now s)
      (omega (arith, h, write-count row.client_id row.lead_id row.id now completed s refl)))

-- A call that ended in a conversation or a voicemail resolves to completed, and afterwards its lead
-- has no pending technical retry, where it had at most one.
completed-clears-retry :
    (now session : ℕ) (t : Option CallStatus) (s : Session) (sc : ScheduledCall)
    → (resolve_scheduled_call_for_session now session t s).0 ≡ some sc
    → telephony_to_scheduled_status t ≡ some completed
    → pending_tech_count sc.client_id sc.lead_id s ≤ 1
    → (sc.status ≡ completed)
      × (get_pending_tech_retry_for_lead sc.client_id sc.lead_id
            (resolve_scheduled_call_for_session now session t s).1.view
          ≡ none)
unfolding get_pending_tech_retry_for_lead
completed-clears-retry now session t s sc h c one = elim (resolution now session t s) [
  | idle e ↦ cc (ap (λ r. r.0) e, h)
  | resolves q row e found running eq ↦
      let same : q ≡ completed = cc (e, c) in
      let row_is : record row { status = q; updated_at = now } ≡ sc = cc (ap (λ r. r.0) eq, h) in
      let clear =
        resolved-clears row q now s same
          (subst (λ x. pending_tech_count x.client_id x.lead_id s ≤ 1) (sym row_is) one) in
      (
        subst (λ x. x.status ≡ completed) row_is same,
        count-zero (is_pending_tech sc.client_id sc.lead_id) _ (
            rw eq (
              subst
                (λ x.
                  pending_tech_count x.client_id x.lead_id
                    (cancel_parked_retry row q now (write_status row.id q now s))
                  ≡ 0)
                row_is clear)),
      )
]
