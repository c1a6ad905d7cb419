-- ===== src/Scheduler/Index/Operations.antt =====
-- The unique index under the queue's own operations, the schedulers and the claims.
use qora.Base.{
  ℕ, ◌≡◌, refl, true, false, Option, List, [], ◌∷◌, ◌++◌, ◌∙◌, arith, Bool-cases, Option-cases, inl,
  inr, where_rows, ◌==◌, ltb, count_rows,
}
use qora.Clock.{Zone}
use qora.Store.{Session, commit, rollback, put_scheduled, update_where}
use qora.Store.Rows.{ScheduledCall, QueueStatus, completed, cancelled, is_in_progress}
use qora.Scheduler.Queue.{
  write_status, cancel_scheduled_call, reschedule_call, complete_scheduled_call,
}
use qora.Scheduler.Policy.{Library, Facts}
use qora.Scheduler.Rules.{
  is_active_tech_row, auto_schedule, auto_schedule_plan, schedule_tech_retry, tech_retry_plan,
}
use qora.Scheduler.Claim.{
  index_holds, is_due, due_candidates, claim_row, claim_one, claim_each, claim_due_scheduled_calls,
  promote_each, mark_due_calls_in_progress,
}
use qora.Scheduler.Index.Writes.{index_holds-update, index_holds-append}

-- The index holds of what the session sees and of what is on disk.
pub record IndexHolds (s : Session) : Type 0 where
  pub seen : index_holds s.view.scheduled_calls ≡ true
  pub kept : index_holds s.durable.scheduled_calls ≡ true

pub put-IndexHolds :
    (rows : List ScheduledCall) (s : Session)
    → index_holds rows ≡ true
    → IndexHolds s
    → IndexHolds (put_scheduled rows s)
put-IndexHolds rows s e h = record { seen = e; kept = h.kept }

pub commit-IndexHolds : (s : Session) → IndexHolds s → IndexHolds (commit s)
commit-IndexHolds s h = record { seen = h.seen; kept = h.seen }

pub rollback-IndexHolds : (s : Session) → IndexHolds s → IndexHolds (rollback s)
rollback-IndexHolds s h = record { seen = h.kept; kept = h.kept }

pub write_status-IndexHolds :
    (key : ℕ) (status : QueueStatus) (now : ℕ) (s : Session)
    → is_in_progress status ≡ false
    → IndexHolds s
    → IndexHolds (write_status key status now s)
write_status-IndexHolds key status now s q h =
    put-IndexHolds _ s
      (index_holds-update (λ r. r.id == key) (λ r. record r { status = status; updated_at = now })
        (λ r. record { lead = refl; starts_none = λ e. cc (q, e) }) s.view.scheduled_calls h.seen)
      h

create-IndexHolds :
    (sc : ScheduledCall) (s : Session)
    → is_in_progress sc.status ≡ false
    → IndexHolds s
    → IndexHolds (put_scheduled (s.view.scheduled_calls ++ sc ∷ []) s)
create-IndexHolds sc s q h =
    put-IndexHolds _ s (index_holds-append s.view.scheduled_calls sc q ∙ h.seen) h

pub cancel-IndexHolds :
    (now key : ℕ) (s : Session) → IndexHolds s → IndexHolds (cancel_scheduled_call now key s).1
unfolding cancel_scheduled_call
cancel-IndexHolds now key s h = ground (arith, write_status-IndexHolds key cancelled now s refl h)

pub complete-IndexHolds :
    (now key : ℕ) (s : Session) → IndexHolds s → IndexHolds (complete_scheduled_call now key s).1
unfolding complete_scheduled_call
complete-IndexHolds now key s h = ground (arith, write_status-IndexHolds key completed now s refl h)

pub reschedule-IndexHolds :
    (now key at start end : ℕ) (z : Zone) (s : Session)
    → IndexHolds s
    → IndexHolds (reschedule_call now key at start end z s).1
unfolding reschedule_call
reschedule-IndexHolds now key at start end z s h = ground (
  arith,
  index_holds-update (λ r. r.id == key) (λ r. record r { scheduled_at = at; updated_at = now })
      (λ r. record { lead = refl; starts_none = λ e. e }) s.view.scheduled_calls h.seen,
)

pub auto_schedule-IndexHolds :
    (lib : Library) (now new_id session lead client : ℕ) (f : Facts) (agent : Option ℕ)
    (s : Session)
    → IndexHolds s
    → IndexHolds (auto_schedule lib now new_id session lead client f agent s).1
unfolding auto_schedule
auto_schedule-IndexHolds lib now new_id session lead client f agent s h =
    elim (Option-cases (auto_schedule_plan lib now session lead client f agent s.view)) [
      | inl e ↦ rw (e, auto_schedule) h
      | inr (p, e) ↦ rw (e, auto_schedule) (create-IndexHolds _ s refl h)
    ]

pub tech_retry-IndexHolds :
    (now new_id session lead client : ℕ) (agent : Option ℕ) (s : Session)
    → IndexHolds s
    → IndexHolds (schedule_tech_retry now new_id session lead client agent s).1
unfolding schedule_tech_retry
tech_retry-IndexHolds now new_id session lead client agent s h =
    let active = count_rows (is_active_tech_row client lead) s.view.scheduled_calls in
    elim (Bool-cases (ltb 1 active)) [
      | inl many ↦ rw (many, schedule_tech_retry) h
      | inr few ↦ elim (Bool-cases (active == 1)) [
        | inl one ↦ rw (few, one, schedule_tech_retry) h
        | inr none_active ↦
            elim (Option-cases (tech_retry_plan now session lead client agent s.view)) [
              | inl e ↦ rw (few, none_active, e, schedule_tech_retry) h
              | inr (p, e) ↦
                  rw (few, none_active, e, schedule_tech_retry) (create-IndexHolds _ s refl h)
            ]
      ]
    ]

claim_one-IndexHolds : (k now : ℕ) (s : Session) → IndexHolds s → IndexHolds (claim_one k now s).1
unfolding claim_one
claim_one-IndexHolds k now s h = ground arith

claim_each-IndexHolds :
    (l : List ScheduledCall) (now : ℕ) (s : Session)
    → IndexHolds s
    → IndexHolds (claim_each l now s).1
unfolding claim_each
claim_each-IndexHolds [] now s h = h
claim_each-IndexHolds (sc ∷ l) now s h =
    let rest =
      claim_each-IndexHolds l now (claim_one sc.id now s).1 (claim_one-IndexHolds sc.id now s h) in
    elim (Bool-cases (claim_one sc.id now s).0) [ inl e ↦ rw e rest | inr e ↦ rw e rest ]

promote_each-IndexHolds :
    (l : List ScheduledCall) (now : ℕ) (s : Session)
    → IndexHolds s
    → IndexHolds (promote_each l now s).1
unfolding promote_each
promote_each-IndexHolds [] now s h = h
promote_each-IndexHolds (sc ∷ l) now s h =
    let rows = update_where (λ r. r.id == sc.id) (claim_row now) s.view.scheduled_calls in
    elim (Bool-cases (index_holds rows)) [
      | inl e ↦
          rw e (promote_each-IndexHolds l now (put_scheduled rows s) (put-IndexHolds rows s e h))
      | inr e ↦ rw e (promote_each-IndexHolds l now s h)
    ]

pub claim_due-IndexHolds :
    (now limit : ℕ) (s : Session)
    → IndexHolds s
    → IndexHolds (claim_due_scheduled_calls now limit s).1
unfolding claim_due_scheduled_calls
claim_due-IndexHolds now limit s h = claim_each-IndexHolds (due_candidates now limit s.view) now s h

pub mark_due-IndexHolds :
    (now : ℕ) (s : Session) → IndexHolds s → IndexHolds (mark_due_calls_in_progress now s).1
unfolding mark_due_calls_in_progress
mark_due-IndexHolds now s h =
    promote_each-IndexHolds (where_rows (is_due now) s.view.scheduled_calls) now s h
