-- ===== src/Scheduler/Queue.antt =====
-- backend/app/scheduler/service.py: the queue's helpers, from `create_scheduled_call` to
-- `complete_scheduled_call`. `now` is the clock that a call reads, `new_id` its `uuid4`.
use Prim.Native.String.{String}
use qora.Base.{
  ℕ, Bool, true, Option, none, some, List, [], ◌∷◌, ◌++◌, ◌&&◌, not, ltb, leb, ◌==◌, if◌then◌else◌,
  any_row, where_rows, first_row,
}
use qora.Clock.{Zone, hour_of}
use qora.Store.{Db, Session, put_scheduled, update_where}
use qora.Store.Rows.{
  ScheduledCall, QueueStatus, pending, completed, cancelled, queue_transitions, queue_status_eq,
  is_pending, is_active, Trigger,
}

-- the `ValueError`s of this file
pub data Error : Type 0 where
  not_found not_cancellable not_reschedulable outside_hours not_completable : Error

pub data Result (A : Type 0) : Type 0 where
  ok : A → Result A
  err : Error → Result A

unfoldable pub create_scheduled_call :
    ℕ
    → ℕ
    → ℕ
    → ℕ
    → ℕ
    → Trigger
    → Option ℕ
    → ℕ
    → ℕ
    → Option String
    → Option ℕ
    → Session
    → ScheduledCall × Session
create_scheduled_call new_id now client lead at trigger source attempt max_attempts notes agent s =
    let sc : ScheduledCall = record {
      id = new_id;
      client_id = client;
      lead_id = lead;
      source_session_id = source;
      status = pending;
      scheduled_at = at;
      attempt_number = attempt;
      max_attempts = max_attempts;
      trigger_reason = trigger;
      outcome_session_id = none;
      notes = notes;
      agent_id = agent;
      created_at = now;
      updated_at = now;
    } in
    (sc, put_scheduled (s.view.scheduled_calls ++ sc ∷ []) s)

abbrev pub get_scheduled_call : ℕ → Db → Option ScheduledCall
get_scheduled_call key db = first_row (where_rows (λ r. r.id == key) db.scheduled_calls)

-- `ORDER BY scheduled_at`, rows of equal time in table order
abbrev pub insert_by_time : ScheduledCall → List ScheduledCall → List ScheduledCall
insert_by_time r [] = r ∷ []
insert_by_time r (x ∷ xs) =
    if leb r.scheduled_at x.scheduled_at then r ∷ x ∷ xs else x ∷ insert_by_time r xs

abbrev pub order_by_time : List ScheduledCall → List ScheduledCall
order_by_time [] = []
order_by_time (x ∷ xs) = insert_by_time x (order_by_time xs)

-- an absent filter admits every row; so does an empty status list
pub record QueueFilter : Type 0 where
  pub status_filter : List QueueStatus
  pub lead : Option ℕ
  pub scheduled_from : Option ℕ
  pub scheduled_to : Option ℕ

abbrev status_admits : List QueueStatus → QueueStatus → Bool
status_admits [] q = true
status_admits (a ∷ l) q = any_row (queue_status_eq q) (a ∷ l)

abbrev admits : (ℕ → Bool) → Option ℕ → Bool
admits test none = true
admits test (some k) = test k

unfoldable pub in_queue : ℕ → QueueFilter → ScheduledCall → Bool
in_queue client f r =
    r.client_id == client
    && (status_admits f.status_filter r.status
        && (admits (λ k. r.lead_id == k) f.lead
            && (admits (λ t. leb t r.scheduled_at) f.scheduled_from
                && admits (λ t. leb r.scheduled_at t) f.scheduled_to)))

unfoldable pub list_queue : ℕ → QueueFilter → Db → List ScheduledCall
unfolding in_queue
list_queue client f db = order_by_time (where_rows (in_queue client f) db.scheduled_calls)

unfoldable pub get_active_scheduled_call_for_lead : ℕ → ℕ → Db → Option ScheduledCall
get_active_scheduled_call_for_lead client lead db = first_row (
    order_by_time (
      where_rows (λ r. r.lead_id == lead && (r.client_id == client && is_active r.status))
        db.scheduled_calls))

-- an ORM write of one row's status, flushed
abbrev pub write_status : ℕ → QueueStatus → ℕ → Session → Session
write_status key status now s =
    put_scheduled
      (update_where (λ r. r.id == key) (λ r. record r { status = status; updated_at = now })
        s.view.scheduled_calls)
      s

unfoldable pub cancel_scheduled_call : ℕ → ℕ → Session → Result ScheduledCall × Session
unfolding queue_transitions
cancel_scheduled_call now key s = elim (get_scheduled_call key s.view) [
  | none ↦ (err not_found, s)
  | some sc ↦
      if not (any_row (queue_status_eq cancelled) (queue_transitions sc.status))
      then (err not_cancellable, s)
      else (
        ok (record sc { status = cancelled; updated_at = now }),
        write_status key cancelled now s,
      )
]

unfoldable pub reschedule_call : ℕ → ℕ → ℕ → ℕ → ℕ → Zone → Session → Result ScheduledCall × Session
reschedule_call now key new_at start_hour end_hour tz s = elim (get_scheduled_call key s.view) [
  | none ↦ (err not_found, s)
  | some sc ↦
      if not (is_pending sc.status)
      then (err not_reschedulable, s)
      else if not (
          leb start_hour (hour_of (tz.to_local new_at))
          && ltb (hour_of (tz.to_local new_at)) end_hour)
      then (err outside_hours, s)
      else (
        ok (record sc { scheduled_at = new_at; updated_at = now }),
        put_scheduled
            (update_where (λ r. r.id == key)
              (λ r. record r { scheduled_at = new_at; updated_at = now }) s.view.scheduled_calls)
            s,
      )
]

unfoldable pub complete_scheduled_call : ℕ → ℕ → Session → Result ScheduledCall × Session
complete_scheduled_call now key s = elim (get_scheduled_call key s.view) [
  | none ↦ (err not_found, s)
  | some sc ↦ if not (is_active sc.status) then (err not_completable, s) else (
    ok (record sc { status = completed; updated_at = now }),
    write_status key completed now s,
  )
]
