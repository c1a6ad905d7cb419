-- ===== src/Scheduler/Reaper.antt =====
-- backend/app/scheduler/service.py: the reaper of stranded rows.
pub mod Release
use qora.Base.{
  ℕ, ◌+◌, ◌-◌, ◌*◌, Bool, true, false, Option, none, some, List, [], ◌∷◌, ◌&&◌, ◌||◌, not, ltb,
  ◌==◌, if◌then◌else◌, where_rows, count_rows, is_none, is_some, holds_key,
}
use qora.Clock.{minute, hour, calculate_scheduled_at}
use qora.Store.{Db, Session, commit, rollback, put_scheduled, update_where, get_client, get_session}
use qora.Store.Rows.{ScheduledCall, QueueStatus, pending, failed, is_in_progress}
use qora.Scheduler.Resolve.{telephony_to_scheduled_status, resolve_scheduled_call_for_session}

-- `_CLAIM_TIMEOUT_MINUTES`, `_MAX_STRANDED_HOURS`
abbrev pub claim_timeout_minutes : ℕ
claim_timeout_minutes = 10

abbrev pub max_stranded_hours : ℕ
max_stranded_hours = 6

-- `outcome_session_id IS NULL`, or equal to the one that the candidate was read with
abbrev pub same_outcome : Bool → Option ℕ → Option ℕ → Bool
same_outcome true seen now = is_none now
same_outcome false none now = false
same_outcome false (some k) now = holds_key now k

abbrev pub is_releasable : Bool → ScheduledCall → ScheduledCall → Bool
is_releasable expect_null sc r =
    r.id == sc.id
    && (is_in_progress r.status
        && same_outcome expect_null sc.outcome_session_id r.outcome_session_id)

-- the UPDATE's `values`: the new status, and a new time where one is given
abbrev pub release_row : QueueStatus → Option ℕ → ℕ → ScheduledCall → ScheduledCall
release_row status none now r = record r { status = status; updated_at = now }
release_row status (some at) now r = record r {
  status = status;
  updated_at = now;
  scheduled_at = at;
}

unfoldable pub cas_release_scheduled_call :
    ScheduledCall → Bool → QueueStatus → Option ℕ → ℕ → Session → Bool × Session
cas_release_scheduled_call sc expect_null status at now s =
    let won = count_rows (is_releasable expect_null sc) s.view.scheduled_calls == 1 in
    let s' =
      put_scheduled
        (update_where (is_releasable expect_null sc) (release_row status at now)
          s.view.scheduled_calls)
        s in
    (won, if won then commit s' else rollback s')

-- `(now - scheduled_at) > timedelta(hours=6)`
abbrev pub is_aged_out : ℕ → ScheduledCall → Bool
is_aged_out now sc = ltb (max_stranded_hours * hour) (now - sc.scheduled_at)

-- the release clamp: a new time only where the window moves the call forward
unfoldable pub release_time : ℕ → ScheduledCall → Db → Option ℕ
release_time now sc db = elim (get_client sc.client_id db) [
  | none ↦ none
  | some client ↦
      let new_at =
        calculate_scheduled_at now 0 client.scheduler_allowed_hours_start
          client.scheduler_allowed_hours_end client.scheduler_timezone in
      if ltb now new_at then some new_at else none
]

unfoldable pub reap_class_a : ScheduledCall → ℕ → Session → Session
unfolding cas_release_scheduled_call
reap_class_a sc now s =
    if is_aged_out now sc || not (ltb sc.attempt_number sc.max_attempts)
    then (cas_release_scheduled_call sc true failed none now s).1
    else (cas_release_scheduled_call sc true pending (release_time now sc s.view) now s).1

-- `db.get(CallSession, sc.outcome_session_id)`
abbrev pub linked_session : Option ℕ → Db → Option qora.Store.Rows.CallSession
linked_session none db = none
linked_session (some k) db = get_session k db

unfoldable pub reap_class_b : ScheduledCall → ℕ → Session → Session
unfolding cas_release_scheduled_call
reap_class_b sc now s = elim (linked_session sc.outcome_session_id s.view) [
  | none ↦ (cas_release_scheduled_call sc false failed none now s).1
  | some cs ↦
      if is_none (telephony_to_scheduled_status cs.telephony_status)
      then s
      else commit (resolve_scheduled_call_for_session now cs.id cs.telephony_status s).1
]

abbrev pub for_each {ℓ} : {A : Type ℓ} → (A → Session → Session) → List A → Session → Session
for_each step [] s = s
for_each step (x ∷ xs) s = for_each step xs (step x s)

-- `updated_at < now - 10 min`
abbrev pub is_stranded_a : ℕ → ScheduledCall → Bool
is_stranded_a now r =
    is_in_progress r.status
    && (is_none r.outcome_session_id && ltb (r.updated_at + claim_timeout_minutes * minute) now)

abbrev pub is_stranded_b : ScheduledCall → Bool
is_stranded_b r = is_in_progress r.status && is_some r.outcome_session_id

unfoldable pub reap_stranded_scheduled_calls : ℕ → Session → Session
unfolding reap_class_a reap_class_b
reap_stranded_scheduled_calls now s =
    let first =
      for_each (λ sc. reap_class_a sc now) (where_rows (is_stranded_a now) s.view.scheduled_calls)
        s in
    for_each (λ sc. reap_class_b sc now) (where_rows is_stranded_b first.view.scheduled_calls) first
