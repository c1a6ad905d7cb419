-- ===== src/Scheduler/Resolve.antt =====
-- backend/app/scheduler/service.py: the completion hook, `resolve_scheduled_call_for_session`.
pub mod Once
pub mod Parked
use qora.Base.{ℕ, Bool, Option, none, some, ◌&&◌, if◌then◌else◌, where_rows, first_row, holds_key}
use qora.Store.{Db, Session}
use qora.Store.Rows.{
  ScheduledCall, QueueStatus, completed, failed, cancelled, is_pending, is_in_progress,
}
use qora.Calls.States.{CallStatus}
use qora.Scheduler.Queue.{write_status}
use qora.Scheduler.Rules.{is_tech_row}

-- `_TELEPHONY_TO_SCHEDULED_STATUS.get`; a NULL status has no entry
unfoldable pub telephony_to_scheduled_status : Option CallStatus → Option QueueStatus
telephony_to_scheduled_status none = none
telephony_to_scheduled_status (some CallStatus.completed) = some completed
telephony_to_scheduled_status (some CallStatus.voicemail) = some completed
telephony_to_scheduled_status (some CallStatus.no_answer) = some failed
telephony_to_scheduled_status (some CallStatus.failed) = some failed
telephony_to_scheduled_status (some CallStatus.recurrent_error) = some failed
telephony_to_scheduled_status (some CallStatus.stale_in_call) = some failed
telephony_to_scheduled_status (some _) = none

-- `_set_scheduled_call_status`
abbrev pub set_scheduled_call_status : ScheduledCall → QueueStatus → ℕ → Session → Session
set_scheduled_call_status sc status now s = write_status sc.id status now s

abbrev pub is_pending_tech : ℕ → ℕ → ScheduledCall → Bool
is_pending_tech client lead r = is_tech_row client lead r && is_pending r.status

unfoldable pub get_pending_tech_retry_for_lead : ℕ → ℕ → Db → Option ScheduledCall
get_pending_tech_retry_for_lead client lead db =
    first_row (where_rows (is_pending_tech client lead) db.scheduled_calls)

abbrev pub find_by_outcome : ℕ → Db → Option ScheduledCall
find_by_outcome session db =
    first_row (where_rows (λ r. holds_key r.outcome_session_id session) db.scheduled_calls)

-- Decision 8: a completed call cancels the lead's parked technical retry.
unfoldable pub cancel_parked_retry : ScheduledCall → QueueStatus → ℕ → Session → Session
unfolding get_pending_tech_retry_for_lead
cancel_parked_retry sc completed now s =
    elim (get_pending_tech_retry_for_lead sc.client_id sc.lead_id s.view) [
      | none ↦ s
      | some stale ↦ set_scheduled_call_status stale cancelled now s
    ]
cancel_parked_retry sc _ now s = s

unfoldable pub resolve_scheduled_call_for_session :
    ℕ → ℕ → Option CallStatus → Session → Option ScheduledCall × Session
unfolding telephony_to_scheduled_status cancel_parked_retry
resolve_scheduled_call_for_session now session telephony s =
    elim (telephony_to_scheduled_status telephony) [
      | none ↦ (none, s)
      | some new_status ↦ elim (find_by_outcome session s.view) [
        | none ↦ (none, s)
        | some sc ↦
            if is_in_progress sc.status
            then (
              some (record sc { status = new_status; updated_at = now }),
              cancel_parked_retry sc new_status now (set_scheduled_call_status sc new_status now s),
            )
            else (none, s)
      ]
    ]
