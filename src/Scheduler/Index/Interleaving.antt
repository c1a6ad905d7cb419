-- ===== src/Scheduler/Index/Interleaving.antt =====
-- The queue as the processes share it: any operation may follow any other.
use qora.Base.{ℕ, Option}
use qora.Clock.{Zone}
use qora.Calls.States.{CallStatus}
use qora.Store.{Session}
use qora.Scheduler.Queue.{cancel_scheduled_call, reschedule_call, complete_scheduled_call}
use qora.Scheduler.Policy.{Library, Facts}
use qora.Scheduler.Rules.{auto_schedule, schedule_tech_retry}
use qora.Scheduler.Claim.{claim_due_scheduled_calls, mark_due_calls_in_progress}
use qora.Scheduler.Resolve.{resolve_scheduled_call_for_session}
use qora.Scheduler.Reaper.{reap_stranded_scheduled_calls}
use qora.Scheduler.Index.Operations.{
  IndexHolds, commit-IndexHolds, rollback-IndexHolds, cancel-IndexHolds, complete-IndexHolds,
  reschedule-IndexHolds, auto_schedule-IndexHolds, tech_retry-IndexHolds, claim_due-IndexHolds,
  mark_due-IndexHolds,
}
use qora.Scheduler.Index.Resolution.{resolve-IndexHolds, reap-IndexHolds}
use qora.Store

-- one operation of some process, with the clock and the keys that it gets
pub data Step (lib : Library) (s : Session) : Session → Type 0 where
  committed : Step lib s (Store.commit s)
  rolled_back : Step lib s (Store.rollback s)
  cancels : (now key : ℕ) → Step lib s (cancel_scheduled_call now key s).1
  completes : (now key : ℕ) → Step lib s (complete_scheduled_call now key s).1
  reschedules :
      (now key at start end : ℕ) (z : Zone)
      → Step lib s (reschedule_call now key at start end z s).1
  recontacts :
      (now new_id session lead client : ℕ) (f : Facts) (agent : Option ℕ)
      → Step lib s (auto_schedule lib now new_id session lead client f agent s).1
  retries :
      (now new_id session lead client : ℕ) (agent : Option ℕ)
      → Step lib s (schedule_tech_retry now new_id session lead client agent s).1
  claims : (now limit : ℕ) → Step lib s (claim_due_scheduled_calls now limit s).1
  promotes : (now : ℕ) → Step lib s (mark_due_calls_in_progress now s).1
  resolves :
      (now session : ℕ) (t : Option CallStatus)
      → Step lib s (resolve_scheduled_call_for_session now session t s).1
  reaps : (now : ℕ) → Step lib s (reap_stranded_scheduled_calls now s)

pub data Run (lib : Library) (s : Session) : Session → Type 0 where
  here : Run lib s s
  next : {t u : Session} → Run lib s t → Step lib t u → Run lib s u

Step-IndexHolds : {lib : Library} {s t : Session} → Step lib s t → IndexHolds s → IndexHolds t
Step-IndexHolds {s} committed h = commit-IndexHolds s h
Step-IndexHolds {s} rolled_back h = rollback-IndexHolds s h
Step-IndexHolds {s} (cancels now key) h = cancel-IndexHolds now key s h
Step-IndexHolds {s} (completes now key) h = complete-IndexHolds now key s h
Step-IndexHolds {s} (reschedules now key at start end z) h =
    reschedule-IndexHolds now key at start end z s h
Step-IndexHolds {lib} {s} (recontacts now new_id session lead client f agent) h =
    auto_schedule-IndexHolds lib now new_id session lead client f agent s h
Step-IndexHolds {s} (retries now new_id session lead client agent) h =
    tech_retry-IndexHolds now new_id session lead client agent s h
Step-IndexHolds {s} (claims now limit) h = claim_due-IndexHolds now limit s h
Step-IndexHolds {s} (promotes now) h = mark_due-IndexHolds now s h
Step-IndexHolds {s} (resolves now session t) h = resolve-IndexHolds now session t s h
Step-IndexHolds {s} (reaps now) h = reap-IndexHolds now s h

-- In any interleaving of the queue's operations, what the session sees and what is on disk hold at
-- most one in_progress row for each lead, if they did at the start.
pub Run-IndexHolds : {lib : Library} {s t : Session} → Run lib s t → IndexHolds s → IndexHolds t
Run-IndexHolds here h = h
Run-IndexHolds (next r st) h = Step-IndexHolds st (Run-IndexHolds r h)
