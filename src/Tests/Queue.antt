-- ===== src/Tests/Queue.antt =====
-- The scheduled-call queue at concrete tables.
use qora.Base.{
  ◌+◌, ◌*◌, ◌≤◌, ◌≡◌, ◌≢◌, ◌⊎◌, refl, arith, none, some, [], ◌∷◌, length, if◌then◌else◌,
}
use qora.Clock.{minute, hour, hour_of, calculate_scheduled_at}
use qora.Store.{Session, put_scheduled}
use qora.Store.Rows.{ScheduledCall, pending, in_progress, completed, auto_retry, tech_retry}
use qora.Calls.States.{CallStatus}
use qora.Scheduler.Queue.{get_scheduled_call, get_active_scheduled_call_for_lead}
use qora.Scheduler.Policy.{resolve_agent}
use qora.Scheduler.Rules.{
  Plan, auto_schedule, auto_schedule_plan, schedule_tech_retry, multiple_results_found,
}
use qora.Scheduler.Rules.Recontact.{
  IsAdmitted, planned_call, auto_schedule_cases, auto_schedule_once,
}
use qora.Scheduler.Rules.TechRetry.{IsBounded, tech_retry-IsBounded}
use qora.Scheduler.Claim.{claim_due_scheduled_calls}
use qora.Scheduler.Claim.Rows.{HasKeys}
use qora.Scheduler.Claim.Race.{wins, wins-le-one}
use qora.Scheduler.Claim.Exclusive.{IsSound, DistinctLeads, claim_due-exclusive}
use qora.Scheduler.Index.Operations.{IndexHolds}
use qora.Scheduler.Index.Interleaving.{here, next, claims, retries, Run-IndexHolds}
use qora.Scheduler.Resolve.{resolve_scheduled_call_for_session}
use qora.Scheduler.Resolve.Once.{resolve_once}
use qora.Scheduler.Reaper.{reap_class_a}
use qora.Scheduler.Reaper.Release.{is_stranded, Verdict, reap_class_a_verdict}
use qora.Tests.Fixtures.{morning, call_row, settled_on, library, retry_facts}

-- two pending calls of one lead that are both due
abbrev due : Session
due =
    settled_on
      (call_row 1 pending auto_retry none morning ∷ call_row 2 pending auto_retry none morning ∷ [])

Run-IndexHolds_example :
    IndexHolds
      (claim_due_scheduled_calls morning 10 (schedule_tech_retry morning 3 9 7 1 none due).1).1
Run-IndexHolds_example =
    Run-IndexHolds {lib = library} {s = due}
      {t = (claim_due_scheduled_calls morning 10
        (schedule_tech_retry morning 3 9 7 1 none due).1).1}
      (next (next here (retries morning 3 9 7 1 none)) (claims morning 10))
      (record { seen = refl; kept = refl })

-- two processes claim row 1 at the same time
wins-le-one_example : wins 1 ((1, morning) ∷ (1, morning) ∷ []) due ≤ 1
wins-le-one_example = wins-le-one 1 ((1, morning) ∷ (1, morning) ∷ []) due refl

two_keys : HasKeys (due.view.scheduled_calls)
two_keys key = ground arith

due-IsSound : IsSound due
due-IsSound = record { settled = refl; keys = two_keys; index = refl }

claim_due-exclusive_example :
    (length (claim_due_scheduled_calls morning 10 due).0 ≤ 10)
    × DistinctLeads (claim_due_scheduled_calls morning 10 due).0
    × IsSound (claim_due_scheduled_calls morning 10 due).1
claim_due-exclusive_example = claim_due-exclusive morning 10 due due-IsSound

abbrev empty : Session
empty = settled_on []

auto_schedule_cases_example :
    (auto_schedule library morning 3 9 7 1 retry_facts none empty ≡ (none, empty))
    ⊎ ((p : Plan) × IsAdmitted library 9 7 1 retry_facts none empty.view p
        × (auto_schedule library morning 3 9 7 1 retry_facts none empty ≡ (
          some (planned_call morning 3 9 7 1 p),
          put_scheduled (planned_call morning 3 9 7 1 p ∷ []) empty,
        )))
auto_schedule_cases_example = auto_schedule_cases library morning 3 9 7 1 retry_facts none empty

-- the call that the retry facts schedule, one hour on
abbrev scheduled_call : ScheduledCall
scheduled_call =
    planned_call morning 3 9 7 1
      (record { at = morning + 60 * minute; attempt = 1; max = 3; agent = some 5 })

auto_schedule_once_example :
    auto_schedule library
      (morning + hour)
      4
      10
      7
      1
      retry_facts
      none
      (auto_schedule library morning 3 9 7 1 retry_facts none empty).1
    ≡ (none, (auto_schedule library morning 3 9 7 1 retry_facts none empty).1)
unfolding auto_schedule auto_schedule_plan get_active_scheduled_call_for_lead resolve_agent
    calculate_scheduled_at hour_of
auto_schedule_once_example =
    auto_schedule_once library morning 3 9 7 1 retry_facts none empty scheduled_call
      (morning + hour) 4 10 retry_facts none refl

no_retries : IsBounded empty
no_retries = record { active = λ client lead. omega arith; total = λ client lead. omega arith }

tech_retry-IsBounded_example :
    ((schedule_tech_retry morning 3 9 7 1 none empty).0 ≢ multiple_results_found)
    × IsBounded (schedule_tech_retry morning 3 9 7 1 none empty).1
tech_retry-IsBounded_example = tech_retry-IsBounded morning 3 9 7 1 none empty no_retries

-- session 9 is the call of row 1, and a technical retry is parked beside it
abbrev called : Session
called = settled_on (
    call_row 1 in_progress auto_retry (some 9) morning
    ∷ call_row 2 pending tech_retry none (morning + hour)
    ∷ [])

abbrev resolved_call : ScheduledCall
resolved_call = record (call_row 1 in_progress auto_retry (some 9) morning) {
  status = completed;
  updated_at = morning + minute;
}

resolve_once_example :
    resolve_scheduled_call_for_session
      (morning + hour)
      9
      (some CallStatus.failed)
      (resolve_scheduled_call_for_session (morning + minute) 9 (some CallStatus.completed) called).1
    ≡ (
      none,
      (resolve_scheduled_call_for_session
          (morning + minute)
          9
          (some CallStatus.completed)
          called).1,
    )
unfolding resolve_scheduled_call_for_session
resolve_once_example =
    resolve_once (morning + minute) 9 (some CallStatus.completed) called resolved_call
      (morning + hour) (some CallStatus.failed) refl

-- a claimed row that was never dialed
abbrev stranded_call : ScheduledCall
stranded_call = call_row 1 in_progress auto_retry none morning

one_key : HasKeys (stranded_call ∷ [])
one_key key = ground arith

reap_class_a_verdict_example :
    (r' : ScheduledCall) × (get_scheduled_call 1
        (reap_class_a stranded_call (morning + hour) (settled_on (stranded_call ∷ []))).view
      ≡ some r')
    × (if is_stranded stranded_call
        then Verdict (morning + hour) stranded_call stranded_call r'
        else r' ≡ stranded_call)
reap_class_a_verdict_example =
    reap_class_a_verdict stranded_call (morning + hour) (settled_on (stranded_call ∷ []))
      stranded_call refl one_key refl
