-- ===== src/Tests/Jobs.antt =====
-- The job executor at concrete tables.
use Prim.Native.String.{String}
use qora.Base.{ℕ, zero, suc, ◌≡◌, refl, arith, false, ◌==◌, List, [], ◌∷◌}
use qora.Jobs.Model.{BackgroundJob, JobStatus, pending, running, failed, is_registered}
use qora.Jobs.Executor.{Executor, HandlerOutcome, raised, returned, run_job}
use qora.Jobs.Executor.Ends.{Ended, run_job-Ended}
use qora.Jobs.Enqueue.{
  Caller, new_job, enqueue_within, after_rollback, Operation, enqueue, commit, perform_each,
}
use qora.Jobs.Enqueue.Rollback.{IsGone, IsKept, holds, enqueue-rollback}
use qora.Jobs.Recovery.{is_active, recover}

abbrev registered : List String
registered = "post_call_analysis" ∷ []

abbrev job : ℕ → JobStatus → BackgroundJob
job key status = record (new_job key "post_call_analysis" "{}" 3 0) { status = status }

-- one job that waits, one that a crash cut off, one that waits for its next attempt
abbrev crashed : Executor
crashed = record {
  jobs = job 1 pending ∷ job 2 running ∷ job 3 failed ∷ [];
  active_job_ids = [];
  tasks = [];
}

-- the failed job is not picked up again
failed_is_lost : is_active 3 (recover crashed).1.active_job_ids ≡ false
unfolding recover
failed_is_lost = refl

-- a handler that raises twice and then returns; rounds count down
abbrev third_time : ℕ → HandlerOutcome × ℕ
third_time zero = (returned, 30)
third_time (suc n) = (raised "timeout", 10)

run_job-Ended_example : Ended 1 (job 1 pending) (
    run_job 3 registered 1 third_time
      (record { jobs = job 1 pending ∷ []; active_job_ids = 1 ∷ []; tasks = 1 ∷ [] }))
run_job-Ended_example =
    run_job-Ended registered 1 third_time 3
      (record { jobs = job 1 pending ∷ []; active_job_ids = 1 ∷ []; tasks = 1 ∷ [] })
      (job 1 pending) refl refl (omega arith) (omega arith)

abbrev idle : Caller
idle = record {
  executor = record { jobs = []; active_job_ids = []; tasks = [] };
  staged = [];
  commit_listeners = [];
  rollback_listeners = [];
}

abbrev enqueued : Caller
enqueued = record {
  executor = record { jobs = []; active_job_ids = 4 ∷ []; tasks = [] };
  staged = new_job 4 "post_call_analysis" "{}" 3 0 ∷ [];
  commit_listeners = 4 ∷ [];
  rollback_listeners = 4 ∷ [];
}

-- the session goes on with another job, and commits
abbrev reused : List Operation
reused = enqueue 5 "post_call_analysis" "{}" 3 9 ∷ commit ∷ []

enqueue-rollback_example :
    IsGone 4 (perform_each registered reused (after_rollback enqueued))
    × IsKept 4 idle (perform_each registered reused (after_rollback enqueued))
    × ((k : ℕ)
        → (4 == k) ≡ false
        → holds k idle.rollback_listeners ≡ false
        → holds k (after_rollback enqueued).executor.active_job_ids
          ≡ holds k idle.executor.active_job_ids)
unfolding enqueue_within is_registered
enqueue-rollback_example =
    enqueue-rollback registered 4 "post_call_analysis" "{}" 3 0 idle enqueued reused refl
      (refl, (tt, tt))
