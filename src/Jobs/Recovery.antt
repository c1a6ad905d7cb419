-- ===== src/Jobs/Recovery.antt =====
-- backend/app/jobs/executor.py: `recover` and `shutdown`.
pub mod Complete
use qora.Base.{
  ℕ, suc, Bool, true, false, List, [], ◌∷◌, ◌&&◌, not, ◌==◌, any_row, where_rows, if◌then◌else◌,
}
use qora.Store.{update_where}
use qora.Jobs.Model.{BackgroundJob, pending, is_open, is_running}
use qora.Jobs.Executor.{Executor}

-- `job.id in self._active_job_ids`
abbrev pub is_active : ℕ → List ℕ → Bool
is_active key l = any_row (λ k. k == key) l

-- the reset of the first loop
abbrev pub resets : List ℕ → BackgroundJob → Bool
resets active j = is_running j.status && not (is_active j.id active)

-- the second loop: track and dispatch what is not tracked yet; the count of those
unfoldable pub dispatch_each : List BackgroundJob → Executor → ℕ × Executor
dispatch_each [] ex = (0, ex)
dispatch_each (j ∷ jobs) ex =
    let known = is_active j.id ex.active_job_ids in
    let (n, ex') = dispatch_each jobs (
      if known
      then ex
      else record ex { active_job_ids = j.id ∷ ex.active_job_ids; tasks = j.id ∷ ex.tasks }) in
    (if known then n else suc n, ex')

unfoldable pub recover : Executor → ℕ × Executor
unfolding dispatch_each
recover ex = dispatch_each (where_rows (λ j. is_open j.status) ex.jobs) (record ex {
  jobs = update_where (resets ex.active_job_ids) (λ j. record j { status = pending }) ex.jobs;
})

-- every task is cancelled, and both sets are cleared; the table stays
unfoldable pub shutdown : Executor → Executor
shutdown ex = record ex { active_job_ids = []; tasks = [] }
