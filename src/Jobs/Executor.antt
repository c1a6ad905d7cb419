-- ===== src/Jobs/Executor.antt =====
-- backend/app/jobs/executor.py: the backoff, and `_run_job`, one attempt after another.
pub mod Ends
use Prim.Native.Nat.{min}
use Prim.Native.String.{String}
use qora.Base.{
  ℕ, zero, suc, ◌+◌, ◌*◌, ◌^◌, Bool, true, false, Option, none, some, List, [], ◌∷◌, ◌&&◌, ◌||◌,
  not, ◌==◌, leb, ltb, if◌then◌else◌,
}
use qora.Jobs.Model.{
  BackgroundJob, JobError, running, completed, failed, dead, is_over, get_job, set_job, Registry,
  is_registered,
}

-- Delays are whole numbers of one unit of time; `drawn` is what `random.uniform(0, jitter)` gives.
unfoldable pub calculate_backoff : ℕ → ℕ → ℕ → ℕ → ℕ → ℕ
calculate_backoff attempt base max_delay jitter drawn =
    min (base * 2 ^ attempt + (if ltb 0 jitter then drawn else 0)) max_delay

-- The table, `_active_job_ids`, and the jobs for which `_tasks` holds a task.
pub record Executor : Type 0 where
  pub jobs : List BackgroundJob
  pub active_job_ids : List ℕ
  pub tasks : List ℕ

-- `set.discard`
abbrev pub discard : ℕ → List ℕ → List ℕ
discard key [] = []
discard key (k ∷ l) = let rest = discard key l in if k == key then rest else k ∷ rest

abbrev discard_active : ℕ → Executor → Executor
discard_active key ex = record ex { active_job_ids = discard key ex.active_job_ids }

abbrev put_job : ℕ → (BackgroundJob → BackgroundJob) → Executor → Executor
put_job key f ex = record ex { jobs = set_job key f ex.jobs }

-- How a call of the handler ends.
pub data HandlerOutcome : Type 0 where
  returned : HandlerOutcome
  raised_configuration_error : String → HandlerOutcome
  raised : String → HandlerOutcome

-- `get_handler` is called inside the `try`: a type that is not registered raises there.
unfoldable pub outcome_of : Registry → String → HandlerOutcome → HandlerOutcome
outcome_of handlers t o =
    if is_registered t handlers then o else raised_configuration_error "No handler registered"

-- the transition to running
unfoldable pub begin_job : ℕ → BackgroundJob → BackgroundJob
begin_job now j = record j { status = running; started_at = some now; attempts = j.attempts + 1 }

-- ConfigurationError: dead from the second attempt on; any other error: dead at the last attempt
unfoldable pub should_dead_letter : Bool → ℕ → ℕ → Bool
should_dead_letter is_config_error attempt max_attempts =
    (is_config_error && leb 2 attempt) || (not is_config_error && leb max_attempts attempt)

abbrev pub fail_job : Bool → Bool → String → BackgroundJob → BackgroundJob
fail_job give_up review text j = record j {
  status = if give_up then dead else failed;
  error = some (record { message = text; operator_review = review });
}

abbrev pub complete_job : ℕ → BackgroundJob → BackgroundJob
complete_job now j = record j { status = completed; completed_at = some now }

-- an iteration's end: `return`, or the next round after the backoff
pub data Next : Type 0 where
  stop : Executor → Next
  retry : Executor → Next

abbrev failure : ℕ → Bool → String → ℕ → ℕ → Executor → Next
failure key config text attempt max_attempts ex =
    let give_up = should_dead_letter config attempt max_attempts in
    let ex' = put_job key (fail_job give_up config text) ex in
    if give_up then stop (discard_active key ex') else retry ex'

-- the third session of an iteration: the job's state by the outcome
unfoldable pub finish_attempt : ℕ → ℕ → ℕ → ℕ → HandlerOutcome → Executor → Next
unfolding should_dead_letter
finish_attempt key now attempt max_attempts outcome ex = elim (get_job key ex.jobs) [
  | none ↦ stop ex
  | some j ↦ elim outcome [
    | returned ↦ stop (discard_active key (put_job key (complete_job now) ex))
    | raised_configuration_error text ↦ failure key true text attempt max_attempts ex
    | raised text ↦ failure key false text attempt max_attempts ex
  ]
]

-- one round of `while True`; `between` is what other tasks do to the table while the handler runs
unfoldable pub attempt :
    Registry
    → ℕ
    → ℕ
    → ℕ
    → HandlerOutcome
    → (List BackgroundJob → List BackgroundJob)
    → Executor
    → Next
unfolding finish_attempt outcome_of begin_job
attempt handlers key started finished outcome between ex = elim (get_job key ex.jobs) [
  | none ↦ stop (discard_active key ex)
  | some j ↦
      if is_over j.status
      then stop (discard_active key ex)
      else let begun = put_job key (begin_job started) ex in
        finish_attempt key finished (j.attempts + 1) j.max_attempts
          (outcome_of handlers j.job_type outcome) (record begun { jobs = between begun.jobs })
]

pub data Fate : Type 0 where
  finished : Executor → Fate
  out_of_fuel : Executor → Fate

-- `_run_job` alone with its row: round n takes its outcome and clock from the environment.
unfoldable pub run_job : ℕ → Registry → ℕ → (ℕ → HandlerOutcome × ℕ) → Executor → Fate
run_job zero handlers key env ex = out_of_fuel ex
run_job (suc fuel) handlers key env ex =
    elim (attempt handlers key (env fuel).1 (env fuel).1 (env fuel).0 (λ jobs. jobs) ex) [
      | stop ex' ↦ finished ex'
      | retry ex' ↦ run_job fuel handlers key env ex'
    ]
