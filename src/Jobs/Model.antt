-- ===== src/Jobs/Model.antt =====
-- backend/app/jobs/models.py, registry.py and queries.py: the job rows, the handler registry, and
-- the operator's queries.
use Prim.Native.String.{String}
use text.Mathlib.Text.{◌==◌ as str_eq}
use qora.Base.{
  ℕ, Bool, true, false, Option, none, some, List, [], ◌∷◌, ◌&&◌, ◌==◌, leb, if◌then◌else◌, any_row,
  where_rows, first_row, take,
}
use qora.Store.{update_where}

pub data JobStatus : Type 0 where
  pending running completed failed dead : JobStatus

-- the `error` column; the exception's class name is left out
pub record JobError : Type 0 where
  pub message : String
  pub operator_review : Bool

pub record BackgroundJob : Type 0 where
  pub id : ℕ
  pub job_type : String
  pub payload : String
  pub status : JobStatus
  pub attempts : ℕ
  pub max_attempts : ℕ
  pub created_at : ℕ
  pub started_at : Option ℕ
  pub completed_at : Option ℕ
  pub error : Option JobError

-- `status in ("completed", "dead")`
abbrev pub is_over : JobStatus → Bool
is_over completed = true
is_over dead = true
is_over _ = false

-- `status in ("pending", "running")`
abbrev pub is_open : JobStatus → Bool
is_open pending = true
is_open running = true
is_open _ = false

abbrev pub is_running : JobStatus → Bool
is_running running = true
is_running _ = false

-- `status in ("failed", "dead")`
abbrev pub is_broken : JobStatus → Bool
is_broken failed = true
is_broken dead = true
is_broken _ = false

abbrev pub has_id : ℕ → BackgroundJob → Bool
has_id key j = j.id == key

abbrev pub get_job : ℕ → List BackgroundJob → Option BackgroundJob
get_job key jobs = first_row (where_rows (has_id key) jobs)

abbrev pub set_job : ℕ → (BackgroundJob → BackgroundJob) → List BackgroundJob → List BackgroundJob
set_job key f jobs = update_where (has_id key) f jobs

-- `_HANDLERS`, by the types that are registered; `none` is a raised `ConfigurationError`
abbrev pub Registry : Type 0
Registry = List String

unfoldable pub is_registered : String → Registry → Bool
is_registered t handlers = any_row (str_eq t) handlers

unfoldable pub register : String → Registry → Option Registry
unfolding is_registered
register t handlers = if is_registered t handlers then none else some (t ∷ handlers)

abbrev type_admits : Option String → String → Bool
type_admits none t = true
type_admits (some u) t = str_eq t u

abbrev insert_oldest : BackgroundJob → List BackgroundJob → List BackgroundJob
insert_oldest j [] = j ∷ []
insert_oldest j (x ∷ xs) =
    if leb j.created_at x.created_at then j ∷ x ∷ xs else x ∷ insert_oldest j xs

abbrev insert_newest : BackgroundJob → List BackgroundJob → List BackgroundJob
insert_newest j [] = j ∷ []
insert_newest j (x ∷ xs) =
    if leb x.created_at j.created_at then j ∷ x ∷ xs else x ∷ insert_newest j xs

abbrev oldest_first : List BackgroundJob → List BackgroundJob
oldest_first [] = []
oldest_first (j ∷ jobs) = insert_oldest j (oldest_first jobs)

abbrev newest_first : List BackgroundJob → List BackgroundJob
newest_first [] = []
newest_first (j ∷ jobs) = insert_newest j (newest_first jobs)

unfoldable pub get_failed_jobs : Option String → ℕ → List BackgroundJob → List BackgroundJob
get_failed_jobs kind limit jobs =
    take limit
      (newest_first (where_rows (λ j. is_broken j.status && type_admits kind j.job_type) jobs))

unfoldable pub get_pending_jobs : Option String → ℕ → List BackgroundJob → List BackgroundJob
get_pending_jobs kind limit jobs =
    take limit
      (oldest_first (where_rows (λ j. is_open j.status && type_admits kind j.job_type) jobs))
