-- ===== src/Jobs/Recovery/Complete.antt =====
-- About `recover` of backend/app/jobs/executor.py: which jobs a start picks up.
use qora.Base.{
  ap, sym, subst, ◌∙◌, ℕ, ◌≡◌, refl, Bool, true, List, [], ◌∷◌, arith, any_row, where_rows, ◌==◌,
  Bool-cases, inl, inr, ◌||◌, ◌&&◌, All,
}
use qora.Store.{update_where}
use qora.Jobs.Model.{BackgroundJob, pending, is_open}
use qora.Jobs.Executor.{Executor}
use qora.Jobs.Recovery.{is_active, resets, dispatch_each, recover}

abbrev track : BackgroundJob → Executor → Executor
track j ex = record ex { active_job_ids = j.id ∷ ex.active_job_ids; tasks = j.id ∷ ex.tasks }

-- the table after the first loop
abbrev reset : Executor → Executor
reset ex = record ex {
  jobs = update_where (resets ex.active_job_ids) (λ j. record j { status = pending }) ex.jobs;
}

is_active-eq : (i key : ℕ) (l : List ℕ) → (i == key) ≡ true → is_active i l ≡ is_active key l
is_active-eq i key l e = ap (λ x. is_active x l) (ground arith)

-- what the second loop keeps: the rows, and what is tracked already
dispatch_each-jobs :
    (jobs : List BackgroundJob) (ex : Executor) → (dispatch_each jobs ex).1.jobs ≡ ex.jobs
unfolding dispatch_each
dispatch_each-jobs [] ex = refl
dispatch_each-jobs (j ∷ jobs) ex = elim (Bool-cases (is_active j.id ex.active_job_ids)) [
  | inl e ↦ rw e (dispatch_each-jobs jobs ex)
  | inr e ↦ rw e (dispatch_each-jobs jobs (track j ex))
]

dispatch_each-active :
    (jobs : List BackgroundJob) (ex : Executor) (key : ℕ)
    → is_active key (dispatch_each jobs ex).1.active_job_ids
      ≡ (any_row (λ j. j.id == key) jobs || is_active key ex.active_job_ids)
unfolding dispatch_each
dispatch_each-active [] ex key = refl
dispatch_each-active (j ∷ jobs) ex key = elim (Bool-cases (is_active j.id ex.active_job_ids)) [
  | inl e ↦
      rw e
        (ground (arith, dispatch_each-active jobs ex key, is_active-eq j.id key ex.active_job_ids))
  | inr e ↦ rw e (ground (arith, dispatch_each-active jobs (track j ex) key))
]

open_key : ℕ → List BackgroundJob → Bool
open_key key jobs = any_row (λ j. j.id == key && is_open j.status) jobs

any-open :
    (key : ℕ) (jobs : List BackgroundJob)
    → any_row (λ j. j.id == key) (where_rows (λ j. is_open j.status) jobs) ≡ open_key key jobs
unfolding open_key
any-open key [] = refl
any-open key (j ∷ jobs) = ground (arith, any-open key jobs)

-- A start tracks exactly the jobs that are pending or running, and those tracked already. A failed
-- job is not among them, whatever attempts it has left.
recover-tracks :
    (ex : Executor) (key : ℕ)
    → is_active key (recover ex).1.active_job_ids
      ≡ (any_row (λ j. j.id == key && is_open j.status) ex.jobs || is_active key ex.active_job_ids)
unfolding recover open_key
recover-tracks ex key =
    dispatch_each-active (where_rows (λ j. is_open j.status) ex.jobs) (reset ex) key
    ∙ rw (any-open key ex.jobs) refl

-- the rows after a start: untracked running rows are pending again, and no other row changes
recover-jobs :
    (ex : Executor)
    → (recover ex).1.jobs
      ≡ update_where (resets ex.active_job_ids) (λ j. record j { status = pending }) ex.jobs
unfolding recover
recover-jobs ex = dispatch_each-jobs (where_rows (λ j. is_open j.status) ex.jobs) (reset ex)

open-reset :
    (active : List ℕ) (key : ℕ) (jobs : List BackgroundJob)
    → open_key key (update_where (resets active) (λ j. record j { status = pending }) jobs)
      ≡ open_key key jobs
unfolding open_key
open-reset active key [] = refl
open-reset active key (j ∷ jobs) = ground (arith, open-reset active key jobs)

dispatch_each-idle :
    (jobs : List BackgroundJob) (ex : Executor)
    → All (λ j. is_active j.id ex.active_job_ids ≡ true) jobs
    → dispatch_each jobs ex ≡ (0, ex)
unfolding dispatch_each
dispatch_each-idle [] ex h = refl
dispatch_each-idle (j ∷ jobs) ex h = rw (h.0, dispatch_each-idle jobs ex h.1) refl

abbrev AllTracked : List ℕ → List BackgroundJob → Type 0
AllTracked active jobs = (key : ℕ) → open_key key jobs ≡ true → is_active key active ≡ true

tail-AllTracked :
    (active : List ℕ) (j : BackgroundJob) (jobs : List BackgroundJob)
    → AllTracked active (j ∷ jobs)
    → AllTracked active jobs
unfolding open_key
tail-AllTracked active j jobs h key e = h key (ground arith)

head-tracked :
    (active : List ℕ) (j : BackgroundJob) (jobs : List BackgroundJob)
    → AllTracked active (j ∷ jobs)
    → is_open j.status ≡ true
    → is_active j.id active ≡ true
unfolding open_key
head-tracked active j jobs h e = h j.id (ground arith)

open_rows-tracked :
    (active : List ℕ) (jobs : List BackgroundJob)
    → AllTracked active jobs
    → All (λ j. is_active j.id active ≡ true) (where_rows (λ j. is_open j.status) jobs)
open_rows-tracked active [] h = tt
open_rows-tracked active (j ∷ jobs) h =
    let rest = open_rows-tracked active jobs (tail-AllTracked active j jobs h) in
    elim (Bool-cases (is_open j.status)) [
      | inl e ↦ rw e (head-tracked active j jobs h e, rest)
      | inr e ↦ rw e rest
    ]

no_reset :
    (active : List ℕ) (jobs : List BackgroundJob)
    → AllTracked active jobs
    → update_where (resets active) (λ j. record j { status = pending }) jobs ≡ jobs
no_reset active [] h = refl
no_reset active (j ∷ jobs) h =
    ground
      (arith, no_reset active jobs (tail-AllTracked active j jobs h), head-tracked active j jobs h)

or_true : (a b : Bool) → a ≡ true → (a || b) ≡ true
or_true a b e = ground arith

tracked_after : (ex : Executor) → AllTracked (recover ex).1.active_job_ids (recover ex).1.jobs
unfolding open_key
tracked_after ex key e = rw (recover-tracks ex key) (
    or_true (open_key key ex.jobs) (is_active key ex.active_job_ids) (
      sym (open-reset ex.active_job_ids key ex.jobs)
      ∙ subst (λ l. open_key key l ≡ true) (recover-jobs ex) e))

-- A second start finds nothing to do: no job is dispatched twice.
recover_idem : (ex : Executor) → recover (recover ex).1 ≡ (0, (recover ex).1)
unfolding recover
recover_idem ex =
    let after : Executor = (recover ex).1 in
    let tracked = tracked_after ex in
    rw (no_reset after.active_job_ids after.jobs tracked) (
      dispatch_each-idle (where_rows (λ j. is_open j.status) after.jobs) after
        (open_rows-tracked after.active_job_ids after.jobs tracked))
