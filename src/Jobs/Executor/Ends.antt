-- ===== src/Jobs/Executor/Ends.antt =====
-- About `_run_job` of backend/app/jobs/executor.py: the end of its loop.
use Prim.Native.Nat.{max}
use Prim.Native.String.{String}
use qora.Base.{
  ℕ, zero, suc, ◌+◌, ◌≤◌, ◌<◌, ◌≡◌, refl, Bool, true, false, some, List, [], ◌∷◌, arith, ◌==◌, ◌∙◌,
  ap, sym, subst, any_row, first-passes, Bool-cases, inl, inr,
}
use qora.Store.Updates.{first-update}
use qora.Jobs.Model.{BackgroundJob, is_over, get_job, set_job, has_id, Registry}
use qora.Jobs.Executor.{
  Executor, discard, HandlerOutcome, returned, raised_configuration_error, raised, outcome_of,
  begin_job, should_dead_letter, fail_job, complete_job, Next, stop, retry, failure, finish_attempt,
  attempt, Fate, finished, out_of_fuel, run_job, put_job,
}

abbrev pub is_tracked : ℕ → Executor → Bool
is_tracked key ex = any_row (λ k. k == key) ex.active_job_ids

discard-gone : (key : ℕ) (l : List ℕ) → any_row (λ k. k == key) (discard key l) ≡ false
discard-gone key [] = refl
discard-gone key (k ∷ l) = ground (arith, discard-gone key l)

get-set :
    (key : ℕ) (f : BackgroundJob → BackgroundJob) (jobs : List BackgroundJob) (j : BackgroundJob)
    → ((x : BackgroundJob) → (f x).id ≡ x.id)
    → get_job key jobs ≡ some j
    → get_job key (set_job key f jobs) ≡ some (f j)
get-set key f jobs j same e =
    first-update (has_id key) (has_id key) f (λ x. ap (λ i. i == key) (same x)) jobs
    ∙ rw (e, first-passes (has_id key) jobs j e) refl

-- the rounds that the policy allows: a ConfigurationError has two attempts whatever the maximum
abbrev pub cap : ℕ → ℕ
cap m = max 2 m

-- How a round ends for a row with these counters.
pub data Round (key attempts cap_attempts : ℕ) : Next → Type 0 where
  ends :
      (ex : Executor) (j : BackgroundJob)
      → get_job key ex.jobs ≡ some j
      → is_over j.status ≡ true
      → j.attempts ≡ suc attempts
      → is_tracked key ex ≡ false
      → Round key attempts cap_attempts (stop ex)
  goes_on :
      (ex : Executor) (j : BackgroundJob)
      → get_job key ex.jobs ≡ some j
      → is_over j.status ≡ false
      → j.attempts ≡ suc attempts
      → cap j.max_attempts ≡ cap_attempts
      → suc attempts < cap_attempts
      → Round key attempts cap_attempts (retry ex)

retry_room : (c : Bool) (n m : ℕ) → should_dead_letter c n m ≡ false → n < cap m
unfolding should_dead_letter
retry_room true n m h = ground arith
retry_room false n m h = ground arith

failure-Round :
    (key : ℕ) (c : Bool) (text : String) (n m : ℕ) (ex : Executor) (j : BackgroundJob)
    → get_job key ex.jobs ≡ some j
    → j.attempts ≡ suc n
    → j.max_attempts ≡ m
    → Round key n (cap m) (failure key c text (suc n) m ex)
failure-Round key c text n m ex j e a b =
    let gone = discard-gone key ex.active_job_ids in
    elim (Bool-cases (should_dead_letter c (suc n) m)) [
      | inl give_up ↦
          rw give_up
            (ends _ _ (get-set key (fail_job true c text) ex.jobs j (λ x. refl) e) refl a gone)
      | inr again ↦ rw again (
          goes_on _ _ (get-set key (fail_job false c text) ex.jobs j (λ x. refl) e) refl a
            (ap cap b) (retry_room c (suc n) m again))
    ]

finish-Round :
    (key now n m : ℕ) (o : HandlerOutcome) (ex : Executor) (j : BackgroundJob)
    → get_job key ex.jobs ≡ some j
    → j.attempts ≡ suc n
    → j.max_attempts ≡ m
    → Round key n (cap m) (finish_attempt key now (suc n) m o ex)
unfolding finish_attempt
finish-Round key now n m returned ex j e a b =
    rw (e, finish_attempt)
      (ends _ _ (get-set key (complete_job now) ex.jobs j (λ x. refl) e) refl a
        (discard-gone key ex.active_job_ids))
finish-Round key now n m (raised_configuration_error text) ex j e a b =
    rw (e, finish_attempt) (failure-Round key true text n m ex j e a b)
finish-Round key now n m (raised text) ex j e a b =
    rw (e, finish_attempt) (failure-Round key false text n m ex j e a b)

-- One round of a row that is not over: it ends the job, or fails it with rounds left.
pub attempt-Round :
    (handlers : Registry) (key started at : ℕ) (o : HandlerOutcome) (ex : Executor)
    (j : BackgroundJob)
    → get_job key ex.jobs ≡ some j
    → is_over j.status ≡ false
    → Round key j.attempts
        (cap j.max_attempts)
        (attempt handlers key started at o (λ jobs. jobs) ex)
unfolding attempt
attempt-Round handlers key started at o ex j e live =
    let more : suc j.attempts ≡ j.attempts + 1 = omega arith in
    rw (e, live, attempt)
      (subst
        (λ k. Round key j.attempts (cap j.max_attempts) (
          finish_attempt key at k j.max_attempts (outcome_of handlers j.job_type o)
            (put_job key (begin_job started) ex)))
        more
        (finish-Round key at j.attempts j.max_attempts (outcome_of handlers j.job_type o)
          (put_job key (begin_job started) ex) (begin_job started j)
          (get-set key (begin_job started) ex.jobs j (λ x. refl) e) (sym more) refl))

-- The executor has come to an end of the job: completed or dead, no longer tracked, after between
-- one more attempt and the cap.
abbrev pub Ended : ℕ → BackgroundJob → Fate → Type 0
Ended key j (finished ex) =
    (j' : BackgroundJob) × (get_job key ex.jobs ≡ some j')
    × (is_over j'.status ≡ true)
    × (j.attempts < j'.attempts)
    × (j'.attempts ≤ max (cap j.max_attempts) (suc j.attempts))
    × (is_tracked key ex ≡ false)
Ended key j (out_of_fuel ex) = ⊥

widen :
    (key : ℕ) (j j' : BackgroundJob) (f : Fate)
    → j'.attempts ≡ suc j.attempts
    → cap j'.max_attempts ≡ cap j.max_attempts
    → suc j.attempts < cap j.max_attempts
    → Ended key j' f
    → Ended key j f
widen key j j' (out_of_fuel ex) a c room h = h
widen key j j' (finished ex) a c room (x, e, over, low, high, gone) =
    (x, e, over, omega arith, omega arith, gone)

module _ (handlers : Registry) (key : ℕ) (env : ℕ → HandlerOutcome × ℕ) where
  after-Round :
      (fuel : ℕ) (j : BackgroundJob) (n : Next)
      → Round key j.attempts (cap j.max_attempts) n
      → ((ex : Executor) (j' : BackgroundJob)
          → get_job key ex.jobs ≡ some j'
          → is_over j'.status ≡ false
          → j'.attempts ≡ suc j.attempts
          → cap j'.max_attempts ≡ cap j.max_attempts
          → suc j.attempts < cap j.max_attempts
          → Ended key j' (run_job fuel handlers key env ex))
      → Ended key j
          (elim n [ stop ex' ↦ finished ex' | retry ex' ↦ run_job fuel handlers key env ex' ])
  after-Round fuel j _ (ends ex j' e over a gone) go = (j', e, over, omega arith, omega arith, gone)
  after-Round fuel j _ (goes_on ex j' e live a c room) go =
      widen key j j' (run_job fuel handlers key env ex) a c room (go ex j' e live a c room)

  -- Whatever the handler does in each round, a job that is not over, run with fuel for the attempts
  -- that it has left, ends completed or dead and untracked, after at least one more attempt and at
  -- most the cap (or one more, where the cap is already used up).
  pub run_job-Ended :
      (fuel : ℕ) (ex : Executor) (j : BackgroundJob)
      → get_job key ex.jobs ≡ some j
      → is_over j.status ≡ false
      → 1 ≤ fuel
      → cap j.max_attempts ≤ fuel + j.attempts
      → Ended key j (run_job fuel handlers key env ex)
  unfolding run_job
  run_job-Ended zero ex j e live one enough = absurd (omega arith)
  run_job-Ended (suc fuel) ex j e live one enough =
      after-Round fuel j
        (attempt handlers key (env fuel).1 (env fuel).1 (env fuel).0 (λ jobs. jobs) ex)
        (attempt-Round handlers key (env fuel).1 (env fuel).1 (env fuel).0 ex j e live)
        (λ ex' j' e' live' a c room. run_job-Ended fuel ex' j' e' live' (omega arith) (omega arith))
