-- ===== src/Jobs/Enqueue/Rollback.antt =====
-- What the end of the caller's transaction does to the jobs that it has enqueued.
use Prim.Native.String.{String}
use qora.Base.{
  ℕ, ◌≡◌, refl, Bool, true, false, some, List, [], ◌∷◌, ◌++◌, arith, any_row, ◌==◌, if◌then◌else◌,
  ◌||◌, ◌∙◌, All, Bool-cases, inl, inr,
}
use qora.Jobs.Model.{Registry, is_registered}
use qora.Jobs.Executor.{discard}
use qora.Jobs.Enqueue.{
  Operation, enqueue, commit, rollback, perform, perform_each, Caller, enqueue_within, after_commit,
  after_rollback, discard_all, new_job,
}

abbrev pub holds : ℕ → List ℕ → Bool
holds key l = any_row (λ k. k == key) l

holds-discard :
    (key k : ℕ) (l : List ℕ) → holds key (discard k l) ≡ (if k == key then false else holds key l)
holds-discard key k [] = ground arith
holds-discard key k (x ∷ l) = ground (arith, holds-discard key k l)

holds-discard_all :
    (key : ℕ) (keys l : List ℕ)
    → holds key (discard_all keys l) ≡ (if holds key keys then false else holds key l)
holds-discard_all key [] l = refl
holds-discard_all key (k ∷ keys) l =
    ground (arith, holds-discard_all key keys (discard k l), holds-discard key k l)

any_row-append {ℓ} :
    {A : Type ℓ} (p : A → Bool) (xs ys : List A)
    → any_row p (xs ++ ys) ≡ (any_row p xs || any_row p ys)
any_row-append p [] ys = refl
any_row-append p (x ∷ xs) ys = ground (arith, any_row-append p xs ys)

-- `uuid.uuid4` gives no later job this id
abbrev pub IsOther : ℕ → Operation → Type 0
IsOther key (enqueue k kind payload max now) = (k == key) ≡ false
IsOther key commit = Unit
IsOther key rollback = Unit

-- nothing of the session still speaks of the job
pub record IsGone (key : ℕ) (c : Caller) : Type 0 where
  pub untracked : holds key c.executor.active_job_ids ≡ false
  pub unstaged : any_row (λ j. j.id == key) c.staged ≡ false
  pub unheard : holds key c.commit_listeners ≡ false

-- it has no row and no task that it had not before
pub record IsKept (key : ℕ) (c c' : Caller) : Type 0 where
  pub row : any_row (λ j. j.id == key) c'.executor.jobs ≡ any_row (λ j. j.id == key) c.executor.jobs
  pub task : holds key c'.executor.tasks ≡ holds key c.executor.tasks

rolled_back-IsGone :
    (key : ℕ) (c : Caller) → holds key c.rollback_listeners ≡ true → IsGone key (after_rollback c)
unfolding after_rollback
rolled_back-IsGone key c h = record {
  untracked = holds-discard_all key c.rollback_listeners c.executor.active_job_ids ∙ rw h refl;
  unstaged = refl;
  unheard = holds-discard_all key c.rollback_listeners c.commit_listeners ∙ rw h refl;
}

commit-IsGone : (key : ℕ) (c : Caller) → IsGone key c → IsGone key (after_commit c)
unfolding after_commit
commit-IsGone key c gone = record { untracked = gone.untracked; unstaged = refl; unheard = refl }

commit-IsKept : (key : ℕ) (c : Caller) → IsGone key c → IsKept key c (after_commit c)
unfolding after_commit
commit-IsKept key c gone = record {
  row = any_row-append (λ j. j.id == key) c.executor.jobs c.staged ∙ ground (arith, gone.unstaged);
  task =
      any_row-append (λ k. k == key) c.commit_listeners c.executor.tasks ∙ rw (gone.unheard) refl;
}

rollback-IsGone : (key : ℕ) (c : Caller) → IsGone key c → IsGone key (after_rollback c)
unfolding after_rollback
rollback-IsGone key c gone = record {
  untracked =
      holds-discard_all key c.rollback_listeners c.executor.active_job_ids
      ∙ ground (arith, gone.untracked);
  unstaged = refl;
  unheard =
      holds-discard_all key c.rollback_listeners c.commit_listeners ∙ ground (arith, gone.unheard);
}

rollback-IsKept : (key : ℕ) (c : Caller) → IsKept key c (after_rollback c)
unfolding after_rollback
rollback-IsKept key c = record { row = refl; task = refl }

enqueue-IsGone :
    (handlers : Registry) (key k : ℕ) (kind payload : String) (max now : ℕ) (c : Caller)
    → (k == key) ≡ false
    → IsGone key c
    → IsGone key (perform handlers (enqueue k kind payload max now) c)
unfolding enqueue_within
enqueue-IsGone handlers key k kind payload max now c ne gone =
    elim (Bool-cases (is_registered kind handlers)) [
      | inl e ↦ rw e (record {
        untracked = rw ne (gone.untracked);
        unstaged =
            any_row-append (λ j. j.id == key) c.staged (new_job k kind payload max now ∷ [])
            ∙ rw (gone.unstaged, ne) refl;
        unheard = rw ne (gone.unheard);
      })
      | inr e ↦ rw e gone
    ]

enqueue-IsKept :
    (handlers : Registry) (key k : ℕ) (kind payload : String) (max now : ℕ) (c : Caller)
    → IsKept key c (perform handlers (enqueue k kind payload max now) c)
unfolding enqueue_within
enqueue-IsKept handlers key k kind payload max now c =
    elim (Bool-cases (is_registered kind handlers)) [
      | inl e ↦ rw e (record { row = refl; task = refl })
      | inr e ↦ rw e (record { row = refl; task = refl })
    ]

perform-IsGone :
    (handlers : Registry) (key : ℕ) (op : Operation) (c : Caller)
    → IsOther key op
    → IsGone key c
    → IsGone key (perform handlers op c) × IsKept key c (perform handlers op c)
perform-IsGone handlers key (enqueue k kind payload max now) c ne gone = (
  enqueue-IsGone handlers key k kind payload max now c ne gone,
  enqueue-IsKept handlers key k kind payload max now c,
)
perform-IsGone handlers key commit c other gone =
    (commit-IsGone key c gone, commit-IsKept key c gone)
perform-IsGone handlers key rollback c other gone =
    (rollback-IsGone key c gone, rollback-IsKept key c)

perform_each-IsGone :
    (handlers : Registry) (key : ℕ) (ops : List Operation) (c : Caller)
    → All (IsOther key) ops
    → IsGone key c
    → IsGone key (perform_each handlers ops c) × IsKept key c (perform_each handlers ops c)
unfolding perform_each
perform_each-IsGone handlers key [] c others gone = (gone, record { row = refl; task = refl })
perform_each-IsGone handlers key (op ∷ ops) c (other, others) gone =
    let (still, kept) = perform-IsGone handlers key op c other gone in
    let (last, later) = perform_each-IsGone handlers key ops (perform handlers op c) others still in
    (last, record { row = later.row ∙ kept.row; task = later.task ∙ kept.task })

enqueued-listens :
    (handlers : Registry) (key : ℕ) (kind payload : String) (max now : ℕ) (c c' : Caller)
    → enqueue_within handlers key kind payload max now c ≡ some c'
    → (holds key c'.rollback_listeners ≡ true) × IsKept key c (after_rollback c')
unfolding enqueue_within after_rollback
enqueued-listens handlers key kind payload max now c c' h =
    (ground arith, record { row = ground arith; task = ground arith })

-- A job enqueued in a transaction that rolls back is tracked no more, and whatever else the session
-- then enqueues, commits or rolls back, it stays so: no commit adds its row to the table or creates
-- a task for it. Any job that the transaction had no cleanup for is tracked after the rollback as
-- before. The ids of the jobs that are enqueued later are others.
pub enqueue-rollback :
    (handlers : Registry) (key : ℕ) (kind payload : String) (max now : ℕ) (c c' : Caller)
    (ops : List Operation)
    → enqueue_within handlers key kind payload max now c ≡ some c'
    → All (IsOther key) ops
    → let later = perform_each handlers ops (after_rollback c') in
      IsGone key later
      × IsKept key c later
      × ((k : ℕ)
          → (key == k) ≡ false
          → holds k c.rollback_listeners ≡ false
          → holds k (after_rollback c').executor.active_job_ids ≡ holds k c.executor.active_job_ids)
unfolding enqueue_within after_rollback
enqueue-rollback handlers key kind payload max now c c' ops h others =
    let (listens, before) = enqueued-listens handlers key kind payload max now c c' h in
    let (gone, after) =
      perform_each-IsGone handlers key ops (after_rollback c') others
        (rolled_back-IsGone key c' listens) in
    (
      gone,
      record { row = after.row ∙ before.row; task = after.task ∙ before.task },
      λ k ne free.
          ground (arith, holds-discard_all k c'.rollback_listeners c'.executor.active_job_ids),
    )

-- A job enqueued in a transaction has no task until it commits; then its row is in the table and
-- its task exists.
enqueue-commit :
    (handlers : Registry) (key : ℕ) (kind payload : String) (max now : ℕ) (c c' : Caller)
    → enqueue_within handlers key kind payload max now c ≡ some c'
    → (c'.executor.tasks ≡ c.executor.tasks)
      × (c'.executor.jobs ≡ c.executor.jobs)
      × (holds key (after_commit c').executor.tasks ≡ true)
      × (any_row (λ j. j.id == key) (after_commit c').executor.jobs ≡ true)
unfolding enqueue_within after_commit
enqueue-commit handlers key kind payload max now c c' h = (
  ground arith,
  ground arith,
  ground arith,
  ground (
    arith,
    any_row-append (λ j. j.id == key) c.executor.jobs c'.staged,
    any_row-append (λ j. j.id == key) c.staged (new_job key kind payload max now ∷ []),
  ),
)
