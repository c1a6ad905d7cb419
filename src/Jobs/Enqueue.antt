-- ===== src/Jobs/Enqueue.antt =====
-- backend/app/jobs/executor.py: `enqueue`, on a session of its own or inside the caller's
-- transaction, with the one-shot listeners on that transaction's end.
pub mod Rollback
use Prim.Native.String.{String}
use qora.Base.{ℕ, Bool, true, false, Option, none, some, List, [], ◌∷◌, ◌++◌, ◌==◌, if◌then◌else◌}
use qora.Jobs.Model.{BackgroundJob, pending, Registry, is_registered}
use qora.Jobs.Executor.{Executor, discard}

-- The executor, and the caller's session: rows flushed and not committed, and the jobs whose
-- `_dispatch_after_commit` and whose `_cleanup_after_rollback` listen on it.
pub record Caller : Type 0 where
  pub executor : Executor
  pub staged : List BackgroundJob
  pub commit_listeners : List ℕ
  pub rollback_listeners : List ℕ

abbrev pub new_job : ℕ → String → String → ℕ → ℕ → BackgroundJob
new_job key kind payload max_attempts now = record {
  id = key;
  job_type = kind;
  payload = payload;
  status = pending;
  attempts = 0;
  max_attempts = max_attempts;
  created_at = now;
  started_at = none;
  completed_at = none;
  error = none;
}

-- `none` is the ConfigurationError of `get_handler`, raised before anything is written.
unfoldable pub enqueue_fresh : Registry → ℕ → String → String → ℕ → ℕ → Caller → Option Caller
enqueue_fresh handlers key kind payload max_attempts now c =
    if is_registered kind handlers
    then some (record c {
      executor = record {
        jobs = c.executor.jobs ++ new_job key kind payload max_attempts now ∷ [];
        active_job_ids = key ∷ c.executor.active_job_ids;
        tasks = key ∷ c.executor.tasks;
      };
    })
    else none

-- with the caller's session: flushed, tracked, and two listeners registered
unfoldable pub enqueue_within : Registry → ℕ → String → String → ℕ → ℕ → Caller → Option Caller
enqueue_within handlers key kind payload max_attempts now c =
    if is_registered kind handlers
    then some (record {
      executor = record (c.executor) { active_job_ids = key ∷ c.executor.active_job_ids };
      staged = c.staged ++ new_job key kind payload max_attempts now ∷ [];
      commit_listeners = key ∷ c.commit_listeners;
      rollback_listeners = key ∷ c.rollback_listeners;
    })
    else none

abbrev pub discard_all : List ℕ → List ℕ → List ℕ
discard_all [] l = l
discard_all (k ∷ keys) l = discard_all keys (discard k l)

-- The session commits: each `_dispatch_after_commit` creates a task and removes its pair, and is
-- gone itself (`once=True`).
unfoldable pub after_commit : Caller → Caller
after_commit c = record {
  executor = record (c.executor) {
    jobs = c.executor.jobs ++ c.staged;
    tasks = c.commit_listeners ++ c.executor.tasks;
  };
  staged = [];
  commit_listeners = [];
  rollback_listeners = discard_all c.commit_listeners c.rollback_listeners;
}

-- The session rolls back: each `_cleanup_after_rollback` stops the tracking of its job and removes
-- its pair, and is gone itself.
unfoldable pub after_rollback : Caller → Caller
after_rollback c = record {
  executor = record (c.executor) {
    active_job_ids = discard_all c.rollback_listeners c.executor.active_job_ids;
  };
  staged = [];
  commit_listeners = discard_all c.rollback_listeners c.commit_listeners;
  rollback_listeners = [];
}

-- what a caller does with its session
pub data Operation : Type 0 where
  enqueue : (key : ℕ) → String → String → (max_attempts now : ℕ) → Operation
  commit rollback : Operation

-- A call that raises leaves the session as it is.
abbrev pub or_unchanged : Caller → Option Caller → Caller
or_unchanged c none = c
or_unchanged c (some c') = c'

abbrev pub perform : Registry → Operation → Caller → Caller
perform handlers (enqueue key kind payload max_attempts now) c =
    or_unchanged c (enqueue_within handlers key kind payload max_attempts now c)
perform handlers commit c = after_commit c
perform handlers rollback c = after_rollback c

unfoldable pub perform_each : Registry → List Operation → Caller → Caller
perform_each handlers [] c = c
perform_each handlers (op ∷ ops) c = perform_each handlers ops (perform handlers op c)
