-- ===== src/Scheduler/Reaper/Release.antt =====
-- About `_reap_class_a` of backend/app/scheduler/service.py and the row that it looks at.
use qora.Base.{
  ℕ, ◌<◌, ◌≡◌, refl, Bool, true, false, not, ◌||◌, Option, none, some, List, arith, where_rows,
  first_row, if◌then◌else◌, Option-cases, Bool-cases, inl, inr, ltb, ◌⊎◌, first-count, count_mono,
  first-passes, ◌==◌, ◌∙◌, ◌&&◌, is_none,
}
use qora.Store.{Session, Db, get_client, update_where}
use qora.Store.Updates.{map_row, first-update}
use qora.Store.Rows.{ScheduledCall, QueueStatus, pending, failed, is_in_progress}
use qora.Scheduler.Queue.{get_scheduled_call}
use qora.Scheduler.Claim.Rows.{HasKeys, has_key}
use qora.Scheduler.Reaper.{
  is_releasable, release_row, cas_release_scheduled_call, is_aged_out, release_time, reap_class_a,
}

find-release :
    (key : ℕ) (sc : ScheduledCall) (b : Bool) (q : QueueStatus) (at : Option ℕ) (now : ℕ)
    (rows : List ScheduledCall)
    → first_row
        (where_rows (has_key key) (update_where (is_releasable b sc) (release_row q at now) rows))
      ≡ map_row
          (λ r. if is_releasable b sc r then release_row q at now r else r)
          (first_row (where_rows (has_key key) rows))
find-release key sc b q none now rows =
    first-update (has_key key) (is_releasable b sc) (release_row q none now) (λ r. refl) rows
find-release key sc b q (some t) now rows =
    first-update (has_key key) (is_releasable b sc) (release_row q (some t) now) (λ r. refl) rows

-- A row that another writer has moved on, or linked to a call, since it was read stays as it is.
release_keeps :
    (key : ℕ) (sc : ScheduledCall) (b : Bool) (q : QueueStatus) (at : Option ℕ) (now : ℕ)
    (s : Session) (r : ScheduledCall)
    → s.view ≡ s.durable
    → get_scheduled_call key s.view ≡ some r
    → is_releasable b sc r ≡ false
    → get_scheduled_call key (cas_release_scheduled_call sc b q at now s).1.view ≡ some r
unfolding cas_release_scheduled_call
release_keeps key sc b q at now s r settled found other =
    ground (arith, find-release key sc b q at now s.view.scheduled_calls)

release_hits :
    (sc : ScheduledCall) (b : Bool) (q : QueueStatus) (at : Option ℕ) (now : ℕ) (s : Session)
    (r : ScheduledCall)
    → HasKeys s.view.scheduled_calls
    → get_scheduled_call sc.id s.view ≡ some r
    → is_releasable b sc r ≡ true
    → get_scheduled_call sc.id (cas_release_scheduled_call sc b q at now s).1.view
      ≡ some (release_row q at now r)
unfolding cas_release_scheduled_call
release_hits sc b q at now s r keys found mine = ground (
  arith,
  find-release sc.id sc b q at now s.view.scheduled_calls,
  keys sc.id,
  first-count (has_key sc.id) (is_releasable b sc) s.view.scheduled_calls r found mine,
  count_mono (is_releasable b sc) (has_key sc.id) (λ x e. ground arith) s.view.scheduled_calls,
)

-- The verdict of class (a): failed past six hours or out of attempts, else pending again, at its own
-- time or, outside the allowed hours, at a later one.
abbrev pub Verdict : ℕ → ScheduledCall → ScheduledCall → ScheduledCall → Type 0
Verdict now sc r r' =
    if is_aged_out now sc || not (ltb sc.attempt_number sc.max_attempts)
    then (r'.status ≡ failed) × (r'.scheduled_at ≡ r.scheduled_at)
    else (r'.status ≡ pending) × ((r'.scheduled_at ≡ r.scheduled_at) ⊎ (now < r'.scheduled_at))

released-Verdict :
    (now : ℕ) (r : ScheduledCall) (o : Option ℕ)
    → ((t : ℕ) → o ≡ some t → now < t)
    → ((release_row pending o now r).status ≡ pending)
      × (((release_row pending o now r).scheduled_at ≡ r.scheduled_at)
          ⊎ (now < (release_row pending o now r).scheduled_at))
released-Verdict now r none h = (refl, inl refl)
released-Verdict now r (some t) h = (refl, inr (h t refl))

release_time-later :
    (now : ℕ) (sc : ScheduledCall) (db : Db) (t : ℕ) → release_time now sc db ≡ some t → now < t
unfolding release_time
release_time-later now sc db t h = elim (Option-cases (get_client sc.client_id db)) [
  | inl e ↦ cc (rw (e, release_time) at h)
  | inr (c, e) ↦ ground (arith, h, e)
]

-- claimed, and linked to no call
abbrev pub is_stranded : ScheduledCall → Bool
is_stranded r = is_in_progress r.status && is_none r.outcome_session_id

stranded-releasable :
    (sc r : ScheduledCall) → (r.id == sc.id) ≡ true → is_stranded r ≡ is_releasable true sc r
stranded-releasable sc r e = ground (arith, e)

-- The reaper gives a stranded row that was never dialed exactly one verdict (failed past six hours
-- or out of attempts, else pending at its own time or at a later one), and leaves the row as it is
-- where it has moved on or been linked to a call since it was read. The table is committed and its
-- keys are unique.
pub reap_class_a_verdict :
    (sc : ScheduledCall) (now : ℕ) (s : Session) (r : ScheduledCall)
    → s.view ≡ s.durable
    → HasKeys s.view.scheduled_calls
    → get_scheduled_call sc.id s.view ≡ some r
    → (r' : ScheduledCall) × (get_scheduled_call sc.id (reap_class_a sc now s).view ≡ some r')
      × (if is_stranded r then Verdict now sc r r' else r' ≡ r)
unfolding reap_class_a
reap_class_a_verdict sc now s r settled keys found = elim (Bool-cases (is_releasable true sc r)) [
  | inr other ↦ (
    r,
    elim (Bool-cases (is_aged_out now sc || not (ltb sc.attempt_number sc.max_attempts))) [
      | inl e ↦ rw e (release_keeps sc.id sc true failed none now s r settled found other)
      | inr e ↦ rw e (
          release_keeps sc.id sc true pending (release_time now sc s.view) now s r settled found
            other)
    ],
    rw
        (stranded-releasable sc r (first-passes (has_key sc.id) s.view.scheduled_calls r found)
          ∙ other)
        refl,
  )
  | inl mine ↦
      elim (Bool-cases (is_aged_out now sc || not (ltb sc.attempt_number sc.max_attempts))) [
        | inl e ↦ (
          release_row failed none now r,
          rw e (release_hits sc true failed none now s r keys found mine),
          rw
              (
                stranded-releasable sc r
                      (first-passes (has_key sc.id) s.view.scheduled_calls r found)
                    ∙ mine,
                e,
              )
              (refl, refl),
        )
        | inr e ↦ (
          release_row pending (release_time now sc s.view) now r,
          rw e (release_hits sc true pending (release_time now sc s.view) now s r keys found mine),
          rw
              (
                stranded-releasable sc r
                      (first-passes (has_key sc.id) s.view.scheduled_calls r found)
                    ∙ mine,
                e,
              )
              (released-Verdict now r (release_time now sc s.view)
                (release_time-later now sc s.view)),
        )
      ]
]
