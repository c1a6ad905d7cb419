-- ===== src/Scheduler/Claim.antt =====
-- backend/app/scheduler/service.py: the compare-and-set claim, `claim_due_scheduled_calls`, and
-- `mark_due_calls_in_progress`; with the unique index `uq_scheduled_calls_active_lead` of
-- backend/app/scheduler/models.py.
pub mod Rows
pub mod Race
pub mod Exclusive
use qora.Base.{
  ℕ, Bool, true, false, none, some, List, [], ◌∷◌, ◌&&◌, not, leb, ◌==◌, suc, if◌then◌else◌,
  any_row, where_rows, count_rows, take,
}
use qora.Store.{Db, Session, commit, rollback, put_scheduled, update_where}
use qora.Store.Rows.{ScheduledCall, in_progress, is_pending, is_in_progress}
use qora.Scheduler.Queue.{order_by_time, get_scheduled_call}

-- an in_progress row of the lead
abbrev pub holds_lead : ℕ → ScheduledCall → Bool
holds_lead lead r = is_in_progress r.status && r.lead_id == lead

-- The index: at most one in_progress row for each lead.
abbrev pub index_holds : List ScheduledCall → Bool
index_holds [] = true
index_holds (r ∷ rows) =
    not (is_in_progress r.status && any_row (holds_lead r.lead_id) rows) && index_holds rows

abbrev pub is_claimable : ℕ → ScheduledCall → Bool
is_claimable key r = r.id == key && is_pending r.status

abbrev pub claim_row : ℕ → ScheduledCall → ScheduledCall
claim_row now r = record r { status = in_progress; updated_at = now }

abbrev claimed_rows : ℕ → ℕ → List ScheduledCall → List ScheduledCall
claimed_rows key now rows = update_where (is_claimable key) (claim_row now) rows

-- `_claim_one`: the conditional UPDATE raises IntegrityError where its result breaks the index.
unfoldable pub claim_one : ℕ → ℕ → Session → Bool × Session
claim_one key now s =
    if index_holds (claimed_rows key now s.view.scheduled_calls)
    then (
      count_rows (is_claimable key) s.view.scheduled_calls == 1,
      commit (put_scheduled (claimed_rows key now s.view.scheduled_calls) s),
    )
    else (false, rollback s)

-- the candidate SELECT
abbrev pub is_due : ℕ → ScheduledCall → Bool
is_due now r = is_pending r.status && leb r.scheduled_at now

unfoldable pub due_candidates : ℕ → ℕ → Db → List ScheduledCall
due_candidates now limit db =
    take limit (order_by_time (where_rows (is_due now) db.scheduled_calls))

-- `db.refresh(sc)`, then `claimed.append(sc)`
abbrev pub refreshed : ScheduledCall → Db → ScheduledCall
refreshed sc db = elim (get_scheduled_call sc.id db) [ some r ↦ r | none ↦ sc ]

unfoldable pub claim_each : List ScheduledCall → ℕ → Session → List ScheduledCall × Session
claim_each [] now s = ([], s)
claim_each (sc ∷ rest) now s =
    let (won, s') = claim_one sc.id now s in
    let (claimed, s'') = claim_each rest now s' in
    if won then (refreshed sc s'.view ∷ claimed, s'') else (claimed, s'')

unfoldable pub claim_due_scheduled_calls : ℕ → ℕ → Session → List ScheduledCall × Session
unfolding due_candidates claim_each
claim_due_scheduled_calls now limit s = claim_each (due_candidates now limit s.view) now s

-- one round of the promote loop: the SAVEPOINT is rolled back where the flush breaks the index
abbrev promoted_rows : ℕ → ℕ → List ScheduledCall → List ScheduledCall
promoted_rows key now rows = update_where (λ r. r.id == key) (claim_row now) rows

unfoldable pub promote_each : List ScheduledCall → ℕ → Session → ℕ × Session
promote_each [] now s = (0, s)
promote_each (sc ∷ rest) now s =
    let rows = promoted_rows sc.id now s.view.scheduled_calls in
    let holds = index_holds rows in
    let (n, s') = promote_each rest now (if holds then put_scheduled rows s else s) in
    (if holds then suc n else n, s')

unfoldable pub mark_due_calls_in_progress : ℕ → Session → ℕ × Session
unfolding promote_each
mark_due_calls_in_progress now s =
    promote_each (where_rows (is_due now) s.view.scheduled_calls) now s
