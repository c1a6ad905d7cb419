-- ===== src/Scheduler/Index/Writes.antt =====
-- The unique index under single writes to the table.
use qora.Base.{ℕ, ◌≡◌, refl, Bool, true, false, List, [], ◌∷◌, ◌++◌, arith, any_row}
use qora.Store.{update_where}
use qora.Store.Rows.{ScheduledCall, is_in_progress}
use qora.Scheduler.Claim.{holds_lead, index_holds}

-- the row keeps its lead, and is in_progress only if it was
pub record IsQuiet (r r' : ScheduledCall) : Type 0 where
  pub lead : r'.lead_id ≡ r.lead_id
  pub starts_none : is_in_progress r'.status ≡ true → is_in_progress r.status ≡ true

module _ (p : ScheduledCall → Bool) (f : ScheduledCall → ScheduledCall)
    (quiet : (r : ScheduledCall) → IsQuiet r (f r)) where
  holds_lead-update :
      (lead : ℕ) (rows : List ScheduledCall)
      → any_row (holds_lead lead) (update_where p f rows) ≡ true
      → any_row (holds_lead lead) rows ≡ true
  holds_lead-update lead [] h = h
  holds_lead-update lead (r ∷ rows) h =
      ground (arith, holds_lead-update lead rows, (quiet r).lead, (quiet r).starts_none)

  pub index_holds-update :
      (rows : List ScheduledCall)
      → index_holds rows ≡ true
      → index_holds (update_where p f rows) ≡ true
  index_holds-update [] h = refl
  index_holds-update (r ∷ rows) h = ground (
    arith,
    index_holds-update rows,
    (quiet r).lead,
    (quiet r).starts_none,
    holds_lead-update r.lead_id rows,
  )

holds_lead-append :
    (lead : ℕ) (rows : List ScheduledCall) (sc : ScheduledCall)
    → is_in_progress sc.status ≡ false
    → any_row (holds_lead lead) (rows ++ sc ∷ []) ≡ any_row (holds_lead lead) rows
holds_lead-append lead [] sc h = ground arith
holds_lead-append lead (r ∷ rows) sc h = ground (arith, holds_lead-append lead rows sc h)

pub index_holds-append :
    (rows : List ScheduledCall) (sc : ScheduledCall)
    → is_in_progress sc.status ≡ false
    → index_holds (rows ++ sc ∷ []) ≡ index_holds rows
index_holds-append [] sc h = ground arith
index_holds-append (r ∷ rows) sc h =
    ground (arith, index_holds-append rows sc h, holds_lead-append r.lead_id rows sc h)
