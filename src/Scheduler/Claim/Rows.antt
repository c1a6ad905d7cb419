-- ===== src/Scheduler/Claim/Rows.antt =====
-- Lemmas on the rows that a claim reads and writes.
use qora.Base.{
  ℕ, ◌≤◌, ◌≡◌, refl, Bool, true, false, ◌&&◌, List, [], ◌∷◌, Option, some, arith, any_row,
  count_rows, where_rows, first_row, ◌==◌, Bool-cases, inl, inr,
}
use qora.Store.{update_where}
use qora.Store.Rows.{ScheduledCall}
use qora.Scheduler.Claim.{holds_lead, index_holds, is_claimable, claim_row}

abbrev pub has_key : ℕ → ScheduledCall → Bool
has_key key r = r.id == key

-- the primary key
abbrev pub HasKeys : List ScheduledCall → Type 0
HasKeys rows = (key : ℕ) → count_rows (has_key key) rows ≤ 1

-- the row `key` of `lead` is in_progress
abbrev pub owns : ℕ → ℕ → ScheduledCall → Bool
owns key lead r = r.id == key && holds_lead lead r

abbrev pub Owned : ℕ → ℕ → List ScheduledCall → Type 0
Owned key lead rows = any_row (owns key lead) rows ≡ true

pub count-key-update :
    (p : ScheduledCall → Bool) (f : ScheduledCall → ScheduledCall)
    → ((r : ScheduledCall) → (f r).id ≡ r.id)
    → (key : ℕ) (rows : List ScheduledCall)
    → count_rows (has_key key) (update_where p f rows) ≡ count_rows (has_key key) rows
count-key-update p f same key [] = refl
count-key-update p f same key (r ∷ rows) =
    ground (arith, same r, count-key-update p f same key rows)

pub Owned-claim :
    (k now key lead : ℕ) (rows : List ScheduledCall)
    → Owned key lead rows
    → Owned key lead (update_where (is_claimable k) (claim_row now) rows)
Owned-claim k now key lead [] h = h
Owned-claim k now key lead (r ∷ rows) h = ground (arith, Owned-claim k now key lead rows)

Owned-count :
    (key lead : ℕ) (rows : List ScheduledCall)
    → Owned key lead rows
    → 1 ≤ count_rows (has_key key) rows
Owned-count key lead [] h = cc
Owned-count key lead (r ∷ rows) h = ground (arith, Owned-count key lead rows)

pub claimable-le-key :
    (key : ℕ) (rows : List ScheduledCall)
    → count_rows (is_claimable key) rows ≤ count_rows (has_key key) rows
claimable-le-key key [] = omega arith
claimable-le-key key (r ∷ rows) = ground (arith, claimable-le-key key rows)

-- one key, one row: what is in_progress is not claimable
pub Owned-not_claimable :
    (key lead : ℕ) (rows : List ScheduledCall)
    → count_rows (has_key key) rows ≤ 1
    → Owned key lead rows
    → count_rows (is_claimable key) rows ≡ 0
Owned-not_claimable key lead [] h o = refl
Owned-not_claimable key lead (r ∷ rows) h o =
    ground (
      arith,
      Owned-not_claimable key lead rows,
      Owned-count key lead rows,
      claimable-le-key key rows,
    )

holds_lead_of_Owned :
    (key lead : ℕ) (rows : List ScheduledCall)
    → Owned key lead rows
    → any_row (holds_lead lead) rows ≡ true
holds_lead_of_Owned key lead [] h = h
holds_lead_of_Owned key lead (r ∷ rows) h = ground (arith, holds_lead_of_Owned key lead rows)

-- the index leaves one row to a lead
pub Owned-unique :
    (i j lead : ℕ) (rows : List ScheduledCall)
    → index_holds rows ≡ true
    → Owned i lead rows
    → Owned j lead rows
    → i ≡ j
Owned-unique i j lead [] h a b = cc
Owned-unique i j lead (r ∷ rows) h a b = ground (
  arith,
  Owned-unique i j lead rows,
  holds_lead_of_Owned i lead rows,
  holds_lead_of_Owned j lead rows,
)

no_key :
    (key : ℕ) (rows : List ScheduledCall)
    → count_rows (has_key key) rows ≡ 0
    → first_row (where_rows (has_key key) rows) ≡ Option.none
no_key key [] h = refl
no_key key (r ∷ rows) h = ground (arith, no_key key rows)

-- the row that a won claim has written is the one that a refresh reads
pub claimed_row :
    (key now : ℕ) (rows : List ScheduledCall)
    → count_rows (has_key key) rows ≤ 1
    → count_rows (is_claimable key) rows ≡ 1
    → let rows' = update_where (is_claimable key) (claim_row now) rows in
      (r : ScheduledCall) × (first_row (where_rows (has_key key) rows') ≡ some r)
      × (r.id ≡ key)
      × Owned key r.lead_id rows'
claimed_row key now [] h c = cc
claimed_row key now (r ∷ rows) h c = elim (Bool-cases (is_claimable key r)) [
  | inl mine ↦ (claim_row now r, ground arith, ground arith, ground arith)
  | inr other ↦
      let after : count_rows (is_claimable key) rows ≡ 1 = ground arith in
      let differs : (r.id == key) ≡ false = ground (arith, claimable-le-key key rows) in
      let (x, found, same, mine) = claimed_row key now rows (ground arith) after in
      (x, ground arith, same, ground arith)
]
