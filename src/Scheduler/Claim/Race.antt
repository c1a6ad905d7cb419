-- ===== src/Scheduler/Claim/Race.antt =====
-- About `_claim_one` of backend/app/scheduler/service.py: processes that claim one row.
use qora.Base.{
  ℕ, suc, ◌≤◌, ◌≡◌, refl, true, ◌&&◌, List, [], ◌∷◌, arith, count_rows, ◌==◌, if◌then◌else◌,
}
use qora.Store.{Session, update_where}
use qora.Store.Rows.{ScheduledCall}
use qora.Scheduler.Claim.{is_claimable, claim_row, claim_one}

-- the claims of `key` that win, in a sequence of claims (key, clock) by any processes
abbrev pub wins : ℕ → List (ℕ × ℕ) → Session → ℕ
wins key [] s = 0
wins key ((k, now) ∷ rest) s =
    let (won, s') = claim_one k now s in
    let n = wins key rest s' in if k == key && won then suc n else n

abbrev claimable_count : ℕ → Session → ℕ
claimable_count key s = count_rows (is_claimable key) s.view.scheduled_calls

count-claim :
    (key k now : ℕ) (rows : List ScheduledCall)
    → count_rows (is_claimable key) (update_where (is_claimable k) (claim_row now) rows)
      ≡ (if k == key then 0 else count_rows (is_claimable key) rows)
count-claim key k now [] = ground arith
count-claim key k now (r ∷ rows) = ground (arith, count-claim key k now rows)

-- each claim starts from what is committed, and ends so
claim_one-settled :
    (k now : ℕ) (s : Session)
    → s.view ≡ s.durable
    → (claim_one k now s).1.view ≡ (claim_one k now s).1.durable
unfolding claim_one
claim_one-settled k now s h = ground arith

claim_one-count :
    (key k now : ℕ) (s : Session)
    → s.view ≡ s.durable
    → claimable_count key (claim_one k now s).1 ≤ claimable_count key s
unfolding claim_one
claim_one-count key k now s h = ground (arith, count-claim key k now s.view.scheduled_calls)

won_count :
    (key now : ℕ) (s : Session)
    → (claim_one key now s).0 ≡ true
    → (claimable_count key s ≡ 1) × (claimable_count key (claim_one key now s).1 ≡ 0)
unfolding claim_one
won_count key now s h = ground (arith, count-claim key key now s.view.scheduled_calls)

wins-zero :
    (key : ℕ) (claims : List (ℕ × ℕ)) (s : Session)
    → s.view ≡ s.durable
    → claimable_count key s ≡ 0
    → wins key claims s ≡ 0
wins-zero key [] s h c = refl
wins-zero key ((k, now) ∷ rest) s h c = ground (
  arith,
  claim_one-settled k now s h,
  claim_one-count key k now s h,
  won_count k now s,
  wins-zero key rest (claim_one k now s).1,
)

-- In any sequence of claims from a committed table, each row is won at most once.
pub wins-le-one :
    (key : ℕ) (claims : List (ℕ × ℕ)) (s : Session) → s.view ≡ s.durable → wins key claims s ≤ 1
wins-le-one key [] s h = omega arith
wins-le-one key ((k, now) ∷ rest) s h = ground (
  arith,
  claim_one-settled k now s h,
  claim_one-count key k now s h,
  won_count k now s,
  wins-zero key rest (claim_one k now s).1,
  wins-le-one key rest (claim_one k now s).1,
)
