-- ===== src/Scheduler/Claim/Exclusive.antt =====
-- About `claim_due_scheduled_calls` of backend/app/scheduler/service.py: one cycle.
use qora.Base.{
  ℕ, ◌≤◌, ◌≡◌, ◌≢◌, refl, sym, subst, true, List, [], ◌∷◌, Option, some, arith, count_rows,
  where_rows, first_row, Bool-cases, inl, inr, All, length, length-take-le,
}
use qora.Store.{Session}
use qora.Store.Rows.{ScheduledCall}
use qora.Scheduler.Claim.{
  index_holds, is_claimable, claim_row, claim_one, claim_each, due_candidates,
  claim_due_scheduled_calls,
}
use qora.Scheduler.Claim.Rows.{
  HasKeys, Owned, has_key, count-key-update, Owned-claim, Owned-not_claimable, Owned-unique,
  claimed_row,
}

-- A committed table with its primary key and its unique index.
pub record IsSound (s : Session) : Type 0 where
  pub settled : s.view ≡ s.durable
  pub keys : HasKeys s.view.scheduled_calls
  pub index : index_holds s.view.scheduled_calls ≡ true

pub claim_one-IsSound : (k now : ℕ) (s : Session) → IsSound s → IsSound (claim_one k now s).1
unfolding claim_one
claim_one-IsSound k now s h = record {
  settled = ground (arith, h.settled);
  keys = λ key. ground (
    arith,
    h.settled,
    h.keys key,
    count-key-update (is_claimable k) (claim_row now) (λ r. refl) key s.view.scheduled_calls,
  );
  index = ground (arith, h.settled, h.index);
}

claim_one-Owned :
    (k now key lead : ℕ) (s : Session)
    → IsSound s
    → Owned key lead s.view.scheduled_calls
    → Owned key lead (claim_one k now s).1.view.scheduled_calls
unfolding claim_one
claim_one-Owned k now key lead s h o =
    ground (arith, h.settled, Owned-claim k now key lead s.view.scheduled_calls)

-- what a won claim of `sc` appends to the result
abbrev claimed : ScheduledCall → ℕ → Session → ScheduledCall
claimed sc now s =
    elim (first_row (where_rows (has_key sc.id) (claim_one sc.id now s).1.view.scheduled_calls)) [
      | some r ↦ r
      | Option.none ↦ sc
    ]

won-Owned :
    (sc : ScheduledCall) (now : ℕ) (s : Session)
    → IsSound s
    → (claim_one sc.id now s).0 ≡ true
    → (count_rows (is_claimable sc.id) s.view.scheduled_calls ≡ 1)
      × ((claimed sc now s).id ≡ sc.id)
      × Owned sc.id (claimed sc now s).lead_id (claim_one sc.id now s).1.view.scheduled_calls
unfolding claim_one
won-Owned sc now s h won =
    let one : count_rows (is_claimable sc.id) s.view.scheduled_calls ≡ 1 = ground arith in
    let (r, found, same, mine) = claimed_row sc.id now s.view.scheduled_calls (h.keys sc.id) one in
    (one, ground arith, ground arith)

-- while `key` holds `lead`, no other row of that lead is won
won_other_lead :
    (sc : ScheduledCall) (now key lead : ℕ) (s : Session)
    → IsSound s
    → Owned key lead s.view.scheduled_calls
    → (claim_one sc.id now s).0 ≡ true
    → (claimed sc now s).lead_id ≢ lead
won_other_lead sc now key lead s h o won same =
    let (one, _, mine) = won-Owned sc now s h won in
    let s' = (claim_one sc.id now s).1 in
    let kept : Owned key lead s'.view.scheduled_calls = claim_one-Owned sc.id now key lead s h o in
    let equal : sc.id ≡ key =
      Owned-unique sc.id key lead s'.view.scheduled_calls (claim_one-IsSound sc.id now s h).index
        (subst (λ l. Owned sc.id l s'.view.scheduled_calls) same mine) kept in
    let none_left : count_rows (is_claimable sc.id) s.view.scheduled_calls ≡ 0 =
      Owned-not_claimable sc.id lead s.view.scheduled_calls (h.keys sc.id)
        (subst (λ k. Owned k lead s.view.scheduled_calls) (sym equal) o) in
    omega arith

claim_each-other_leads :
    (l : List ScheduledCall) (now key lead : ℕ) (s : Session)
    → IsSound s
    → Owned key lead s.view.scheduled_calls
    → All (λ c. c.lead_id ≢ lead) (claim_each l now s).0
unfolding claim_each
claim_each-other_leads [] now key lead s h o = tt
claim_each-other_leads (sc ∷ l) now key lead s h o =
    let s' = (claim_one sc.id now s).1 in
    let rest =
      claim_each-other_leads l now key lead s' (claim_one-IsSound sc.id now s h)
        (claim_one-Owned sc.id now key lead s h o) in
    elim (Bool-cases (claim_one sc.id now s).0) [
      | inl won ↦ rw won (won_other_lead sc now key lead s h o won, rest)
      | inr lost ↦ rw lost rest
    ]

-- every two rows of the list have different leads
abbrev pub DistinctLeads : List ScheduledCall → Type 0
DistinctLeads [] = Unit
DistinctLeads (c ∷ l) = All (λ d. d.lead_id ≢ c.lead_id) l × DistinctLeads l

claim_each-DistinctLeads :
    (l : List ScheduledCall) (now : ℕ) (s : Session)
    → IsSound s
    → DistinctLeads (claim_each l now s).0
unfolding claim_each
claim_each-DistinctLeads [] now s h = tt
claim_each-DistinctLeads (sc ∷ l) now s h =
    let s' = (claim_one sc.id now s).1 in
    let sound = claim_one-IsSound sc.id now s h in
    let rest = claim_each-DistinctLeads l now s' sound in
    elim (Bool-cases (claim_one sc.id now s).0) [
      | inl won ↦ rw won (
        claim_each-other_leads l now sc.id (claimed sc now s).lead_id s' sound
            (won-Owned sc now s h won).2,
        rest,
      )
      | inr lost ↦ rw lost rest
    ]

pub length-claim_each :
    (l : List ScheduledCall) (now : ℕ) (s : Session) → length (claim_each l now s).0 ≤ length l
unfolding claim_each
length-claim_each [] now s = omega arith
length-claim_each (sc ∷ l) now s = ground (arith, length-claim_each l now (claim_one sc.id now s).1)

claim_each-IsSound :
    (l : List ScheduledCall) (now : ℕ) (s : Session) → IsSound s → IsSound (claim_each l now s).1
unfolding claim_each
claim_each-IsSound [] now s h = h
claim_each-IsSound (sc ∷ l) now s h =
    let rest =
      claim_each-IsSound l now (claim_one sc.id now s).1 (claim_one-IsSound sc.id now s h) in
    elim (Bool-cases (claim_one sc.id now s).0) [ inl won ↦ rw won rest | inr lost ↦ rw lost rest ]

pub length-due_candidates :
    (now limit : ℕ) (s : Session) → length (due_candidates now limit s.view) ≤ limit
unfolding due_candidates
length-due_candidates now limit s = length-take-le limit _

-- From a sound table (committed, with its primary key and its unique index), a cycle claims at most
-- `limit` rows, no two of them for one lead, and leaves a sound table.
pub claim_due-exclusive :
    (now limit : ℕ) (s : Session)
    → IsSound s
    → let (rows, s') = claim_due_scheduled_calls now limit s in
      (length rows ≤ limit) × DistinctLeads rows × IsSound s'
unfolding claim_due_scheduled_calls
claim_due-exclusive now limit s h =
    let l = due_candidates now limit s.view in
    (
      omega (arith, length-claim_each l now s, length-due_candidates now limit s),
      claim_each-DistinctLeads l now s h,
      claim_each-IsSound l now s h,
    )
