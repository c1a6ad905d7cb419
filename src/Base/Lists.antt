-- ===== src/Base/Lists.antt =====
-- Lists measured by native numbers, the selections that stand for queries, and a predicate on all
-- entries.
use Prim.Native.Nat.{ℕ, zero, suc, ◌≤◌}
use mathlib.Core.Path.{◌≡◌}
use mathlib.Core.Bool.{Bool, true, false, ◌||◌}
use mathlib.Core.Option.{Option, none, some}
use mathlib.Core.List.{List, [], ◌∷◌, ◌++◌}
use native.Mathlib.Omega.{arith}
use qora.Base.Tests.{if◌then◌else◌}

module _ {ℓ} {A : Type ℓ} where
  abbrev pub length : List A → ℕ
  length [] = 0
  length (x ∷ xs) = suc (length xs)

  abbrev pub take : ℕ → List A → List A
  take zero xs = []
  take (suc n) [] = []
  take (suc n) (x ∷ xs) = x ∷ take n xs

  -- the rows that pass a test, in order
  abbrev pub where_rows : (A → Bool) → List A → List A
  where_rows p [] = []
  where_rows p (x ∷ xs) = let rest = where_rows p xs in if p x then x ∷ rest else rest

  -- `.scalars().first()`
  abbrev pub first_row : List A → Option A
  first_row [] = none
  first_row (x ∷ xs) = some x

  abbrev pub count_rows : (A → Bool) → List A → ℕ
  count_rows p [] = 0
  count_rows p (x ∷ xs) = let rest = count_rows p xs in if p x then suc rest else rest

  abbrev pub any_row : (A → Bool) → List A → Bool
  any_row p [] = false
  any_row p (x ∷ xs) = p x || any_row p xs

  -- `P` holds of every entry
  abbrev pub All {κ} : (A → Type κ) → List A → Type κ
  All P [] = Unit
  All P (x ∷ xs) = P x × All P xs

  pub length-take-le : (n : ℕ) (xs : List A) → length (take n xs) ≤ n
  length-take-le zero xs = omega arith
  length-take-le (suc n) [] = omega arith
  length-take-le (suc n) (x ∷ xs) = omega (arith, length-take-le n xs)

  pub count-append :
      (p : A → Bool) (xs : List A) (x : A)
      → count_rows p (xs ++ x ∷ []) ≡ (if p x then suc (count_rows p xs) else count_rows p xs)
  count-append p [] x = ground arith
  count-append p (y ∷ xs) x = ground (arith, count-append p xs x)

  pub count_mono :
      (p q : A → Bool)
      → ((a : A) → p a ≡ true → q a ≡ true)
      → (xs : List A) → count_rows p xs ≤ count_rows q xs
  count_mono p q h [] = omega arith
  count_mono p q h (x ∷ xs) = ground (arith, h x, count_mono p q h xs)

  -- a row that a query returns is counted by any test that it passes
  pub first-count :
      (p q : A → Bool) (xs : List A) (a : A)
      → first_row (where_rows p xs) ≡ some a
      → q a ≡ true
      → 1 ≤ count_rows q xs
  first-count p q [] a e h = cc
  first-count p q (x ∷ xs) a e h = ground (arith, first-count p q xs a)

  -- what a query returns passes its test
  pub first-passes :
      (p : A → Bool) (xs : List A) (a : A) → first_row (where_rows p xs) ≡ some a → p a ≡ true
  first-passes p [] a e = cc
  first-passes p (x ∷ xs) a e = ground (arith, first-passes p xs a)
