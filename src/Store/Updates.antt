-- ===== src/Store/Updates.antt =====
-- Selections from a table that an UPDATE has changed.
use qora.Base.{
  ◌≤◌, ◌≡◌, refl, Bool, true, Option, none, some, List, [], ◌∷◌, arith, where_rows, first_row,
  count_rows, if◌then◌else◌,
}
use qora.Store.{update_where}

abbrev pub map_row {ℓ} : {A : Type ℓ} → (A → A) → Option A → Option A
map_row f none = none
map_row f (some a) = some (f a)

module _ {ℓ} {A : Type ℓ} (p q : A → Bool) (f : A → A) where
  -- an update that the selection cannot tell from the old row changes only what is found
  pub first-update :
      ((a : A) → p (f a) ≡ p a)
      → (rows : List A)
      → first_row (where_rows p (update_where q f rows))
        ≡ map_row (λ a. if q a then f a else a) (first_row (where_rows p rows))
  first-update same [] = refl
  first-update same (a ∷ rows) = ground (arith, same a, first-update same rows)

  -- an update that brings no row into the selection
  pub count-update-le :
      ((a : A) → p (f a) ≡ true → p a ≡ true)
      → (rows : List A) → count_rows p (update_where q f rows) ≤ count_rows p rows
  count-update-le shrinks [] = omega arith
  count-update-le shrinks (a ∷ rows) = ground (arith, shrinks a, count-update-le shrinks rows)

module _ {ℓ} {A : Type ℓ} (p : A → Bool) where
  pub count-zero : (rows : List A) → count_rows p rows ≡ 0 → first_row (where_rows p rows) ≡ none
  count-zero [] h = refl
  count-zero (a ∷ rows) h = ground (arith, count-zero rows)

  pub first-none : (rows : List A) → first_row (where_rows p rows) ≡ none → count_rows p rows ≡ 0
  first-none [] h = refl
  first-none (a ∷ rows) h = ground (arith, first-none rows)
