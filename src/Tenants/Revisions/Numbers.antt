-- ===== src/Tenants/Revisions/Numbers.antt =====
-- The numbers of an owner's rows (backend/app/tenants/revisions_service.py).
use qora.Base.{
  ℕ, suc, ◌+◌, ◌≡◌, refl, ap, false, some, List, [], ◌∷◌, ◌++◌, arith, leb, length, where_rows,
  first_row,
}
use qora.Tenants.Revisions.{
  Revision, owned_by, insert_desc, order_desc, number_or_zero, next_revision_number,
}

module _ {C : Type 0} where
  -- numbered one by one from `n`
  abbrev pub IsFrom : ℕ → List (Revision C) → Type 0
  IsFrom n [] = Unit
  IsFrom n (r ∷ rows) = (r.revision_number ≡ n) × IsFrom (suc n) rows

  abbrev rev : List (Revision C) → List (Revision C)
  rev [] = []
  rev (r ∷ rows) = rev rows ++ r ∷ []

  first-insert :
      (r : Revision C) (rows : List (Revision C)) (t : Revision C)
      → first_row rows ≡ some t
      → leb t.revision_number r.revision_number ≡ false
      → first_row (insert_desc r rows) ≡ some t
  first-insert r [] t e h = cc
  first-insert r (x ∷ rows) t e h = ground arith

  -- the first row in descending order has the last number
  top_number :
      (n : ℕ) (r : Revision C) (rows : List (Revision C))
      → IsFrom n (r ∷ rows)
      → (t : Revision C) × (first_row (order_desc (r ∷ rows)) ≡ some t)
        × (t.revision_number ≡ n + length rows)
  top_number n r [] h = (r, refl, omega arith)
  top_number n r (x ∷ rows) h =
      let (t, top, number) = top_number (suc n) x rows h.1 in
      (t, first-insert r (order_desc (x ∷ rows)) t top (ground arith), omega arith)

  last_number :
      (rows : List (Revision C))
      → IsFrom 1 rows
      → number_or_zero (first_row (order_desc rows)) ≡ length rows
  last_number [] h = refl
  last_number (r ∷ rows) h = let (t, top, number) = top_number 1 r rows h in rw top (omega arith)

  -- the next number is one more than the rows of the owner
  pub next-length :
      (owner : ℕ) (rows : List (Revision C))
      → IsFrom 1 (where_rows (owned_by owner) rows)
      → next_revision_number owner rows ≡ suc (length (where_rows (owned_by owner) rows))
  unfolding next_revision_number
  next-length owner rows h = ap suc (last_number (where_rows (owned_by owner) rows) h)

  pub IsFrom-append :
      (n : ℕ) (rows : List (Revision C)) (r : Revision C)
      → IsFrom n rows
      → r.revision_number ≡ n + length rows
      → IsFrom n (rows ++ r ∷ [])
  IsFrom-append n [] r h e = (omega arith, tt)
  IsFrom-append n (x ∷ rows) r h e = (h.0, IsFrom-append (suc n) rows r h.1 (omega arith))
