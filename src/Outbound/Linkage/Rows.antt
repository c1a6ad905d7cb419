-- ===== src/Outbound/Linkage/Rows.antt =====
-- Lemmas on a lookup in the table after a webhook has been written to one session.
use qora.Base.{
  ℕ, ◌≡◌, refl, ◌⊎◌, inl, inr, Bool, true, ◌&&◌, ◌==◌, Option, none, some, List, [], ◌∷◌, arith,
  where_rows, first_row, any_row, Bool-cases, Option-cases,
}
use qora.Calls.States.{completed}
use qora.Store.{update_where}
use qora.Store.Rows.{CallSession}
use qora.Outbound.Linkage.{has_status, has_session_id, latest, mark_linked}

pub latest-passes :
    (p : CallSession → Bool) (rows : List CallSession) (r : CallSession)
    → latest (where_rows p rows) ≡ some r
    → p r ≡ true
latest-passes p [] r h = cc
latest-passes p (x ∷ rows) r h = elim (Bool-cases (p x)) [
  | inr e ↦ latest-passes p rows r (rw e at h)
  | inl e ↦ elim (Option-cases (latest (where_rows p rows))) [
    | inl f ↦ ground (arith, e, f, h)
    | inr (y, f) ↦ ground (arith, e, f, h, latest-passes p rows y f)
  ]
]

pub latest-any :
    (p t : CallSession → Bool) (rows : List CallSession) (r : CallSession)
    → latest (where_rows p rows) ≡ some r
    → t r ≡ true
    → any_row t rows ≡ true
latest-any p t [] r h e = cc
latest-any p t (x ∷ rows) r h e = elim (Bool-cases (p x)) [
  | inr f ↦ ground (arith, latest-any p t rows r (rw f at h) e)
  | inl f ↦ elim (Option-cases (latest (where_rows p rows))) [
    | inl g ↦ ground (arith, f, g, h, e)
    | inr (y, g) ↦ ground (arith, f, g, h, e, latest-any p t rows y g)
  ]
]

-- a lookup that returns a completed session
abbrev pub Done : Option CallSession → Type 0
Done m = (r : CallSession) × (m ≡ some r) × (has_status r.telephony_status completed ≡ true)

-- the table after a webhook has been written to session `key`
abbrev pub linked : ℕ → ℕ → List CallSession → List CallSession
linked key conversation rows = update_where (has_session_id key) (mark_linked conversation) rows

module _ (p : CallSession → Bool) (key conversation : ℕ) where
  -- a lookup that found the session that was written finds a completed one
  pub found-Done :
      ((r : CallSession) → p r ≡ true → p (mark_linked conversation r) ≡ true)
      → (rows : List CallSession) (cs : CallSession) → first_row (where_rows p rows) ≡ some cs
      → (cs.id == key) ≡ true
      → Done (first_row (where_rows p (linked key conversation rows)))
  found-Done keeps [] cs h e = cc
  found-Done keeps (x ∷ rows) cs h e = elim (Bool-cases (x.id == key)) [
    | inl f ↦ elim (Bool-cases (p (mark_linked conversation x))) [
      | inl g ↦ rw (f, g) (_, refl, refl)
      | inr g ↦ rw (f, g) (found-Done keeps rows cs (ground (arith, h, g, keeps x)) e)
    ]
    | inr f ↦ elim (Bool-cases (p x)) [
      | inl g ↦ ground (arith, h, e, f, g)
      | inr g ↦ rw (f, g) (found-Done keeps rows cs (rw g at h) e)
    ]
  ]

  -- a lookup that found nothing finds nothing, or a completed one
  pub missed-Done :
      (rows : List CallSession)
      → first_row (where_rows p rows) ≡ none
      → (first_row (where_rows p (linked key conversation rows)) ≡ none)
        ⊎ Done (first_row (where_rows p (linked key conversation rows)))
  missed-Done [] h = inl refl
  missed-Done (x ∷ rows) h = elim (Bool-cases (p x)) [
    | inl g ↦ ground (arith, h, g)
    | inr g ↦ elim (Bool-cases (x.id == key)) [
      | inr f ↦ rw (f, g) (missed-Done rows (rw g at h))
      | inl f ↦ elim (Bool-cases (p (mark_linked conversation x))) [
        | inl k ↦ rw (f, k) (inr (_, refl, refl))
        | inr k ↦ rw (f, k) (missed-Done rows (rw g at h))
      ]
    ]
  ]

  -- and it finds one where some written row passes
  pub reached-some :
      (rows : List CallSession)
      → any_row (λ r. r.id == key && p (mark_linked conversation r)) rows ≡ true
      → ¬ (first_row (where_rows p (linked key conversation rows)) ≡ none)
  reached-some [] h e = cc
  reached-some (x ∷ rows) h e = ground (arith, h, e, reached-some rows)
