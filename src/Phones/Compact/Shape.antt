-- ===== src/Phones/Compact/Shape.antt =====
-- The form of the numbers that the scan of backend/app/phones/normalization.py lets through.
use qora.Base.{
  ℕ, ◌≡◌, refl, subst, true, false, none, some, List, [], ◌∷◌, ◌==◌, All, arith, where_rows,
  if◌then◌else◌, Bool-cases, Option-cases, inl, inr, ◌⊎◌,
}
use qora.Phones.Compact.{
  ok, Scan, is_digit, scan_step, scan, dash_allowed, strip_spaces, strip_visual_separators, is_kept,
  nothing_inside, rstrip, compact_value, is_blank_number, compact_supported_syntax,
}

abbrev pub IsDigit : ℕ → Type 0
IsDigit c = is_digit c ≡ true

-- a plus or a digit, then digits
unfoldable pub IsCompact : List ℕ → Type 0
IsCompact [] = Unit
IsCompact (c ∷ rest) = ((c ≡ b'+') ⊎ IsDigit c) × All IsDigit rest

-- past the first character, a round accepts digits and separators only
step-IsDigit :
    (p : ℕ) (s s' : Scan) (c : ℕ) (following : List ℕ)
    → scan_step (some p) s c following ≡ some s'
    → is_kept c ≡ true
    → IsDigit c
unfolding scan_step is_digit
step-IsDigit p s s' c following e k = ground arith

scan-digits :
    (p : ℕ) (s : Scan) (text : List ℕ)
    → scan (some p) s text ≡ true
    → All IsDigit (where_rows is_kept text)
unfolding scan
scan-digits p s [] h = tt
scan-digits p s (c ∷ rest) h = elim (Option-cases (scan_step (some p) s c rest)) [
  | inl e ↦ cc (rw (e, scan) at h)
  | inr (s', e) ↦
      let more = scan-digits c s' rest (rw (e, scan) at h) in
      elim (Bool-cases (is_kept c)) [
        | inl k ↦ rw k (step-IsDigit p s s' c rest e k, more)
        | inr k ↦ rw k more
      ]
]

step-head :
    (s' : Scan) (c : ℕ) (following : List ℕ)
    → scan_step none nothing_inside c following ≡ some s'
    → is_kept c ≡ true
    → (c ≡ b'+') ⊎ IsDigit c
unfolding scan_step dash_allowed
step-head s' c following e k = elim (Bool-cases (is_digit c)) [
  | inl d ↦ inr d
  | inr d ↦ inl (ground arith)
]

digits-IsCompact : (text : List ℕ) → All IsDigit text → IsCompact text
unfolding IsCompact
digits-IsCompact [] h = tt
digits-IsCompact (c ∷ rest) h = (inr h.0, h.1)

scan-IsCompact :
    (c : ℕ) (rest : List ℕ)
    → scan none nothing_inside (c ∷ rest) ≡ true
    → IsCompact (where_rows is_kept (c ∷ rest))
unfolding scan IsCompact
scan-IsCompact c rest h = elim (Option-cases (scan_step none nothing_inside c rest)) [
  | inl e ↦ cc (rw (e, scan) at h)
  | inr (s', e) ↦
      let more = scan-digits c s' rest (rw (e, scan) at h) in
      elim (Bool-cases (is_kept c)) [
        | inl k ↦ rw k (step-head s' c rest e k, more)
        | inr k ↦ rw k (digits-IsCompact (where_rows is_kept rest) more)
      ]
]

compact_value-IsCompact :
    (value q : List ℕ) → compact_value value ≡ ok q → IsCompact q × (is_blank_number q ≡ false)
unfolding compact_value strip_visual_separators scan
compact_value-IsCompact [] q h = cc
compact_value-IsCompact (c ∷ rest) q h = elim (Bool-cases (scan none nothing_inside (c ∷ rest))) [
  | inr e ↦ cc (rw (e, compact_value) at h)
  | inl e ↦ elim (Bool-cases (is_blank_number (where_rows is_kept (c ∷ rest)))) [
    | inl b ↦ cc (rw (e, b, compact_value) at h)
    | inr b ↦
        let same : where_rows is_kept (c ∷ rest) ≡ q = cc (rw (e, b, compact_value) at h) in
        subst (λ x. IsCompact x × (is_blank_number x ≡ false)) same (scan-IsCompact c rest e, b)
  ]
]

pub compact_supported_syntax-IsCompact :
    (raw q : List ℕ)
    → compact_supported_syntax raw ≡ ok q
    → IsCompact q × (is_blank_number q ≡ false)
unfolding compact_supported_syntax
compact_supported_syntax-IsCompact raw q h = compact_value-IsCompact (strip_spaces raw) q h

digits-kept : (text : List ℕ) → All IsDigit text → where_rows is_kept text ≡ text
unfolding is_digit
digits-kept [] h = refl
digits-kept (c ∷ rest) h = ground (arith, digits-kept rest h.1, h.0)

rstrip_last :
    (c : ℕ) (rest : List ℕ)
    → (c == b' ') ≡ false
    → elim rest as (λ x. List ℕ) [ [] ↦ if c == b' ' then [] else c ∷ [] | d ∷ ds ↦ c ∷ d ∷ ds ]
      ≡ c ∷ rest
unfolding is_digit
rstrip_last c [] h = rw h refl
rstrip_last c (d ∷ ds) h = refl

rstrip-digits : (text : List ℕ) → All IsDigit text → rstrip text ≡ text
unfolding is_digit
rstrip-digits [] h = refl
rstrip-digits (c ∷ rest) h = rw (rstrip-digits rest h.1) (rstrip_last c rest (ground (arith, h.0)))

scan-accepts : (p : ℕ) (text : List ℕ) → All IsDigit text → scan (some p) nothing_inside text ≡ true
unfolding scan scan_step
scan-accepts p [] h = refl
scan-accepts p (c ∷ rest) h = rw (h.0, scan) (scan-accepts c rest h.1)

-- the first character of a compacted number
head-accepted :
    (c : ℕ) (following : List ℕ)
    → ((c ≡ b'+') ⊎ IsDigit c)
    → ((c == b' ') ≡ false)
      × (is_kept c ≡ true)
      × (scan_step none nothing_inside c following ≡ some nothing_inside)
unfolding is_digit scan_step
head-accepted c following (inl e) = (ground (arith, e), ground (arith, e), ground (arith, e))
head-accepted c following (inr d) = (ground (arith, d), ground (arith, d), ground (arith, d))

-- a compacted number is compacted already
pub compact_idem :
    (q : List ℕ) → IsCompact q → is_blank_number q ≡ false → compact_supported_syntax q ≡ ok q
unfolding compact_supported_syntax compact_value strip_spaces strip_visual_separators scan IsCompact
compact_idem [] h b = cc
compact_idem (c ∷ rest) h b =
    let (space, kept, accepted) = head-accepted c rest h.0 in
    rw (space, rstrip-digits rest h.1, rstrip_last c rest space, compact_value)
      (rw (kept, digits-kept rest h.1, b, accepted, scan-accepts c rest h.1, compact_value, scan)
        refl)
