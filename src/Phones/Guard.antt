-- ===== src/Phones/Guard.antt =====
-- backend/app/outbound/phone.py: `validate_e164`, the guard before a dial.
use qora.Base.{
  ℕ, ◌≡◌, refl, ap, ◌↔◌, Bool, true, false, List, [], ◌∷◌, ◌&&◌, ◌==◌, leb, if◌then◌else◌, All,
  arith, length, Bool-cases, inl, inr,
}
use qora.Phones.Compact.{Reason, Outcome, ok, error, is_digit}
use qora.Phones.Compact.Shape.{IsCompact, IsDigit}
use qora.Base.Texts.{same_text, same_text→eq, same_text_refl}
use qora.Phones.Normalize.{Phonenumbers, normalize_phone}
use qora.Phones.Normalize.Stable.{IsFaithful, IsArgentine, normalize-IsArgentine}

-- the phone, or a `ValueError` with the reason in its text
pub data Validation : Type 0 where
  valid : List ℕ → Validation
  noncanonical_phone : Validation
  refused : Reason → Validation

abbrev all_digits : List ℕ → Bool
all_digits [] = true
all_digits (c ∷ text) = is_digit c && all_digits text

-- `_E164_RE.fullmatch`
unfoldable pub matches_e164 : List ℕ → Bool
unfolding is_digit
matches_e164 (p ∷ c ∷ rest) =
    p == b'+'
    && ((leb b'1' c && leb c b'9')
        && (all_digits rest && (leb 6 (length rest) && leb (length rest) 14)))
matches_e164 _ = false

abbrev pub argentina : List ℕ
argentina = b'A' ∷ b'R' ∷ []

-- the answer of the normalizer, compared with the phone
unfoldable judge : List ℕ → Outcome (List ℕ) → Validation
judge phone (error r) = refused r
judge phone (ok normalized) = if same_text normalized phone then valid phone else noncanonical_phone

unfoldable pub validate_e164 : Phonenumbers → List ℕ → Validation
unfolding matches_e164 normalize_phone judge
validate_e164 lib phone =
    if matches_e164 phone
    then judge phone (normalize_phone lib phone argentina)
    else noncanonical_phone

judge-valid : (p : List ℕ) (o : Outcome (List ℕ)) → judge p o ≡ valid p → o ≡ ok p
unfolding judge
judge-valid p (error r) h = cc
judge-valid p (ok n) h = elim (Bool-cases (same_text n p)) [
  | inl e ↦ ap ok (same_text→eq n p e)
  | inr e ↦ cc (rw (e, judge) at h)
]

digits-All : (text : List ℕ) → All IsDigit text → all_digits text ≡ true
digits-All [] h = refl
digits-All (c ∷ text) h = ground (arith, h.0, digits-All text h.1)

argentine-matches : (p : List ℕ) → IsArgentine p → IsCompact p → matches_e164 p ≡ true
unfolding IsArgentine IsCompact matches_e164
argentine-matches [] a c = ground (arith, a.0)
argentine-matches (x ∷ []) a c = ground (arith, a.0)
argentine-matches (x ∷ y ∷ rest) a c =
    let digits = digits-All rest c.1.1 in
    let starts = a.0 in
    elim (a.1) [
      | inl e ↦ ground (arith, starts, digits, e)
      | inr e ↦ ground (arith, starts, digits, e)
    ]

module _ (lib : Phonenumbers) (faithful : IsFaithful lib) where
  -- The guard before a dial accepts exactly the numbers that the normalizer returns for some input
  -- of the region AR, where the library's E.164 format is a plus or a digit followed by digits and
  -- parses back to its number.
  pub validate_e164_iff :
      (p : List ℕ)
      → (validate_e164 lib p ≡ valid p)
        ↔ ((raw : List ℕ) × (normalize_phone lib raw argentina ≡ ok p))
  unfolding validate_e164 judge
  validate_e164_iff p = (
    (λ h. elim (Bool-cases (matches_e164 p)) [
      | inl e ↦ (p, judge-valid p (normalize_phone lib p argentina) (rw (e, validate_e164) at h))
      | inr e ↦ cc (rw (e, validate_e164) at h)
    ]),
    (λ (raw, h).
        let (argentine, compact, again) = normalize-IsArgentine lib faithful raw argentina p h in
        rw (argentine-matches p argentine compact, again, same_text_refl p, validate_e164, judge)
          refl),
  )
