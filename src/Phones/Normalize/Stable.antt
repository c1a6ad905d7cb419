-- ===== src/Phones/Normalize/Stable.antt =====
-- The numbers that backend/app/phones/normalization.py returns, normalized again.
use qora.Base.{
  ℕ, ◌≡◌, refl, sym, ◌∙◌, subst, true, false, some, List, [], ◌∷◌, arith, length, Bool-cases, inl,
  inr, ◌⊎◌,
}
use qora.Phones.Compact.{ok, is_blank_number, compact_supported_syntax}
use qora.Phones.Compact.Shape.{IsCompact, compact_supported_syntax-IsCompact, compact_idem}
use qora.Base.Texts.{same_text, starts_with, same_text→eq, same_text_refl}
use qora.Phones.Normalize.{
  Phonenumbers, ok_steps, parsed, plus_54, plus_549, normalize_international,
  normalize_domestic_mobile, normalize_compact, normalize_phone, is_mobile, is_valid_argentine,
  require_supported_region,
}

-- What `phonenumbers` documents: the E.164 format is a plus and digits, and it parses to the number.
pub record IsFaithful (lib : Phonenumbers) : Type 0 where
  pub format_e164_shape : (n : lib.Number) → IsCompact (lib.format_e164 n)
  pub parse-format_e164 :
      (n : lib.Number) → lib.is_valid_number n ≡ true → lib.parse (lib.format_e164 n) ≡ some n

-- thirteen or fourteen characters from "+54" on
unfoldable pub IsArgentine : List ℕ → Type 0
IsArgentine p = (starts_with p plus_54 ≡ true) × ((length p ≡ 13) ⊎ (length p ≡ 14))

starts_with_549 : (q : List ℕ) → starts_with q plus_549 ≡ true → starts_with q plus_54 ≡ true
starts_with_549 [] h = cc
starts_with_549 (a ∷ []) h = ground arith
starts_with_549 (a ∷ b ∷ []) h = ground arith
starts_with_549 (a ∷ b ∷ c ∷ q) h = ground arith

long_enough : (p : List ℕ) → length p ≡ 14 → is_blank_number p ≡ false
long_enough [] h = ground (arith, h)
long_enough (c ∷ []) h = ground (arith, h)
long_enough (c ∷ d ∷ p) h = refl

module _ (lib : Phonenumbers) where
  international_sound :
      (q p : List ℕ) → normalize_international lib q ≡ ok p → (q ≡ p) × IsArgentine p
  unfolding normalize_international IsArgentine
  international_sound q p h =
      let (n, e, k) = ok_steps (parsed lib q) _ h in
      let same : same_text (lib.format_e164 n) q ≡ true = ground (arith, k) in
      let given : lib.format_e164 n ≡ p = ground (arith, k) in
      let path : q ≡ p = sym (same_text→eq (lib.format_e164 n) q same) ∙ given in
      let starts : starts_with q plus_54 ≡ true = ground (arith, k, starts_with_549 q) in
      let size : (length q ≡ 13) ⊎ (length q ≡ 14) = elim (Bool-cases (starts_with q plus_549)) [
        | inl s ↦ inr (ground (arith, k, s))
        | inr s ↦ inl (ground (arith, k, s))
      ] in
      (path, subst IsArgentine path (starts, size))

  domestic_sound :
      (q p : List ℕ)
      → normalize_domestic_mobile lib q ≡ ok p
      → (n : lib.Number) × (p ≡ lib.format_e164 n)
        × (lib.country_code n ≡ 54)
        × (is_valid_argentine lib n ≡ true)
        × (is_mobile (lib.number_type n) ≡ true)
        × (starts_with p plus_549 ≡ true)
        × (length p ≡ 14)
  unfolding normalize_domestic_mobile
  domestic_sound q p h =
      let (n, e, k) = ok_steps (parsed lib q) _ h in
      let given : lib.format_e164 n ≡ p = ground (arith, k) in
      let starts : starts_with (lib.format_e164 n) plus_549 ≡ true = ground (arith, k) in
      let size : length (lib.format_e164 n) ≡ 14 = ground (arith, k) in
      (
        n,
        sym given,
        ground (arith, k),
        ground (arith, k),
        ground (arith, k),
        subst (λ x. starts_with x plus_549 ≡ true) given starts,
        subst (λ x. length x ≡ 14) given size,
      )

module _ (lib : Phonenumbers) (faithful : IsFaithful lib) where
  -- the E.164 format of a mobile number, normalized
  international-format :
      (n : lib.Number) (p : List ℕ)
      → (p ≡ lib.format_e164 n)
        × (lib.country_code n ≡ 54)
        × (is_valid_argentine lib n ≡ true)
        × (is_mobile (lib.number_type n) ≡ true)
        × (starts_with p plus_549 ≡ true)
        × (length p ≡ 14)
      → normalize_international lib p ≡ ok p
  unfolding normalize_international
  international-format n p (given, country, valid, mobile, starts, size) =
      let one : lib.is_valid_number n ≡ true = ground (arith, valid) in
      let found : lib.parse p ≡ some n =
        subst (λ x. lib.parse x ≡ some n) (sym given) (faithful.parse-format_e164 n one) in
      let same : same_text (lib.format_e164 n) p ≡ true =
        subst (λ x. same_text (lib.format_e164 n) x ≡ true) (sym given)
          (same_text_refl (lib.format_e164 n)) in
      let back : lib.format_e164 n ≡ p = sym given in
      let read : parsed lib p ≡ ok n = rw (found, parsed) refl in
      rw (read, normalize_international)
        (ground (arith, country, valid, same, starts, size, mobile, back))

  starts_plus : (p : List ℕ) → starts_with p plus_54 ≡ true → starts_with p (b'+' ∷ []) ≡ true
  starts_plus [] h = cc
  starts_plus (c ∷ p) h = ground arith

  normalize_compact_stable :
      (q p : List ℕ)
      → (IsCompact q × (is_blank_number q ≡ false))
      → normalize_compact lib q ≡ ok p
      → IsArgentine p
        × (IsCompact p × (is_blank_number p ≡ false))
        × (normalize_compact lib p ≡ ok p)
  unfolding normalize_compact IsArgentine
  normalize_compact_stable q p shape h = elim (Bool-cases (starts_with q (b'+' ∷ []))) [
    | inl s ↦
        let (path, argentine) = international_sound lib q p (rw (s, normalize_compact) at h) in
        (
          argentine,
          subst (λ x. IsCompact x × (is_blank_number x ≡ false)) path shape,
          subst (λ x. normalize_compact lib x ≡ ok p) path h,
        )
    | inr s ↦
        let (n, given, country, valid, mobile, starts, size) =
          domestic_sound lib q p (rw (s, normalize_compact) at h) in
        let argentine : IsArgentine p = (starts_with_549 p starts, inr size) in
        (
          argentine,
          (subst IsCompact (sym given) (faithful.format_e164_shape n), long_enough p size),
          rw (starts_plus p argentine.0, normalize_compact)
              (international-format n p (given, country, valid, mobile, starts, size)),
        )
  ]

  pub normalize-IsArgentine :
      (raw region p : List ℕ)
      → normalize_phone lib raw region ≡ ok p
      → IsArgentine p × IsCompact p × (normalize_phone lib p region ≡ ok p)
  unfolding normalize_phone
  normalize-IsArgentine raw region p h =
      let (u, region_ok, k) = ok_steps (require_supported_region lib region) _ h in
      let (q, compacted, l) = ok_steps (compact_supported_syntax raw) _ k in
      let (argentine, shape, again) =
        normalize_compact_stable q p (compact_supported_syntax-IsCompact raw q compacted) l in
      (
        argentine,
        shape.0,
        rw (region_ok, compact_idem p shape.0 shape.1, again, normalize_phone) refl,
      )

  -- a number that was returned is returned again
  pub normalize_idem :
      (raw region p : List ℕ)
      → normalize_phone lib raw region ≡ ok p
      → normalize_phone lib p region ≡ ok p
  normalize_idem raw region p h = (normalize-IsArgentine raw region p h).2
