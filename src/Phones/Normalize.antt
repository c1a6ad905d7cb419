-- ===== src/Phones/Normalize.antt =====
-- backend/app/phones/normalization.py: `normalize_phone`. The `phonenumbers` package is a parameter.
pub mod Stable
use qora.Base.{
  ℕ, Bool, true, false, Option, none, some, List, [], ◌∷◌, ◌&&◌, ◌||◌, not, leb, ◌==◌, ◌≡◌, refl,
  if◌then◌else◌, length,
}
use qora.Base.Texts.{same_text, starts_with}
use qora.Phones.Compact.{
  Reason, region_required, unsupported_region, invalid_syntax, ambiguous_or_incomplete,
  invalid_number, unsupported_country, unsupported_type, Outcome, ok, error,
  strip_visual_separators, compact_supported_syntax,
}

-- `PhoneNumberType`
pub data NumberType : Type 0 where
  mobile fixed_line other_type : NumberType

-- What the code calls of `phonenumbers`, for the region AR and without the raw input; `none` is a
-- `NumberParseException`. `is_space` is `str.isspace` of one character.
pub record Phonenumbers : Type 1 where
  pub Number : Type 0
  pub parse : List ℕ → Option Number
  pub country_code : Number → ℕ
  pub is_valid_number : Number → Bool
  pub is_valid_number_for_region : Number → Bool
  pub number_type : Number → NumberType
  pub format_e164 : Number → List ℕ
  pub format_national : Number → List ℕ
  pub is_space : ℕ → Bool

abbrev pub plus_54 : List ℕ
plus_54 = b'+' ∷ b'5' ∷ b'4' ∷ []

abbrev pub plus_549 : List ℕ
plus_549 = b'+' ∷ b'5' ∷ b'4' ∷ b'9' ∷ []

abbrev pub is_mobile : NumberType → Bool
is_mobile mobile = true
is_mobile _ = false

abbrev pub is_fixed_line : NumberType → Bool
is_fixed_line fixed_line = true
is_fixed_line _ = false

abbrev all_spaces : (ℕ → Bool) → List ℕ → Bool
all_spaces space [] = true
all_spaces space (c ∷ text) = space c && all_spaces space text

-- a step that may raise, in a `do` block
infixl 5 ◌>>=◌ ◌>>◌
abbrev pub ◌>>=◌ {ℓ κ} :
    {Value : Type ℓ} {Next : Type κ} (step : Outcome Value) (next : Value → Outcome Next)
    → Outcome Next
error reason >>= next = error reason
ok value >>= next = next value

abbrev pub ◌>>◌ {ℓ} :
    {Next : Type ℓ} (step : Outcome (Unit {0})) (rest : Outcome Next) → Outcome Next
step >> rest = step >>= λ _. rest

-- the steps of a block that has returned a value
pub ok_steps {ℓ κ} :
    {Value : Type ℓ} {Next : Type κ} (step : Outcome Value) (next : Value → Outcome Next)
    → {result : Next} → (step >>= next) ≡ ok result
    → (value : Value) × (step ≡ ok value) × (next value ≡ ok result)
ok_steps (error reason) next returned = cc
ok_steps (ok value) next returned = (value, refl, returned)

module _ (lib : Phonenumbers) where
  abbrev pub is_valid_argentine : lib.Number → Bool
  is_valid_argentine n = lib.is_valid_number n && lib.is_valid_number_for_region n

  abbrev pub parsed : List ℕ → Outcome (lib.Number)
  parsed compact = elim (lib.parse compact) [ none ↦ error invalid_number | some n ↦ ok n ]

  abbrev pub require_supported_region : List ℕ → Outcome (Unit {0})
  require_supported_region region =
      if all_spaces lib.is_space region
      then error region_required
      else if same_text region (b'A' ∷ b'R' ∷ [])
      then ok tt
      else error unsupported_region

  -- `_normalize_international`
  unfoldable pub normalize_international : List ℕ → Outcome (List ℕ)
  normalize_international compact = do
    n ← parsed compact
    let e164 = lib.format_e164 n
    let type = lib.number_type n
    if not (lib.country_code n == 54)
        then error unsupported_country
        else if not (is_valid_argentine n)
        then error invalid_number
        else if not (same_text e164 compact)
        then error invalid_number
        else if starts_with compact plus_549 && (length compact == 14 && is_mobile type)
        then ok e164
        else if (starts_with compact plus_54
              && (not (starts_with compact plus_549) && length compact == 13))
            && is_fixed_line type
        then ok e164
        else if not (is_mobile type || is_fixed_line type)
        then error unsupported_type
        else error invalid_number

  abbrev without_trunk : List ℕ → List ℕ
  without_trunk [] = []
  without_trunk (c ∷ rest) = if c == b'0' then rest else c ∷ rest

  unfoldable pub normalize_domestic_mobile : List ℕ → Outcome (List ℕ)
  unfolding strip_visual_separators
  normalize_domestic_mobile compact = do
    n ← parsed compact
    let type = lib.number_type n
    let e164 = lib.format_e164 n
    let national = strip_visual_separators (lib.format_national n)
    if not (lib.country_code n == 54)
        then error unsupported_country
        else if not (is_valid_argentine n)
        then (if leb (length compact) 10
            then error ambiguous_or_incomplete
            else error invalid_number)
        else if is_fixed_line type
        then error ambiguous_or_incomplete
        else if not (is_mobile type)
        then error unsupported_type
        else if not (starts_with e164 plus_549) || not (length e164 == 14)
        then error invalid_number
        else if not (same_text compact national || same_text compact (without_trunk national))
        then error ambiguous_or_incomplete
        else ok e164

  unfoldable pub normalize_compact : List ℕ → Outcome (List ℕ)
  unfolding normalize_international normalize_domestic_mobile
  normalize_compact compact =
      if starts_with compact (b'+' ∷ [])
      then normalize_international compact
      else normalize_domestic_mobile compact

  unfoldable pub normalize_phone : List ℕ → List ℕ → Outcome (List ℕ)
  unfolding compact_supported_syntax normalize_compact
  normalize_phone raw region = do
    require_supported_region region
    compact ← compact_supported_syntax raw
    normalize_compact compact
