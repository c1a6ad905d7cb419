-- ===== src/Phones/Compact.antt =====
-- backend/app/phones/normalization.py: `_compact_supported_syntax`, which scans a number and drops
-- its visual separators.
pub mod Shape
use qora.Base.{
  ℕ, suc, Bool, true, false, Option, none, some, List, [], ◌∷◌, ◌&&◌, ◌||◌, not, leb, ◌==◌,
  if◌then◌else◌, where_rows, is_none,
}

-- `_ALLOWED_REASONS`
pub data Reason : Type 0 where
  region_required unsupported_region invalid_syntax ambiguous_or_incomplete : Reason
  invalid_number unsupported_country unsupported_type : Reason

-- a value, or a `PhoneNormalizationError`
pub data Outcome {ℓ} (A : Type ℓ) : Type ℓ where
  ok : A → Outcome A
  error : Reason → Outcome A

-- `character.isascii() and character.isdigit()`
unfoldable pub is_digit : ℕ → Bool
is_digit c = leb b'0' c && leb c b'9'

unfoldable pub is_digit_or_closing_group : ℕ → Bool
unfolding is_digit
is_digit_or_closing_group c = is_digit c || c == b')'

unfoldable pub is_digit_or_opening_group : ℕ → Bool
unfolding is_digit
is_digit_or_opening_group c = is_digit c || c == b'('

-- the tests of a dash; `previous` is the character before it, which none is at index 0
unfoldable pub dash_allowed : Option ℕ → List ℕ → Bool
unfolding is_digit_or_closing_group is_digit_or_opening_group
dash_allowed none following = false
dash_allowed (some p) [] = false
dash_allowed (some p) (f ∷ rest) = is_digit_or_closing_group p && is_digit_or_opening_group f

-- the locals of the loop
pub record Scan : Type 0 where
  pub inside_parentheses : Bool
  pub parenthesis_digits : ℕ

-- one round of the loop; none is the error
unfoldable pub scan_step : Option ℕ → Scan → ℕ → List ℕ → Option Scan
unfolding is_digit dash_allowed
scan_step previous s c following =
    if is_digit c
    then some (record s {
      parenthesis_digits =
          if s.inside_parentheses then suc s.parenthesis_digits else s.parenthesis_digits;
    })
    else if c == b'+' && is_none previous
    then some s
    else if c == b'-'
    then (if dash_allowed previous following then some s else none)
    else if c == b' '
    then some s
    else if c == b'('
    then (if s.inside_parentheses
        then none
        else some (record { inside_parentheses = true; parenthesis_digits = 0 }))
    else if c == b')'
    then (if not s.inside_parentheses || s.parenthesis_digits == 0
        then none
        else some (record s { inside_parentheses = false }))
    else none

-- the loop, and the test after it
unfoldable pub scan : Option ℕ → Scan → List ℕ → Bool
unfolding scan_step
scan previous s [] = not s.inside_parentheses
scan previous s (c ∷ rest) = elim (scan_step previous s c rest) [
  | none ↦ false
  | some s' ↦ scan (some c) s' rest
]

abbrev pub lstrip : List ℕ → List ℕ
lstrip [] = []
lstrip (c ∷ rest) = if c == b' ' then lstrip rest else c ∷ rest

abbrev pub rstrip : List ℕ → List ℕ
rstrip [] = []
rstrip (c ∷ rest) = elim (rstrip rest) [
  | [] ↦ if c == b' ' then [] else c ∷ []
  | d ∷ ds ↦ c ∷ d ∷ ds
]

-- `.strip(" ")`
unfoldable pub strip_spaces : List ℕ → List ℕ
strip_spaces text = rstrip (lstrip text)

-- `character not in " -()"`
abbrev pub is_kept : ℕ → Bool
is_kept c = not (c == b' ' || (c == b'-' || (c == b'(' || c == b')')))

unfoldable pub strip_visual_separators : List ℕ → List ℕ
strip_visual_separators text = where_rows is_kept text

abbrev pub nothing_inside : Scan
nothing_inside = record { inside_parentheses = false; parenthesis_digits = 0 }

abbrev pub is_blank_number : List ℕ → Bool
is_blank_number [] = true
is_blank_number (c ∷ []) = c == b'+'
is_blank_number (c ∷ d ∷ rest) = false

-- the rest of the function on the stripped value
unfoldable pub compact_value : List ℕ → Outcome (List ℕ)
unfolding scan strip_visual_separators
compact_value [] = error invalid_syntax
compact_value (c ∷ rest) =
    let compact = strip_visual_separators (c ∷ rest) in
    if scan none nothing_inside (c ∷ rest)
    then (if is_blank_number compact then error invalid_syntax else ok compact)
    else error invalid_syntax

unfoldable pub compact_supported_syntax : List ℕ → Outcome (List ℕ)
unfolding strip_spaces compact_value
compact_supported_syntax raw = compact_value (strip_spaces raw)
