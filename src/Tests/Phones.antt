-- ===== src/Tests/Phones.antt =====
-- The guard before a dial at concrete numbers.
use qora.Base.{ℕ, ◌≡◌, refl, ◌↔◌, true, false, Option, none, some, List, [], inl, if◌then◌else◌}
use qora.Phones.Compact.{ok, is_digit}
use qora.Phones.Compact.Shape.{IsCompact}
use qora.Base.Texts.{same_text}
use qora.Phones.Normalize.{Phonenumbers, mobile, normalize_phone}
use qora.Phones.Normalize.Stable.{IsFaithful}
use qora.Phones.Guard.{validate_e164, valid, argentina, validate_e164_iff}
use qora.Tests.Fixtures.{mobile_number}

-- a library that knows one mobile number, which 11 15-2345-6789 and its E.164 text name
pub data One : Type 0 where
  one : One

abbrev pub knows : List ℕ → Option One
knows text = if same_text text mobile_number then some one else none

abbrev pub one_number : Phonenumbers
one_number = record {
  Number = One;
  parse = knows;
  country_code = λ n. 54;
  is_valid_number = λ n. true;
  is_valid_number_for_region = λ n. true;
  number_type = λ n. mobile;
  format_e164 = λ n. mobile_number;
  format_national = λ n. [];
  is_space = λ c. false;
}

parse_one : (n : One) → true ≡ true → one_number.parse (one_number.format_e164 n) ≡ some n
parse_one one h = refl

pub one_number-IsFaithful : IsFaithful one_number
unfolding IsCompact is_digit
one_number-IsFaithful = record {
  format_e164_shape = λ n. (
    inl refl,
    (
      refl,
      (
        refl,
        (refl, (refl, (refl, (refl, (refl, (refl, (refl, (refl, (refl, (refl, (refl, tt))))))))))),
      ),
    ),
  );
  parse-format_e164 = parse_one;
}

validate_e164_iff_example :
    (validate_e164 one_number mobile_number ≡ valid mobile_number)
    ↔ ((raw : List ℕ) × (normalize_phone one_number raw argentina ≡ ok mobile_number))
validate_e164_iff_example = validate_e164_iff one_number one_number-IsFaithful mobile_number
