-- ===== src/Outbound/Sip.antt =====
-- `_extract_sip_fields` of backend/app/outbound/probe.py: the one final INVITE response, or nothing.
pub mod Agree
use Prim.Native.String.{String}
use text.Mathlib.Text.{◌==◌ as str_eq}
use qora.Base.{
  ℕ, Bool, true, false, Option, none, some, List, [], ◌∷◌, ◌&&◌, leb, ltb, ◌==◌, if◌then◌else◌,
  where_rows, any_row, is_none, holds_key,
}

-- Call ids are compared only; a missing one and an empty one are `none`.
pub record SipMessage : Type 0 where
  pub call_id : Option ℕ
  pub method : Option String
  pub status_code : Option ℕ
  pub reason_phrase : Option String
  pub cseq : Option ℕ

-- the three columns; all `none` when the evidence is unclear
pub record SipFields : Type 0 where
  pub sip_call_id : Option ℕ
  pub sip_status_code : Option ℕ
  pub sip_reason : Option String

abbrev pub unknown_fields : SipFields
unknown_fields = record { sip_call_id = none; sip_status_code = none; sip_reason = none }

abbrev pub is_invite : SipMessage → Bool
is_invite m = elim m.method [ none ↦ false | some t ↦ str_eq t "INVITE" ]

-- the call ids of the messages that have one
abbrev pub call_ids : List SipMessage → List ℕ
call_ids [] = []
call_ids (m ∷ ms) = let rest = call_ids ms in elim m.call_id [ none ↦ rest | some k ↦ k ∷ rest ]

-- `max(msg.cseq ...)`
abbrev pub max_cseq : List SipMessage → ℕ
max_cseq [] = 0
max_cseq (m ∷ ms) =
    let rest = max_cseq ms in elim m.cseq [ none ↦ rest | some n ↦ if ltb rest n then n else rest ]

abbrev pub is_final_code : Option ℕ → Bool
is_final_code none = false
is_final_code (some n) = leb 200 n && leb n 699

abbrev pub is_final_response : ℕ → SipMessage → Bool
is_final_response cseq m = holds_key m.cseq cseq && is_final_code m.status_code

abbrev pub reason_eq : Option String → Option String → Bool
reason_eq none none = true
reason_eq (some a) (some b) = str_eq a b
reason_eq _ _ = false

abbrev pub code_eq : Option ℕ → Option ℕ → Bool
code_eq none none = true
code_eq (some a) (some b) = a == b
code_eq _ _ = false

-- the pair (status code, reason phrase) of two messages is the same
abbrev pub same_evidence : SipMessage → SipMessage → Bool
same_evidence a b = code_eq a.status_code b.status_code && reason_eq a.reason_phrase b.reason_phrase

-- a set with one element: the list is not empty, and all of it equals the first
abbrev pub all_same {ℓ} : {A : Type ℓ} → (A → A → Bool) → A → List A → Bool
all_same eq a [] = true
all_same eq a (x ∷ xs) = eq a x && all_same eq a xs

abbrev pub sole_element {ℓ} : {A : Type ℓ} → (A → A → Bool) → List A → Option A
sole_element eq [] = none
sole_element eq (x ∷ xs) = if all_same eq x xs then some x else none

-- what the final responses of the latest INVITE agree on
abbrev pub final_evidence : List SipMessage → Option SipMessage
final_evidence invites =
    if any_row (λ m. is_none m.cseq) invites
    then none
    else sole_element same_evidence (where_rows (is_final_response (max_cseq invites)) invites)

unfoldable pub extract_sip_fields : List SipMessage → SipFields
extract_sip_fields messages = elim (sole_element (λ a b. a == b) (call_ids messages)) [
  | none ↦ unknown_fields
  | some key ↦ elim (final_evidence (where_rows is_invite messages)) [
    | none ↦ unknown_fields
    | some m ↦ record {
      sip_call_id = some key;
      sip_status_code = m.status_code;
      sip_reason = m.reason_phrase;
    }
  ]
]
