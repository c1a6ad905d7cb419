-- ===== src/Outbound/Sip/Agree.antt =====
-- About `_extract_sip_fields` of backend/app/outbound/probe.py.
use qora.Base.{
  ℕ, ◌≤◌, ◌≡◌, ap, subst, ◌∙◌, ◌⊎◌, Bool, true, ◌==◌, Option, none, some, List, [], ◌∷◌, arith, All,
  where_rows, any_row, Bool-cases, Option-cases, inl, inr, is_none,
}
use qora.Outbound.Sip.{
  SipMessage, is_invite, call_ids, max_cseq, is_final_response, code_eq, same_evidence, all_same,
  sole_element, final_evidence, extract_sip_fields,
}

module _ {ℓ κ} {A : Type ℓ} (eq : A → A → Bool) (P : A → Type κ) where
  same-All :
      (x : A) → ((y : A) → eq x y ≡ true → P y) → (xs : List A) → all_same eq x xs ≡ true → All P xs
  same-All x keeps [] h = tt
  same-All x keeps (y ∷ ys) h = (keeps y (ground arith), same-All x keeps ys (ground arith))

  -- what holds of the sole element and of all that equals it holds of the whole list
  sole-All :
      (xs : List A) (x : A)
      → sole_element eq xs ≡ some x
      → P x
      → ((y : A) → eq x y ≡ true → P y)
      → All P xs
  sole-All [] x h px keeps = cc
  sole-All (a ∷ xs) x h px keeps = elim (Bool-cases (all_same eq a xs)) [
    | inl f ↦
        let same : a ≡ x = ground (arith, rw f at h) in
        rw same (px, same-All x keeps xs (rw⁻¹ same f))
    | inr f ↦ cc (rw f at h)
  ]

-- the message belongs to this call, or to none
abbrev pub OfCall : ℕ → SipMessage → Type 0
OfCall key m = (m.call_id ≡ none) ⊎ (m.call_id ≡ some key)

-- a final response to this INVITE has this code
abbrev pub HasCode : ℕ → ℕ → SipMessage → Type 0
HasCode cseq code m = is_final_response cseq m ≡ true → m.status_code ≡ some code

calls-OfCall :
    (key : ℕ) (ms : List SipMessage) → All (λ k. k ≡ key) (call_ids ms) → All (OfCall key) ms
calls-OfCall key [] h = tt
calls-OfCall key (m ∷ ms) h = elim (Option-cases m.call_id) [
  | inl e ↦ (inl e, calls-OfCall key ms (rw e at h))
  | inr (k, e) ↦
      let h' : (k ≡ key) × All (λ j. j ≡ key) (call_ids ms) = rw e at h in
      (inr (e ∙ ap some h'.0), calls-OfCall key ms h'.1)
]

finals-HasCode :
    (cseq code : ℕ) (ms : List SipMessage)
    → All (λ m. m.status_code ≡ some code) (where_rows (is_final_response cseq) ms)
    → All (HasCode cseq code) ms
finals-HasCode cseq code [] h = tt
finals-HasCode cseq code (m ∷ ms) h = elim (Bool-cases (is_final_response cseq m)) [
  | inl e ↦
      let h' : (m.status_code ≡ some code)
          × All (λ x. x.status_code ≡ some code) (where_rows (is_final_response cseq) ms) =
        rw e at h in
      ((λ f. h'.0), finals-HasCode cseq code ms h'.1)
  | inr e ↦ ((λ f. cc (e, f)), finals-HasCode cseq code ms (rw e at h))
]

module _ {ℓ κ} {A : Type ℓ} (P : A → Type κ) where
  sole-holds :
      (eq : A → A → Bool) (xs : List A) (x : A) → sole_element eq xs ≡ some x → All P xs → P x
  sole-holds eq [] x h all = cc
  sole-holds eq (a ∷ xs) x h all = elim (Bool-cases (all_same eq a xs)) [
    | inl f ↦ let same : a ≡ x = ground (arith, rw f at h) in subst P same all.0
    | inr f ↦ cc (rw f at h)
  ]

rows-All : (p : SipMessage → Bool) (ms : List SipMessage) → All (λ m. p m ≡ true) (where_rows p ms)
rows-All p [] = tt
rows-All p (m ∷ ms) = elim (Bool-cases (p m)) [
  | inl e ↦ rw e (e, rows-All p ms)
  | inr e ↦ rw e (rows-All p ms)
]

code_eq-some : (code : ℕ) (o : Option ℕ) → code_eq (some code) o ≡ true → o ≡ some code
code_eq-some code none h = cc
code_eq-some code (some c) h = ap some (ground arith)

-- what the evidence says of the INVITE's messages
abbrev pub Agreed : List SipMessage → ℕ → Type 0
Agreed invites code = (200 ≤ code) × (code ≤ 699) × All (HasCode (max_cseq invites) code) invites

evidence-Agreed :
    (invites : List SipMessage) (m : SipMessage)
    → final_evidence invites ≡ some m
    → (code : ℕ) × (m.status_code ≡ some code) × Agreed invites code
evidence-Agreed invites m h = elim (Bool-cases (any_row (λ x. is_none x.cseq) invites)) [
  | inl f ↦ cc (rw f at h)
  | inr f ↦
      let cseq : ℕ = max_cseq invites in
      let finals : List SipMessage = where_rows (is_final_response cseq) invites in
      let sole : sole_element same_evidence finals ≡ some m = rw f at h in
      let final =
        sole-holds (λ x. is_final_response cseq x ≡ true) same_evidence finals m sole
          (rows-All (is_final_response cseq) invites) in
      elim (Option-cases m.status_code) [
        | inl e ↦ ground (arith, e, final)
        | inr (code, e) ↦ (
          code,
          e,
          (
            ground (arith, e, final),
            ground (arith, e, final),
            finals-HasCode cseq code invites (
                sole-All same_evidence (λ x. x.status_code ≡ some code) finals m sole e
                  (λ y s. code_eq-some code y.status_code (ground (arith, s, e)))),
          ),
        )
      ]
]

-- Where a SIP call id is written, every message belongs to that call or to none, a status code
-- between 200 and 699 is written with it, and every final response to the latest INVITE has that
-- code.
pub extract_sip_fields-Agreed :
    (ms : List SipMessage) (key : ℕ)
    → (extract_sip_fields ms).sip_call_id ≡ some key
    → All (OfCall key) ms
      × ((code : ℕ) × ((extract_sip_fields ms).sip_status_code ≡ some code)
          × Agreed (where_rows is_invite ms) code)
unfolding extract_sip_fields
extract_sip_fields-Agreed ms key h =
    elim (Option-cases (sole_element (λ a b. a == b) (call_ids ms))) [
      | inl e ↦ cc (rw (extract_sip_fields, e) at h)
      | inr (k, e) ↦ elim (Option-cases (final_evidence (where_rows is_invite ms))) [
        | inl f ↦ cc (rw (extract_sip_fields, e, f) at h)
        | inr (m, f) ↦
            let same : k ≡ key = ground (arith, rw (extract_sip_fields, e, f) at h) in
            let (code, c, agreed) = evidence-Agreed (where_rows is_invite ms) m f in
            (
              calls-OfCall key ms (
                  sole-All (λ a b. a == b) (λ j. j ≡ key) (call_ids ms) k e same
                    (λ y s. ground (arith, s, same))),
              (code, rw (extract_sip_fields, e, f) c, agreed),
            )
      ]
    ]
