-- ===== src/Entitlements/Gates/Allowed.antt =====
-- When `check_dial_allowed` of backend/app/entitlements/service.py lets a dial through.
use qora.Base.{
  ℕ, ◌<◌, ◌≡◌, refl, ap, ◌↔◌, Bool, true, Option, none, some, List, [], ◌∷◌, All, arith, Bool-cases,
  Option-cases, inl, inr,
}
use qora.Store.{Db}
use qora.Store.Rows.{Client}
use qora.Entitlements.Catalog.{Limit}
use qora.Entitlements.Overrides.{ok, ok_steps, JsonText}
use qora.Entitlements.Resolve.{Entitlements, resolve_entitlements}
use qora.Entitlements.Usage.{Usage, Calendar, get_usage}
use qora.Entitlements.Gates.{
  gate, dial_caps, used_of, all_unlimited, block_of, first_block, check_entitled,
  check_dial_allowed,
}

-- the cap is not reached
unfoldable pub IsBelow : Usage → Limit → Option ℕ → Type 0
IsBelow usage name none = Unit
IsBelow usage name (some cap) = used_of usage name < cap

-- the feature is on, and no cap is reached
unfoldable pub MayDial : Bool → Entitlements → Usage → Type 0
MayDial scheduled ent usage =
    (ent.features (gate scheduled) ≡ true)
    × All (λ name. IsBelow usage name (ent.limits name)) dial_caps

IsBelow-iff :
    (usage : Usage) (name : Limit) (cap : Option ℕ)
    → (block_of usage name cap ≡ none) ↔ IsBelow usage name cap
unfolding IsBelow
IsBelow-iff usage name none = ((λ h. tt), (λ h. refl))
IsBelow-iff usage name (some cap) = ((λ h. ground (arith, h)), (λ h. ground (arith, h)))

first_block_iff :
    (usage : Usage) (limit : Limit → Option ℕ) (names : List Limit)
    → (first_block usage limit names ≡ none) ↔ All (λ name. IsBelow usage name (limit name)) names
first_block_iff usage limit [] = ((λ h. tt), (λ h. refl))
first_block_iff usage limit (name ∷ names) =
    let here = IsBelow-iff usage name (limit name) in
    let rest = first_block_iff usage limit names in
    (
      (λ h. elim (Option-cases (block_of usage name (limit name))) [
        | inl e ↦ (here.0 e, rest.0 (rw (e, first_block) at h))
        | inr (b, e) ↦ cc (rw (e, first_block) at h)
      ]),
      (λ (h, t). rw (here.1 h, first_block) (rest.1 t)),
    )

unlimited-blocks :
    (usage : Usage) (limit : Limit → Option ℕ) (names : List Limit)
    → all_unlimited limit names ≡ true
    → first_block usage limit names ≡ none
unlimited-blocks usage limit [] h = refl
unlimited-blocks usage limit (name ∷ names) h = elim (Option-cases (limit name)) [
  | inl e ↦ rw (e, first_block) (unlimited-blocks usage limit names (rw (e, all_unlimited) at h))
  | inr (n, e) ↦ cc (rw (e, all_unlimited) at h)
]

check_entitled_iff :
    (calendar : Calendar) (now : ℕ) (client : Client) (scheduled : Bool) (db : Db)
    (ent : Entitlements)
    → (check_entitled calendar now client scheduled db ent ≡ none)
      ↔ MayDial scheduled ent (get_usage calendar now client db)
unfolding check_entitled MayDial
check_entitled_iff calendar now client scheduled db ent =
    let usage = get_usage calendar now client db in
    let caps = first_block_iff usage ent.limits dial_caps in
    (
      (λ h. elim (Bool-cases (ent.features (gate scheduled))) [
        | inr f ↦ cc (rw (f, check_entitled) at h)
        | inl f ↦ elim (Bool-cases (all_unlimited ent.limits dial_caps)) [
          | inl u ↦ (f, caps.0 (unlimited-blocks usage ent.limits dial_caps u))
          | inr u ↦ (f, caps.0 (rw (f, u, check_entitled) at h))
        ]
      ]),
      (λ (f, below). elim (Bool-cases (all_unlimited ent.limits dial_caps)) [
        | inl u ↦ rw (f, u, check_entitled) refl
        | inr u ↦ rw (f, u, check_entitled) (caps.1 below)
      ]),
    )

-- A dial is allowed exactly if the client's entitlements resolve, the feature of the dial is on,
-- and the usage is below each of the caps on concurrent calls, monthly calls and monthly minutes
-- that is set.
pub check_dial_allowed_iff :
    (lib : JsonText) (calendar : Calendar) (now : ℕ) (client : Client) (scheduled : Bool) (db : Db)
    → (check_dial_allowed lib calendar now client scheduled db ≡ ok none) ↔ (
        (ent : Entitlements) × (resolve_entitlements lib client ≡ ok ent)
        × MayDial scheduled ent (get_usage calendar now client db))
unfolding check_dial_allowed
check_dial_allowed_iff lib calendar now client scheduled db = (
  (λ h.
      let (ent, e, k) = ok_steps (resolve_entitlements lib client) _ h in
      (ent, e, (check_entitled_iff calendar now client scheduled db ent).0 (cc k))),
  (λ (ent, e, may).
      rw (e, check_dial_allowed)
        (ap ok ((check_entitled_iff calendar now client scheduled db ent).1 may))),
)
