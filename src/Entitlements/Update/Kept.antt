-- ===== src/Entitlements/Update/Kept.antt =====
-- What `update_entitlements` of backend/app/entitlements/router.py leaves in the table.
use Prim.Native.String.{String}
use text.Mathlib.Text.{◌==◌ as str_eq}
use text.Mathlib.TextEquality.{eq_iff}
use qora.Base.{
  ℕ, ◌≡◌, refl, sym, ◌∙◌, ap, false, none, some, List, [], ◌∷◌, ◌==◌, arith, Bool-cases,
  Option-cases, inl, inr, first_row, where_rows, first-passes,
}
use qora.Store.{Session, get_client, update_where}
use qora.Store.Updates.{first-update}
use qora.Store.Rows.{Client}
use qora.Entitlements.Catalog.{Plan, plan_named, plans, spelled}
use qora.Entitlements.Overrides.{
  Outcome, ok, invalid, attribute_error, Fields, object, JsonText, Overrides, validate_overrides,
  stored_overrides, overrides_column, overrides_fields,
}
use qora.Entitlements.Overrides.Stored.{IsWritten, stored_overrides-column}
use qora.Entitlements.Resolve.{plan_of}
use qora.Entitlements.Update.{
  updated, update_entitlements, assign_plan, write_update, after_validation,
}

spelled-name {ℓ} :
    {A : Type ℓ} (name : A → String) (t : String) (l : List A) (a : A)
    → spelled name t l ≡ some a
    → name a ≡ t
spelled-name name t [] a h = cc
spelled-name name t (b ∷ l) a h = ground (arith, eq_iff (name b) t, spelled-name name t l a)

plan_named-name :
    (t : String) (p : Plan) → plan_named t ≡ some p → (p.name ≡ t) × (str_eq t "" ≡ false)
unfolding plan_named
plan_named-name t p h = (
  spelled-name (λ q. q.name) t plans p h,
  elim (Bool-cases (str_eq t "")) [
    | inr e ↦ e
    | inl e ↦
        let path : t ≡ "" = (eq_iff t "").0 e in
        let none_named : plan_named "" ≡ none = refl in cc (h, none_named, ap plan_named path)
  ],
)

-- the row that the update wrote
after_validation-row :
    (lib : JsonText) (id : ℕ) (plan : String) (v : Outcome Overrides) (s : Session)
    (client : Client)
    → (after_validation lib id plan v s).0 ≡ updated
    → get_client id (after_validation lib id plan v s).1.durable ≡ some client
    → (o : Overrides) × (v ≡ ok o)
      × (client.entitlement_overrides ≡ overrides_column lib o)
      × (client.plan ≡ some plan)
unfolding write_update
after_validation-row lib id plan invalid s client h found = cc
after_validation-row lib id plan attribute_error s client h found = cc
after_validation-row lib id plan (ok o) s client h found =
    elim (Option-cases (get_client id s.view)) [
      | inl e ↦ cc (rw (e, write_update) at h)
      | inr (old, e) ↦
          let column = overrides_column lib o in
          let given : first_row (
                where_rows (λ c. c.id == id)
                  (update_where (λ c. c.id == id) (assign_plan plan column) s.view.clients))
              ≡ some client =
            rw (e, write_update) at found in
          let moved =
            first-update (λ c. c.id == id) (λ c. c.id == id) (assign_plan plan column) (λ c. refl)
              s.view.clients in
          let passes = first-passes (λ c. c.id == id) s.view.clients old e in
          let seen = rw e at moved in
          let written : some (assign_plan plan column old) ≡ some client =
            rw passes at (sym seen ∙ given) in
          let same : assign_plan plan column old ≡ client = cc written in
          (o, refl, ap (λ c. c.entitlement_overrides) (sym same), ap (λ c. c.plan) (sym same))
    ]

-- After an accepted update of a client's plan, the client on disk has that plan, and its stored
-- overrides read back as the overrides that were validated, where what was written as JSON reads
-- back and the empty text is no JSON.
pub update_kept :
    (lib : JsonText) (id : ℕ) (plan : String) (fields : Fields) (s : Session)
    → ((o : Overrides)
        → validate_overrides (object fields) ≡ ok o
        → IsWritten lib (object (overrides_fields o)))
    → (update_entitlements lib id plan fields s).0 ≡ updated
    → (client : Client)
    → get_client id (update_entitlements lib id plan fields s).1.durable ≡ some client
    → (o : Overrides) × (validate_overrides (object fields) ≡ ok o)
      × (stored_overrides lib client ≡ ok o)
      × ((plan_of client).name ≡ plan)
unfolding update_entitlements plan_of
update_kept lib id plan fields s law h client found = elim (Option-cases (plan_named plan)) [
  | inl e ↦ cc (rw (e, update_entitlements) at h)
  | inr (p, e) ↦
      let (o, valid, column, named) =
        after_validation-row lib id plan (validate_overrides (object fields)) s client
          (rw (e, update_entitlements) at h) (rw (e, update_entitlements) at found) in
      let (name, nonempty) = plan_named-name plan p e in
      (
        o,
        valid,
        stored_overrides-column lib o client (law o valid) column,
        rw (named, plan_of) (rw (nonempty, e) name),
      )
]
