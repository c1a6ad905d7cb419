-- ===== src/Entitlements/Overrides/Stored.antt =====
-- The overrides of backend/app/entitlements/service.py, written and read back.
use text.Mathlib.Text.{◌==◌ as str_eq}
use text.Mathlib.TextEquality.{eq_iff}
use qora.Base.{
  ℕ, ◌≡◌, refl, sym, ap, Bool, true, false, Option, none, some, List, [], ◌∷◌, Bool-cases, inl, inr,
}
use qora.Store.Rows.{Client}
use qora.Entitlements.Catalog.{
  Feature, Limit, feature_name, limit_name, feature_of, limit_of, outbound_calls, auto_dialer,
  crm_integration, analytics, live_monitor, max_agents, max_concurrent_calls, max_monthly_calls,
  max_monthly_minutes,
}
use qora.Entitlements.Overrides.{
  ok, Json, object, is_falsy, Overrides, no_overrides, validate_overrides, JsonText,
  stored_overrides, overrides_fields, overrides_column, read_features, read_limits, feature_fields,
  limit_fields,
}

-- What `json` documents of a value that was written: it reads back; and the empty text is no JSON.
pub record IsWritten (lib : JsonText) (j : Json) : Type 0 where
  pub loads-dumps : lib.json_loads (lib.json_dumps j) ≡ some j
  pub loads_empty : lib.json_loads "" ≡ none

feature_of-name : (f : Feature) → feature_of (feature_name f) ≡ some f
unfolding feature_of feature_name
feature_of-name outbound_calls = refl
feature_of-name auto_dialer = refl
feature_of-name crm_integration = refl
feature_of-name analytics = refl
feature_of-name live_monitor = refl

limit_of-name : (l : Limit) → limit_of (limit_name l) ≡ some l
unfolding limit_of limit_name
limit_of-name max_agents = refl
limit_of-name max_concurrent_calls = refl
limit_of-name max_monthly_calls = refl
limit_of-name max_monthly_minutes = refl

read_features-written : (l : List (Feature × Bool)) → read_features (feature_fields l) ≡ ok l
read_features-written [] = refl
read_features-written ((f, b) ∷ l) = rw (feature_of-name f, read_features-written l) refl

read_limits-written : (l : List (Limit × Option ℕ)) → read_limits (limit_fields l) ≡ ok l
read_limits-written [] = refl
read_limits-written ((k, none) ∷ l) = rw (limit_of-name k, read_limits-written l) refl
read_limits-written ((k, some n) ∷ l) = rw (limit_of-name k, read_limits-written l) refl

validate-written :
    (fs : List (Feature × Bool)) (ls : List (Limit × Option ℕ))
    → validate_overrides (object (overrides_fields (record { features = fs; limits = ls })))
      ≡ ok (record { features = fs; limits = ls })
unfolding validate_overrides overrides_fields
validate-written [] [] = refl
validate-written (f ∷ fs) [] = rw (read_features-written (f ∷ fs)) refl
validate-written [] (l ∷ ls) = rw (read_limits-written (l ∷ ls)) refl
validate-written (f ∷ fs) (l ∷ ls) =
    rw (read_features-written (f ∷ fs), read_limits-written (l ∷ ls)) refl

falsy-written :
    (fs : List (Feature × Bool)) (ls : List (Limit × Option ℕ))
    → is_falsy (object (overrides_fields (record { features = fs; limits = ls }))) ≡ true
    → ◌≡◌ {A = Overrides} (record { features = fs; limits = ls }) no_overrides
unfolding overrides_fields
falsy-written [] [] h = refl
falsy-written (f ∷ fs) [] h = cc
falsy-written [] (l ∷ ls) h = cc
falsy-written (f ∷ fs) (l ∷ ls) h = cc

validate_fields : (o : Overrides) → validate_overrides (object (overrides_fields o)) ≡ ok o
validate_fields o = validate-written o.features o.limits

empty_unread : (lib : JsonText) (j : Json) → IsWritten lib j → str_eq (lib.json_dumps j) "" ≡ false
empty_unread lib j law = elim (Bool-cases (str_eq (lib.json_dumps j) "")) [
  | inr e ↦ e
  | inl e ↦
      let path : lib.json_dumps j ≡ "" = (eq_iff (lib.json_dumps j) "").0 e in
      cc (law.loads-dumps, law.loads_empty, ap lib.json_loads path)
]

falsy_fields : (o : Overrides) → is_falsy (object (overrides_fields o)) ≡ true → o ≡ no_overrides
falsy_fields o h = falsy-written o.features o.limits h

-- overrides that were written are the ones that are read
pub stored_overrides-column :
    (lib : JsonText) (o : Overrides) (client : Client)
    → IsWritten lib (object (overrides_fields o))
    → client.entitlement_overrides ≡ overrides_column lib o
    → stored_overrides lib client ≡ ok o
unfolding stored_overrides overrides_column
stored_overrides-column lib o client law e =
    let dict = object (overrides_fields o) in
    elim (Bool-cases (is_falsy (object (overrides_fields o)))) [
      | inl f ↦ rw (e, stored_overrides) (rw (f, overrides_column) (ap ok (sym (falsy_fields o f))))
      | inr f ↦
          rw (e, stored_overrides)
            (rw (f, overrides_column)
              (rw (empty_unread lib dict law, law.loads-dumps, validate_fields o) refl))
    ]
