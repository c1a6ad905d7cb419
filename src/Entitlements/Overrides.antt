-- ===== src/Entitlements/Overrides.antt =====
-- backend/app/entitlements/service.py: the overrides of a client and their storage. JSON text is
-- read and written by the parameters `json_loads` and `json_dumps`.
pub mod Stored
use Prim.Native.String.{String}
use text.Mathlib.Text.{◌==◌ as str_eq}
use qora.Base.{
  ℕ, ◌≡◌, refl, Bool, true, false, Option, none, some, List, [], ◌∷◌, ◌&&◌, ◌||◌, not,
  if◌then◌else◌,
}
use qora.Store.{Session, commit, get_client, update_where}
use qora.Store.Rows.{Client}
use qora.Entitlements.Catalog.{
  Feature, Limit, Plan, feature_name, limit_name, feature_of, limit_of, outbound_calls, auto_dialer,
  crm_integration, analytics, live_monitor, max_agents, max_concurrent_calls, max_monthly_calls,
  max_monthly_minutes, plan_named, fallback_plan,
}
use qora.Base.{◌==◌}

-- A JSON value as Python reads it. `fraction` is a float, with whether it is zero; `negative n` is
-- the integer -(n + 1).
mutual
  pub data Json : Type 0 where
    null : Json
    boolean : Bool → Json
    integer : ℕ → Json
    negative : ℕ → Json
    fraction : Bool → Json
    string : String → Json
    array : Items → Json
    object : Fields → Json

  pub data Items : Type 0 where
    nothing : Items
    item : Json → Items → Items

  -- a dict's entries; its keys differ
  pub data Fields : Type 0 where
    done : Fields
    field : String → Json → Fields → Fields

-- `not value` in Python
abbrev pub is_falsy : Json → Bool
is_falsy null = true
is_falsy (boolean b) = not b
is_falsy (integer n) = n == 0
is_falsy (negative n) = false
is_falsy (fraction zero) = zero
is_falsy (string t) = str_eq t ""
is_falsy (array nothing) = true
is_falsy (array (item j l)) = false
is_falsy (object done) = true
is_falsy (object (field k j f)) = false

-- the normalised overrides; an empty section is one that the dict lacks
pub record Overrides : Type 0 where
  pub features : List (Feature × Bool)
  pub limits : List (Limit × Option ℕ)

abbrev pub no_overrides : Overrides
no_overrides = record { features = []; limits = [] }

-- A value, an error that the caller of `_stored_overrides` never sees (`InvalidOverridesError`, or
-- the `TypeError` of a value that is no set of names), or an `AttributeError`.
pub data Outcome {ℓ} (A : Type ℓ) : Type ℓ where
  ok : A → Outcome A
  invalid : Outcome A
  attribute_error : Outcome A

infixl 5 ◌>>=◌ ◌>>◌
abbrev pub ◌>>=◌ {ℓ κ} :
    {Value : Type ℓ} {Next : Type κ} (step : Outcome Value) (next : Value → Outcome Next)
    → Outcome Next
attribute_error >>= next = attribute_error
invalid >>= next = invalid
ok value >>= next = next value

abbrev pub ◌>>◌ {ℓ} :
    {Next : Type ℓ} (step : Outcome (Unit {0})) (rest : Outcome Next) → Outcome Next
step >> rest = step >>= λ _. rest

-- the steps of a block that has returned a value
pub ok_steps {ℓ κ} :
    {Value : Type ℓ} {Next : Type κ} (step : Outcome Value) (next : Value → Outcome Next)
    → {result : Next} → (step >>= next) ≡ ok result
    → (value : Value) × (step ≡ ok value) × (next value ≡ ok result)
ok_steps attribute_error next returned = cc
ok_steps invalid next returned = cc
ok_steps (ok value) next returned = (value, refl, returned)

-- `raw.get(name)`, and null for a missing key
abbrev get_field : String → Fields → Json
get_field k done = null
get_field k (field j v f) = let rest = get_field k f in if str_eq j k then v else rest

-- the keys are among "features" and "limits"
abbrev known_sections : Fields → Bool
known_sections done = true
known_sections (field k v f) = (str_eq k "features" || str_eq k "limits") && known_sections f

abbrev feature_value : Json → Outcome Bool
feature_value (boolean b) = ok b
feature_value _ = invalid

-- `bool` is a subclass of `int`, and rejected
abbrev limit_value : Json → Outcome (Option ℕ)
limit_value null = ok none
limit_value (integer n) = ok (some n)
limit_value _ = invalid

abbrev known {ℓ} : {A : Type ℓ} → Option A → Outcome A
known none = invalid
known (some a) = ok a

abbrev read_features : Fields → Outcome (List (Feature × Bool))
read_features done = ok []
read_features (field k v f) = do
  name ← known (feature_of k)
  b ← feature_value v
  rest ← read_features f
  ok ((name, b) ∷ rest)

abbrev read_limits : Fields → Outcome (List (Limit × Option ℕ))
read_limits done = ok []
read_limits (field k v f) = do
  name ← known (limit_of k)
  n ← limit_value v
  rest ← read_limits f
  ok ((name, n) ∷ rest)

-- `raw.get(...) or {}`, whose `.items()` only a dict has
abbrev section : Json → Outcome Fields
section (object f) = ok f
section v = if is_falsy v then ok done else attribute_error

-- `set(raw) - {...}` of a list is empty where the list names sections only; then `raw.get` fails
abbrev names_sections : Items → Bool
names_sections nothing = true
names_sections (item (string t) l) = (str_eq t "features" || str_eq t "limits") && names_sections l
names_sections (item _ l) = false

unfoldable pub validate_overrides : Json → Outcome Overrides
unfolding feature_of limit_of
validate_overrides (object done) = ok no_overrides
validate_overrides (object (field k v f)) =
    let raw = field k v f in
    if known_sections raw
    then (do
      features ← section (get_field "features" raw)
      fs ← read_features features
      limits ← section (get_field "limits" raw)
      ls ← read_limits limits
      ok (record { features = fs; limits = ls }))
    else invalid
validate_overrides (array (item j l)) =
    if names_sections (item j l) then attribute_error else invalid
validate_overrides raw = if is_falsy raw then ok no_overrides else invalid

-- `json.loads`, where `none` is a `JSONDecodeError`, and `json.dumps`
pub record JsonText : Type 0 where
  pub json_loads : String → Option Json
  pub json_dumps : Json → String

-- what is caught becomes `{}`
abbrev ignored : Outcome Overrides → Outcome Overrides
ignored (ok o) = ok o
ignored invalid = ok no_overrides
ignored attribute_error = attribute_error

unfoldable pub stored_overrides : JsonText → Client → Outcome Overrides
unfolding validate_overrides
stored_overrides lib client = elim (client.entitlement_overrides) [
  | none ↦ ok no_overrides
  | some raw ↦ if str_eq raw "" then ok no_overrides else elim (lib.json_loads raw) [
    | none ↦ ok no_overrides
    | some j ↦ ignored (validate_overrides j)
  ]
]

abbrev feature_fields : List (Feature × Bool) → Fields
feature_fields [] = done
feature_fields ((f, b) ∷ l) = field (feature_name f) (boolean b) (feature_fields l)

abbrev limit_json : Option ℕ → Json
limit_json none = null
limit_json (some n) = integer n

abbrev limit_fields : List (Limit × Option ℕ) → Fields
limit_fields [] = done
limit_fields ((l, n) ∷ rest) = field (limit_name l) (limit_json n) (limit_fields rest)

abbrev add_limits : List (Limit × Option ℕ) → Fields
add_limits [] = done
add_limits (l ∷ ls) = field "limits" (object (limit_fields (l ∷ ls))) done

abbrev add_sections : List (Feature × Bool) → Fields → Fields
add_sections [] rest = rest
add_sections (f ∷ fs) rest = field "features" (object (feature_fields (f ∷ fs))) rest

-- the normalised overrides as the dict that `validate_overrides` returns
unfoldable pub overrides_fields : Overrides → Fields
unfolding feature_name limit_name
overrides_fields o = add_sections o.features (add_limits o.limits)

-- `json.dumps(overrides) if overrides else None`
unfoldable pub overrides_column : JsonText → Overrides → Option String
unfolding overrides_fields
overrides_column lib o =
    let dict = object (overrides_fields o) in
    if is_falsy dict then none else some (lib.json_dumps dict)
