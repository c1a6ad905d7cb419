-- ===== src/Entitlements/Update.antt =====
-- backend/app/entitlements/router.py: `update_entitlements`.
pub mod Kept
use Prim.Native.String.{String}
use qora.Base.{ℕ, Option, none, some, ◌==◌}
use qora.Store.{Session, commit, get_client, update_where}
use qora.Store.Rows.{Client}
use qora.Entitlements.Catalog.{plan_named}
use qora.Entitlements.Overrides.{
  Outcome, ok, invalid, attribute_error, Fields, object, JsonText, Overrides, validate_overrides,
  overrides_column,
}

-- the answers of the endpoint; the last is an uncaught `AttributeError`
pub data Answer : Type 0 where
  updated unknown_plan invalid_overrides not_found server_error : Answer

abbrev pub assign_plan : String → Option String → Client → Client
assign_plan plan column c = record c { plan = some plan; entitlement_overrides = column }

abbrev pub write_plan : ℕ → String → Option String → Session → Session
write_plan id plan column s = record s {
  view = record (s.view) {
    clients = update_where (λ c. c.id == id) (assign_plan plan column) s.view.clients;
  };
}

-- the transaction of `update_entitlements`
unfoldable pub write_update : JsonText → ℕ → String → Overrides → Session → Answer × Session
unfolding overrides_column
write_update lib id plan o s = elim (get_client id s.view) [
  | none ↦ (not_found, s)
  | some client ↦ (updated, commit (write_plan id plan (overrides_column lib o) s))
]

abbrev pub after_validation : JsonText → ℕ → String → Outcome Overrides → Session → Answer × Session
unfolding write_update
after_validation lib id plan (ok o) s = write_update lib id plan o s
after_validation lib id plan invalid s = (invalid_overrides, s)
after_validation lib id plan attribute_error s = (server_error, s)

unfoldable pub update_entitlements : JsonText → ℕ → String → Fields → Session → Answer × Session
unfolding plan_named validate_overrides
update_entitlements lib id plan overrides s = elim (plan_named plan) [
  | none ↦ (unknown_plan, s)
  | some p ↦ after_validation lib id plan (validate_overrides (object overrides)) s
]
