-- ===== src/Tests/Entitlements.antt =====
-- The plan of a client and its overrides at concrete data.
use text.Mathlib.Text.{◌==◌ as str_eq}
use qora.Base.{◌≡◌, refl, subst, ◌/◌, ◌*◌, if◌then◌else◌, ◌↔◌, true, none, some, [], ◌∷◌}
use qora.Clock.{day}
use qora.Store.Rows.{Client}
use qora.Entitlements.Catalog.{auto_dialer, plan_named, feature_of, feature_name}
use qora.Entitlements.Overrides.{
  ok, Json, boolean, object, Fields, done, field, Overrides, JsonText, validate_overrides,
  stored_overrides, overrides_column, overrides_fields,
}
use qora.Entitlements.Overrides.Stored.{IsWritten}
use qora.Entitlements.Resolve.{Entitlements, resolve_entitlements, plan_of}
use qora.Entitlements.Update.{update_entitlements, write_update}
use qora.Entitlements.Update.Kept.{update_kept}
use qora.Entitlements.Usage.{Calendar, get_usage}
use qora.Entitlements.Gates.{check_dial_allowed}
use qora.Entitlements.Gates.Allowed.{MayDial, check_dial_allowed_iff}
use qora.Tests.Fixtures.{morning, client_row, settled_on}

-- the starter plan, with the dialer switched on
abbrev pub dialer_on : Fields
dialer_on = field "features" (object (field "auto_dialer" (boolean true) done)) done

-- the client after the update
abbrev starter_client : JsonText → Client
starter_client lib = record client_row {
  plan = some "starter";
  entitlement_overrides =
      overrides_column lib (record { features = (auto_dialer, true) ∷ []; limits = [] });
}

abbrev pub dialer_json : Json
dialer_json = object dialer_on

-- a `json` that knows the one text that is written here
abbrev pub one_text : JsonText
one_text = record {
  json_loads = λ t. if str_eq t "" then none else some dialer_json;
  json_dumps = λ j. "{\"features\": {\"auto_dialer\": true}}";
}

dialer_overrides : Overrides
dialer_overrides = record { features = (auto_dialer, true) ∷ []; limits = [] }

written :
    (o : Overrides)
    → validate_overrides (object dialer_on) ≡ ok o
    → IsWritten one_text (object (overrides_fields o))
unfolding validate_overrides overrides_fields feature_of feature_name dialer_overrides
written o h =
    let same : dialer_overrides ≡ o = cc h in
    subst (λ x. IsWritten one_text (object (overrides_fields x))) same
      (record { loads-dumps = refl; loads_empty = refl })

update_kept_example :
    (o : Overrides) × (validate_overrides (object dialer_on) ≡ ok o)
    × (stored_overrides one_text (starter_client one_text) ≡ ok o)
    × ((plan_of (starter_client one_text)).name ≡ "starter")
unfolding update_entitlements write_update validate_overrides overrides_column overrides_fields
    plan_named feature_of feature_name
update_kept_example =
    update_kept one_text 1 "starter" dialer_on (settled_on []) written refl
      (starter_client one_text) refl

-- the first of a month is taken to be the start of the day
abbrev pub calendar : Calendar
calendar = record { month_start = λ w. w / day * day }

check_dial_allowed_iff_example :
    (check_dial_allowed one_text calendar morning client_row true (settled_on []).view ≡ ok none)
    ↔ ((ent : Entitlements) × (resolve_entitlements one_text client_row ≡ ok ent)
        × MayDial true ent (get_usage calendar morning client_row (settled_on []).view))
check_dial_allowed_iff_example =
    check_dial_allowed_iff one_text calendar morning client_row true (settled_on []).view
