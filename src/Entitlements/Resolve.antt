-- ===== src/Entitlements/Resolve.antt =====
-- backend/app/entitlements/service.py: `resolve_entitlements`.
use Prim.Native.String.{String}
use text.Mathlib.Text.{◌==◌ as str_eq}
use qora.Base.{ℕ, Bool, Option, none, some, List, [], ◌∷◌, ◌==◌, if◌then◌else◌}
use qora.Store.Rows.{Client}
use qora.Entitlements.Catalog.{
  Feature, Limit, Plan, outbound_calls, auto_dialer, crm_integration, analytics, live_monitor,
  max_agents, max_concurrent_calls, max_monthly_calls, max_monthly_minutes, plan_named,
  fallback_plan,
}
use qora.Entitlements.Overrides.{Outcome, ok, ◌>>=◌, JsonText, Overrides, stored_overrides}

pub record Entitlements : Type 0 where
  pub plan : String
  pub features : Feature → Bool
  pub limits : Limit → Option ℕ
  pub overrides : Overrides

-- `{**defaults, **changes}[key]`
abbrev pub merged {ℓ κ} :
    {A : Type ℓ} {B : Type κ} → (A → A → Bool) → (A → B) → List (A × B) → A → B
merged same defaults [] key = defaults key
merged same defaults ((k, v) ∷ l) key =
    let rest = merged same defaults l key in if same k key then v else rest

abbrev pub feature_rank : Feature → ℕ
feature_rank outbound_calls = 0
feature_rank auto_dialer = 1
feature_rank crm_integration = 2
feature_rank analytics = 3
feature_rank live_monitor = 4

abbrev pub limit_rank : Limit → ℕ
limit_rank max_agents = 0
limit_rank max_concurrent_calls = 1
limit_rank max_monthly_calls = 2
limit_rank max_monthly_minutes = 3

-- the plan of a client; a missing, empty or unknown name falls back
unfoldable pub plan_of : Client → Plan
unfolding plan_named
plan_of client = elim (client.plan) [
  | none ↦ fallback_plan
  | some t ↦
      if str_eq t ""
      then fallback_plan
      else elim (plan_named t) [ none ↦ fallback_plan | some p ↦ p ]
]

unfoldable pub resolve_entitlements : JsonText → Client → Outcome Entitlements
unfolding stored_overrides plan_of
resolve_entitlements lib client = do
  overrides ← stored_overrides lib client
  let plan = plan_of client
  ok (record {
    plan = plan.name;
    features = merged (λ a b. feature_rank a == feature_rank b) plan.features overrides.features;
    limits = merged (λ a b. limit_rank a == limit_rank b) plan.limits overrides.limits;
    overrides = overrides;
  })
