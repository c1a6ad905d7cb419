-- ===== src/Entitlements/Catalog.antt =====
-- backend/app/entitlements/catalog.py: the plans.
use Prim.Native.String.{String}
use text.Mathlib.Text.{◌==◌ as str_eq}
use qora.Base.{ℕ, Bool, true, false, Option, none, some, List, [], ◌∷◌, if◌then◌else◌}

-- `FEATURES`
pub data Feature : Type 0 where
  outbound_calls auto_dialer crm_integration analytics live_monitor : Feature

-- `LIMITS`
pub data Limit : Type 0 where
  max_agents max_concurrent_calls max_monthly_calls max_monthly_minutes : Limit

unfoldable pub feature_name : Feature → String
feature_name outbound_calls = "outbound_calls"
feature_name auto_dialer = "auto_dialer"
feature_name crm_integration = "crm_integration"
feature_name analytics = "analytics"
feature_name live_monitor = "live_monitor"

unfoldable pub limit_name : Limit → String
limit_name max_agents = "max_agents"
limit_name max_concurrent_calls = "max_concurrent_calls"
limit_name max_monthly_calls = "max_monthly_calls"
limit_name max_monthly_minutes = "max_monthly_minutes"

abbrev pub all_features : List Feature
all_features = outbound_calls ∷ auto_dialer ∷ crm_integration ∷ analytics ∷ live_monitor ∷ []

abbrev pub all_limits : List Limit
all_limits = max_agents ∷ max_concurrent_calls ∷ max_monthly_calls ∷ max_monthly_minutes ∷ []

-- the entry of a list that a name spells
abbrev pub spelled {ℓ} : {A : Type ℓ} → (A → String) → String → List A → Option A
spelled name t [] = none
spelled name t (a ∷ l) = let rest = spelled name t l in if str_eq (name a) t then some a else rest

-- `name in FEATURES`, with the feature that the name spells
unfoldable pub feature_of : String → Option Feature
unfolding feature_name
feature_of t = spelled feature_name t all_features

unfoldable pub limit_of : String → Option Limit
unfolding limit_name
limit_of t = spelled limit_name t all_limits

-- every plan has an entry for each feature and each limit; no number means unlimited
pub record Plan : Type 0 where
  pub name : String
  pub features : Feature → Bool
  pub limits : Limit → Option ℕ

abbrev starter_features : Feature → Bool
starter_features outbound_calls = true
starter_features analytics = true
starter_features _ = false

-- `max_monthly_calls` is unlimited in every plan
abbrev limits_of : ℕ → ℕ → ℕ → Limit → Option ℕ
limits_of agents concurrent minutes max_agents = some agents
limits_of agents concurrent minutes max_concurrent_calls = some concurrent
limits_of agents concurrent minutes max_monthly_calls = none
limits_of agents concurrent minutes max_monthly_minutes = some minutes

abbrev pub pilot : Plan
pilot = record { name = "pilot"; features = λ f. true; limits = λ l. none }

abbrev pub starter : Plan
starter = record { name = "starter"; features = starter_features; limits = limits_of 1 1 200 }

abbrev pub pro : Plan
pro = record { name = "pro"; features = λ f. true; limits = limits_of 3 3 1000 }

abbrev pub business : Plan
business = record { name = "business"; features = λ f. true; limits = limits_of 10 10 5000 }

-- `PLANS`
abbrev pub plans : List Plan
plans = pilot ∷ starter ∷ pro ∷ business ∷ []

-- `PLANS.get(name)`
unfoldable pub plan_named : String → Option Plan
plan_named t = spelled (λ p. p.name) t plans

-- `PLANS[FALLBACK_PLAN]`
abbrev pub fallback_plan : Plan
fallback_plan = starter
