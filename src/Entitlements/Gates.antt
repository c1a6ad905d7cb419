-- ===== src/Entitlements/Gates.antt =====
-- backend/app/entitlements/service.py: `check_dial_allowed` and `check_agent_limit`.
pub mod Allowed
use qora.Base.{
  ℕ, Bool, true, false, Option, none, some, List, [], ◌∷◌, ◌&&◌, not, leb, if◌then◌else◌, is_none,
}
use qora.Store.{Db}
use qora.Store.Rows.{Client}
use qora.Entitlements.Catalog.{
  Feature, Limit, outbound_calls, auto_dialer, max_agents, max_concurrent_calls, max_monthly_calls,
  max_monthly_minutes,
}
use qora.Entitlements.Overrides.{Outcome, ok, ◌>>=◌, ◌>>◌, JsonText}
use qora.Entitlements.Resolve.{Entitlements, resolve_entitlements}
use qora.Entitlements.Usage.{Usage, Calendar, get_usage, count_active_agents}

-- the failure codes, with the details
pub data PlanBlock : Type 0 where
  plan_feature_disabled : Feature → PlanBlock
  plan_limit_reached : Limit → ℕ → ℕ → PlanBlock

abbrev pub gate : Bool → Feature
gate scheduled = if scheduled then auto_dialer else outbound_calls

abbrev pub dial_caps : List Limit
dial_caps = max_concurrent_calls ∷ max_monthly_calls ∷ max_monthly_minutes ∷ []

-- `used[name]`
abbrev pub used_of : Usage → Limit → ℕ
used_of usage max_agents = usage.active_agents
used_of usage max_concurrent_calls = usage.concurrent_calls
used_of usage max_monthly_calls = usage.monthly_calls
used_of usage max_monthly_minutes = usage.monthly_minutes

abbrev pub all_unlimited : (Limit → Option ℕ) → List Limit → Bool
all_unlimited limit [] = true
all_unlimited limit (name ∷ names) = is_none (limit name) && all_unlimited limit names

-- `cap is not None and used[name] >= cap`
abbrev pub block_of : Usage → Limit → Option ℕ → Option PlanBlock
block_of usage name none = none
block_of usage name (some cap) =
    if leb cap (used_of usage name)
    then some (plan_limit_reached name (used_of usage name) cap)
    else none

-- the loop over the caps
abbrev pub first_block : Usage → (Limit → Option ℕ) → List Limit → Option PlanBlock
first_block usage limit [] = none
first_block usage limit (name ∷ names) = elim (block_of usage name (limit name)) [
  | some b ↦ some b
  | none ↦ first_block usage limit names
]

unfoldable pub check_entitled : Calendar → ℕ → Client → Bool → Db → Entitlements → Option PlanBlock
unfolding get_usage
check_entitled calendar now client scheduled db ent =
    if not (ent.features (gate scheduled))
    then some (plan_feature_disabled (gate scheduled))
    else if all_unlimited ent.limits dial_caps
    then none
    else first_block (get_usage calendar now client db) ent.limits dial_caps

unfoldable pub check_dial_allowed :
    JsonText → Calendar → ℕ → Client → Bool → Db → Outcome (Option PlanBlock)
unfolding resolve_entitlements check_entitled
check_dial_allowed lib calendar now client scheduled db = do
  ent ← resolve_entitlements lib client
  ok (check_entitled calendar now client scheduled db ent)

abbrev agent_block : ℕ → Option ℕ → Option PlanBlock
agent_block active none = none
agent_block active (some cap) =
    if leb cap active then some (plan_limit_reached max_agents active cap) else none

unfoldable pub check_agent_limit : JsonText → Client → Db → Outcome (Option PlanBlock)
unfolding resolve_entitlements
check_agent_limit lib client db = do
  ent ← resolve_entitlements lib client
  ok (agent_block (count_active_agents client.id db) (ent.limits max_agents))
