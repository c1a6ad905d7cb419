-- ===== src/Tenants/Resolve.antt =====
-- backend/app/tenants/config_resolver.py.
use qora.Base.{Bool, Option, none, some, List, ◌&&◌, where_rows, is_none}
use qora.Tenants.Fields.{
  Field, Policy, locked, overridable, client_only, agent_required, field_policy, is_agent_required,
  registry, Value, standard,
}

-- what a dict holds at a key
pub data Entry : Type 0 where
  absent null : Entry
  value : Value → Entry

-- a dict of overrides, by its lookups
abbrev pub Dict : Type 0
Dict = Field → Entry

abbrev pub empty_dict : Dict
empty_dict field = absent

-- the value that `_is_set` finds
abbrev pub set_value : Entry → Option Value
set_value absent = none
set_value null = none
set_value (value v) = some v

pub data FieldProvenance : Type 0 where
  standard_level client_level agent_level : FieldProvenance

pub record EffectiveField : Type 0 where
  pub effective : Option Value
  pub provenance : FieldProvenance

abbrev pub from_standard : Field → EffectiveField
from_standard field = record { effective = standard field; provenance = standard_level }

abbrev pub from_client : Field → Option Value → EffectiveField
from_client field none = from_standard field
from_client field (some v) = record { effective = some v; provenance = client_level }

abbrev pub from_agent : Field → Option Value → Option Value → EffectiveField
from_agent field none client = from_client field client
from_agent field (some v) client = record { effective = some v; provenance = agent_level }

-- one round of the loop over `FIELD_POLICY`
abbrev pub resolve_field : Field → Policy → Option Value → Option Value → EffectiveField
resolve_field field locked client agent = from_standard field
resolve_field field agent_required client agent = record {
  effective = agent;
  provenance = agent_level;
}
resolve_field field client_only client agent = from_client field client
resolve_field field overridable client agent = from_agent field agent client

abbrev pub resolve_policy : Field → Option Policy → Dict → Dict → Option EffectiveField
resolve_policy field none client agent = none
resolve_policy field (some policy) client agent =
    some (resolve_field field policy (set_value (client field)) (set_value (agent field)))

pub record EffectiveConfig : Type 0 where
  pub fields : Field → Option EffectiveField
  pub missing_required : List Field

abbrev pub is_unset : Dict → Field → Bool
is_unset overrides field = is_none (set_value (overrides field))

-- a required field that the agent does not set
abbrev pub misses : Dict → Field → Bool
misses agent field = is_agent_required (field_policy field) && is_unset agent field

unfoldable pub resolve_effective_config : Dict → Dict → EffectiveConfig
resolve_effective_config client agent = record {
  fields = λ field. resolve_policy field (field_policy field) client agent;
  missing_required = where_rows (misses agent) registry;
}
