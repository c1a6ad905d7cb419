-- ===== src/Tenants/Materialize/Patched.antt =====
-- What an accepted write of an agent's configuration leaves in the agent's columns
-- (backend/app/agents/router.py, backend/app/tenants/materialize.py).
use Prim.Native.String.{String}
use qora.Base.{ℕ, Option, none, some, if◌then◌else◌}
use qora.Tenants.Fields.{
  Field, Policy, locked, overridable, client_only, agent_required, field_policy, Value, standard,
}
use qora.Tenants.Resolve.{Entry, absent, null, value, Dict, empty_dict, set_value}
use qora.Tenants.Revisions.{Revision, api, Note, next_revision_number}
use qora.Tenants.Rows.{ConfiguredAgent, ConfigDb, v2, AgentConfig}
use qora.Tenants.Agents.{
  Validate, serialize, merge_patch, Merge, merged, decode_agent_overrides, get_active_revision,
}
use qora.Tenants.Clients.{get_active_client_revision, overrides_of}
use qora.Tenants.Materialize.{standard_version, is_mirrored, column_value}
use qora.Tenants.Materialize.Created.{created}

abbrev pub or_else : Option Value → Option Value → Option Value
or_else none v = v
or_else (some w) v = some w

-- what an agent's own level holds after a patch: its value, nothing where it is null, and what was
-- there before where the patch is silent
abbrev pub own_value : Entry → Entry → Option Value
own_value previous (value v) = some v
own_value previous null = none
own_value previous absent = set_value previous

-- the value that a field takes by its policy, from the standard, the client and the agent
abbrev pub wanted : Option Policy → Option Value → Option Value → Option Value → Option Value
wanted none standard client own = none
wanted (some locked) standard client own = standard
wanted (some client_only) standard client own = or_else client standard
wanted (some overridable) standard client own = or_else own (or_else client standard)
wanted (some agent_required) standard client own = own

abbrev dict_of : Merge → Dict
dict_of (merged c) = c
dict_of _ = empty_dict

module _ (validate : Validate) (key now : ℕ) (patch : Dict) (by : String) (note : Note)
    (db : ConfigDb) (a : ConfiguredAgent) where
  -- the overrides that the agent had
  abbrev pub before : Dict
  before = decode_agent_overrides (get_active_revision a.client_id a.id db)

  -- the value that a field has after the patch
  abbrev pub patched_value : Field → Option Value
  patched_value field =
      wanted (field_policy field) (standard field)
        (set_value (overrides_of (get_active_client_revision a.client_id db) field))
        (own_value (before field) (patch field))

  abbrev written_db : ConfigDb
  written_db =
      created a.client_id key now api by note (serialize v2 (merge_patch before patch)) db a

  -- the agent after the patch
  abbrev pub patched_agent : ConfiguredAgent
  patched_agent = record a {
    active_revision_id = some key;
    materialized_standard_version = some standard_version;
    column = λ field.
        if is_mirrored field then column_value field (patched_value field) else a.column field;
  }

  -- the row of the new revision
  abbrev pub patch_revision : Revision AgentConfig
  patch_revision = record {
    id = key;
    owner_id = a.id;
    revision_number = next_revision_number a.id db.agent_revisions;
    source = api;
    created_by = by;
    created_at = now;
    note = note;
    content = serialize v2 (merge_patch before patch);
  }
