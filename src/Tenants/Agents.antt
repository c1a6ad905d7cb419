-- ===== src/Tenants/Agents.antt =====
-- backend/app/tenants/revisions_service.py: the revisions of an agent's configuration. `validate`
-- is what pydantic makes of a dict under AgentConfigV1 or AgentConfigV2, `none` a ValidationError.
use Prim.Native.String.{String}
use qora.Base.{
  ℕ, Bool, true, false, Option, none, some, List, [], ◌∷◌, ◌&&◌, not, ◌==◌, where_rows, first_row,
  is_some, if◌then◌else◌,
}
use qora.Tenants.Fields.{Field, is_above_agent, field_policy, all_fields, agent_required_fields}
use qora.Tenants.Resolve.{Entry, absent, null, value, Dict, empty_dict, is_unset}
use qora.Tenants.Revisions.{
  Revision, RevisionSource, Note, Rollback, no_target, create_revision, get_revision,
  list_revisions, activate_revision, rollback_to_revision,
}
use qora.Tenants.Rows.{
  ConfiguredAgent, ConfigDb, SchemaVersion, v1, v2, AgentConfig, get_agent_in_client,
}
use qora.Tenants.Tables.{agent_table}

abbrev pub Validate : Type 0
Validate = SchemaVersion → Dict → Option Dict

-- `model_dump(exclude_none=True)`
abbrev pub without_null : Entry → Entry
without_null (value v) = value v
without_null _ = absent

abbrev pub serialize : SchemaVersion → Dict → AgentConfig
serialize v1 config = record { schema_version = v1; config = config }
serialize v2 config = record { schema_version = v2; config = λ field. without_null (config field) }

-- the validation and the serializer that fit the schema version of a stored revision
abbrev pub reserialize : SchemaVersion → Option Dict → Option AgentConfig
reserialize version none = none
reserialize version (some config) = some (serialize version config)

abbrev pub recopy_agent : Validate → AgentConfig → Option AgentConfig
recopy_agent validate c = reserialize c.schema_version (validate c.schema_version c.config)

-- a V1 snapshot keeps only what an agent may set
abbrev pub promoted : Bool → Entry → Entry
promoted above e = if above then absent else without_null e

abbrev pub decode_config : SchemaVersion → Dict → Dict
decode_config v1 config = λ field. promoted (is_above_agent (field_policy field)) (config field)
decode_config v2 config = λ field. without_null (config field)

unfoldable pub decode_agent_overrides : Option (Revision AgentConfig) → Dict
decode_agent_overrides none = empty_dict
decode_agent_overrides (some r) = decode_config r.content.schema_version r.content.config

-- what a write sets at a key: null takes the override away
abbrev pub merge_entry : Entry → Entry → Entry
merge_entry previous absent = previous
merge_entry previous null = absent
merge_entry previous (value v) = value v

abbrev pub merge_patch : Dict → Dict → Dict
merge_patch previous patch = λ field. merge_entry (previous field) (patch field)

abbrev pub sets_locked : Dict → Field → Bool
sets_locked patch field = is_above_agent (field_policy field) && not (is_unset patch field)

abbrev pub unsets : Dict → Dict → Field → Bool
unsets previous merged field = not (is_unset previous field) && is_unset merged field

-- the merged overrides, or the fields of an `AgentConfigWriteError`
pub data Merge : Type 0 where
  merged : Dict → Merge
  locked_fields missing_fields removed_fields : List Field → Merge

abbrev pub unless_any : (List Field → Merge) → List Field → Merge → Merge
unless_any error [] result = result
unless_any error (field ∷ fields) result = error (field ∷ fields)

abbrev pub check_required : Bool → Dict → Dict → Merge
check_required true previous result =
    unless_any missing_fields (where_rows (is_unset result) agent_required_fields) (merged result)
check_required false previous result =
    unless_any removed_fields (where_rows (unsets previous result) agent_required_fields)
      (merged result)

unfoldable pub validate_agent_config_write : Dict → Dict → Bool → Merge
validate_agent_config_write previous patch is_new =
    unless_any locked_fields (where_rows (sets_locked patch) all_fields)
      (check_required is_new previous (merge_patch previous patch))

abbrev revision_at : Option ℕ → ConfigDb → Option (Revision AgentConfig)
revision_at none db = none
revision_at (some key) db = first_row (where_rows (λ r. r.id == key) db.agent_revisions)

abbrev active_of : Option ConfiguredAgent → ConfigDb → Option (Revision AgentConfig)
active_of none db = none
active_of (some a) db = revision_at a.active_revision_id db

unfoldable pub get_active_revision : ℕ → ℕ → ConfigDb → Option (Revision AgentConfig)
get_active_revision client agent db = active_of (get_agent_in_client client agent db) db

-- a new revision, the fields of an `AgentConfigWriteError`, or a `ValidationError`
pub data Write : Type 0 where
  written : Revision AgentConfig → Write
  refused : Merge → Write
  invalid : Write

module _ (validate : Validate) where
  abbrev pub write_valid :
      ConfiguredAgent
      → ℕ
      → ℕ
      → RevisionSource
      → String
      → Note
      → Option Dict
      → ConfigDb
      → ConfigDb × Write
  write_valid agent key now source by note none db = (db, invalid)
  write_valid agent key now source by note (some config) db =
      let (db', row) =
        create_revision (agent_table agent.client_id) key now agent.id source by note
          (serialize v2 config) db in
      (db', written row)

  abbrev pub write_merged :
      ConfiguredAgent → ℕ → ℕ → RevisionSource → String → Note → Merge → ConfigDb → ConfigDb × Write
  write_merged agent key now source by note (merged config) db =
      write_valid agent key now source by note (validate v2 config) db
  write_merged agent key now source by note (locked_fields fields) db =
      (db, refused (locked_fields fields))
  write_merged agent key now source by note (missing_fields fields) db =
      (db, refused (missing_fields fields))
  write_merged agent key now source by note (removed_fields fields) db =
      (db, refused (removed_fields fields))

  unfoldable pub create_agent_config_revision :
      ConfiguredAgent
      → ℕ
      → ℕ
      → Dict
      → RevisionSource
      → String
      → Note
      → Bool
      → ConfigDb
      → ConfigDb × Write
  create_agent_config_revision agent key now patch source by note is_new db =
      write_merged agent key now source by note
        (validate_agent_config_write
          (decode_agent_overrides (get_active_revision agent.client_id agent.id db)) patch is_new)
        db

  abbrev rollback_in :
      Bool → ℕ → ℕ → ℕ → ℕ → ℕ → String → ConfigDb → ConfigDb × Rollback AgentConfig
  rollback_in false client agent key now target by db = (db, no_target)
  rollback_in true client agent key now target by db =
      rollback_to_revision (agent_table client) (recopy_agent validate) key now agent target by db

  unfoldable pub rollback_agent_revision :
      ℕ → ℕ → ℕ → ℕ → ℕ → String → ConfigDb → ConfigDb × Rollback AgentConfig
  rollback_agent_revision client agent key now target by db =
      rollback_in (is_some (get_agent_in_client client agent db)) client agent key now target by db

-- `create_revision`, with a full V1 snapshot
unfoldable pub create_agent_revision :
    ConfiguredAgent
    → ℕ
    → ℕ
    → Dict
    → RevisionSource
    → String
    → Note
    → ConfigDb
    → ConfigDb × Revision AgentConfig
create_agent_revision agent key now config source by note db =
    create_revision (agent_table agent.client_id) key now agent.id source by note
      (serialize v1 config) db

unfoldable pub get_agent_revision : ℕ → ℕ → ℕ → ConfigDb → Option (Revision AgentConfig)
get_agent_revision client agent key db =
    if is_some (get_agent_in_client client agent db)
    then get_revision (agent_table client) agent key db
    else none

unfoldable pub list_agent_revisions : ℕ → ℕ → ConfigDb → List (Revision AgentConfig)
list_agent_revisions client agent db =
    if is_some (get_agent_in_client client agent db)
    then list_revisions (agent_table client) agent db
    else []

unfoldable pub activate_agent_revision : ℕ → ℕ → ℕ → ConfigDb → ConfigDb × Bool
activate_agent_revision client agent key db =
    if is_some (get_agent_in_client client agent db)
    then activate_revision (agent_table client) agent key db
    else (db, false)
