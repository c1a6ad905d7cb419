-- ===== src/Tenants/Materialize.antt =====
-- backend/app/tenants/materialize.py, and the routes that write a configuration and materialize it:
-- `patch_agent_config` and `rollback_agent_config` of backend/app/agents/router.py,
-- `_materialize_and_propagate` of backend/app/clients/router.py, the resync of
-- backend/app/admin/standards_router.py. The sync to the voice provider that follows is left out.
pub mod Created
pub mod Patched
use Prim.Native.String.{String}
use qora.Base.{
  ℕ, Bool, true, false, Option, none, some, List, [], ◌∷◌, ◌&&◌, ◌==◌, if◌then◌else◌, where_rows,
  first_row, is_some,
}
use qora.Tenants.Fields.{
  Field, Value, text, system_prompt, voice_id, tts_model, tts_speed, tts_stability,
  tts_similarity_boost, model, temperature, max_tokens, tools_enabled, soft_timeout_seconds,
  soft_timeout_message, soft_timeout_use_llm, voicemail_detection_enabled,
  max_call_duration_seconds,
}
use qora.Tenants.Resolve.{
  Dict, empty_dict, EffectiveField, EffectiveConfig, resolve_effective_config,
}
use qora.Tenants.Revisions.{Revision, api, Note, Rollback, no_target, validation_error, rolled_back}
use qora.Tenants.Rows.{ConfiguredAgent, ConfigDb, AgentConfig, find_agent, get_client, write_agent}
use qora.Tenants.Agents.{
  Validate, Write, written, refused, invalid, Merge, get_active_revision,
  create_agent_config_revision, rollback_agent_revision,
}
use qora.Tenants.Clients.{get_active_client_revision, overrides_of}

-- `MIRRORED_AGENT_FIELDS`
unfoldable pub is_mirrored : Field → Bool
is_mirrored system_prompt = true
is_mirrored voice_id = true
is_mirrored tts_model = true
is_mirrored tts_speed = true
is_mirrored tts_stability = true
is_mirrored tts_similarity_boost = true
is_mirrored model = true
is_mirrored temperature = true
is_mirrored max_tokens = true
is_mirrored tools_enabled = true
is_mirrored soft_timeout_seconds = true
is_mirrored soft_timeout_message = true
is_mirrored soft_timeout_use_llm = true
is_mirrored voicemail_detection_enabled = true
is_mirrored max_call_duration_seconds = true
is_mirrored _ = false

-- `STANDARD_VERSION`
abbrev pub standard_version : String
standard_version = "2026-10-02.1"

abbrev pub config_of : Option (Revision AgentConfig) → Dict
config_of none = empty_dict
config_of (some r) = r.content.config

unfoldable pub resolve_effective_for_agent : ConfiguredAgent → ConfigDb → EffectiveConfig
resolve_effective_for_agent agent db =
    resolve_effective_config (overrides_of (get_active_client_revision agent.client_id db))
      (config_of (get_active_revision agent.client_id agent.id db))

abbrev pub effective_value : Option EffectiveField → Option Value
effective_value none = none
effective_value (some f) = f.effective

-- `value or ""`
abbrev or_empty : Option Value → Option Value
or_empty none = some (text "")
or_empty (some v) = some v

unfoldable pub column_value : Field → Option Value → Option Value
column_value system_prompt v = or_empty v
column_value _ v = v

-- `_mirror_effective_config_to_agent`, and the stamp
abbrev pub mirror : EffectiveConfig → ConfiguredAgent → ConfiguredAgent
mirror config a = record a {
  column = λ field.
      if is_mirrored field
      then column_value field (effective_value (config.fields field))
      else a.column field;
  materialized_standard_version = some standard_version;
}

unfoldable pub materialize_agent_config : ConfiguredAgent → ConfigDb → ConfigDb
materialize_agent_config agent db =
    write_agent agent.id (mirror (resolve_effective_for_agent agent db)) db

unfoldable pub materialize_each : List ConfiguredAgent → ConfigDb → ConfigDb
materialize_each [] db = db
materialize_each (a ∷ agents) db = materialize_each agents (materialize_agent_config a db)

-- `_materialize_and_propagate`: the active agents of the client
unfoldable pub materialize_and_propagate : ℕ → ConfigDb → ConfigDb
materialize_and_propagate client db =
    materialize_each (where_rows (λ a. a.client_id == client && a.is_active) db.agents) db

unfoldable pub resync_standard : ConfigDb → ConfigDb
resync_standard db = materialize_each (where_rows (λ a. a.is_active) db.agents) db

-- the answer of a route that writes an agent's configuration
pub data Answer : Type 0 where
  client_not_found agent_not_found revision_not_found : Answer
  invalid_config : Merge → Answer
  unhandled_validation_error : Answer
  answered : Revision AgentConfig → Answer

abbrev pub is_agent_of : ℕ → ConfiguredAgent → Bool
is_agent_of client a = a.client_id == client

abbrev pub after_write : ConfiguredAgent → ConfigDb × Write → ConfigDb × Answer
after_write agent (db, written row) = (materialize_agent_config agent db, answered row)
after_write agent (db, refused fields) = (db, invalid_config fields)
after_write agent (db, invalid) = (db, unhandled_validation_error)

abbrev pub after_rollback : ConfiguredAgent → ConfigDb × Rollback AgentConfig → ConfigDb × Answer
after_rollback agent (db, rolled_back row) = (materialize_agent_config agent db, answered row)
after_rollback agent (db, no_target) = (db, revision_not_found)
after_rollback agent (db, validation_error) = (db, unhandled_validation_error)

-- `_require_client` and `_require_agent`
abbrev pub with_agent :
    ℕ
    → (ConfiguredAgent → ConfigDb → ConfigDb × Answer)
    → Option ConfiguredAgent
    → ConfigDb
    → ConfigDb × Answer
with_agent client body none db = (db, agent_not_found)
with_agent client body (some a) db =
    if is_agent_of client a then body a db else (db, agent_not_found)

abbrev pub required :
    ℕ → ℕ → (ConfiguredAgent → ConfigDb → ConfigDb × Answer) → ConfigDb → ConfigDb × Answer
required client agent body db =
    if is_some (get_client client db)
    then with_agent client body (find_agent agent db) db
    else (db, client_not_found)

module _ (validate : Validate) where
  unfoldable pub patch_agent_config :
      ℕ → ℕ → ℕ → ℕ → Dict → String → Note → ConfigDb → ConfigDb × Answer
  patch_agent_config client agent key now patch by note db =
      required client agent
        (λ a d.
          after_write a (create_agent_config_revision validate a key now patch api by note false d))
        db

  unfoldable pub rollback_agent_config : ℕ → ℕ → ℕ → ℕ → ℕ → String → ConfigDb → ConfigDb × Answer
  rollback_agent_config client agent key now target by db =
      required client agent
        (λ a d. after_rollback a (rollback_agent_revision validate client a.id key now target by d))
        db
