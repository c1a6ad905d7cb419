-- ===== src/Tests/Tenants.antt =====
-- An agent whose history has one revision, and what is written to it.
use qora.Base.{if◌then◌else◌, ◌≡◌, refl, true, none, some, List, [], ◌∷◌, if◌then◌else◌}
use qora.Tenants.Fields.{text, whole, model, max_tokens, voice_id}
use qora.Tenants.Resolve.{absent, null, value, Dict}
use qora.Tenants.Revisions.{
  Revision, import, api, no_note, Command, create, activate, roll_back, get_revision, run,
}
use qora.Tenants.Revisions.Log.{Log}
use qora.Tenants.Revisions.Refines.{content_of, log_run, Agrees}
use qora.Tenants.Revisions.Refines.Run.{run_refines}
use qora.Tenants.Revisions.Kept.{get_revision-run}
use qora.Tenants.Rows.{ConfiguredAgent, ConfigDb, v2, AgentConfig}
use qora.Tenants.Tables.{agent_table}
use qora.Tenants.Agents.{Validate, recopy_agent, serialize, merge_patch}
use qora.Tenants.Materialize.Patched.{before}

abbrev accept_all : Validate
accept_all version config = some config

abbrev first_config : Dict
first_config model = value (text "gpt-4o-mini")
first_config voice_id = value (text "v1")
first_config _ = absent

abbrev patch : Dict
patch model = null
patch max_tokens = value (whole 300)
patch _ = absent

abbrev stored_config : AgentConfig
stored_config = record { schema_version = v2; config = first_config }

abbrev agent : ConfiguredAgent
agent = record {
  id = 7;
  client_id = 1;
  is_active = true;
  active_revision_id = some 3;
  materialized_standard_version = none;
  column = λ field. none;
}

abbrev db : ConfigDb
db = record {
  agents = agent ∷ [];
  clients =
      record {
        id = 1;
        active_config_revision_id = none;
        active_analysis_profile_revision_id = none;
      }
      ∷ [];
  agent_revisions =
      record {
        id = 3;
        owner_id = 7;
        revision_number = 1;
        source = import;
        created_by = "import";
        created_at = 5;
        note = no_note;
        content = stored_config;
      }
      ∷ [];
  client_revisions = [];
  profile_revisions = [];
}

abbrev log : Log AgentConfig
log = record { entries = (3, stored_config) ∷ []; active = some 3 }

abbrev commands : List (Command AgentConfig)
commands =
    create 7 4 6 api "ops" no_note (record { schema_version = v2; config = patch })
    ∷ activate 7 3
    ∷ roll_back 7 4 5 8 "ops"
    ∷ []

db-Agrees : Agrees (agent_table 1) 7 db log
unfolding Agrees
db-Agrees = ((refl, tt), refl, refl)

run_refines_example :
    Agrees
      (agent_table 1)
      7
      (run (agent_table 1) (recopy_agent accept_all) commands db)
      (log_run (recopy_agent accept_all) 7 commands log)
run_refines_example =
    run_refines (agent_table 1) 7 (recopy_agent accept_all) commands db log refl db-Agrees

stored : content_of (get_revision (agent_table 1) 7 3 db) ≡ some stored_config
unfolding get_revision
stored = refl

get_revision-run_example :
    content_of
      (get_revision (agent_table 1) 7 3 (run (agent_table 1) (recopy_agent accept_all) commands db))
    ≡ some stored_config
get_revision-run_example =
    get_revision-run (agent_table 1) (recopy_agent accept_all) 7 3 stored_config commands db log
      refl db-Agrees stored

abbrev written_revision : Revision AgentConfig
written_revision = record {
  id = 4;
  owner_id = 7;
  revision_number = 2;
  source = api;
  created_by = "ops";
  created_at = 6;
  note = no_note;
  content = serialize v2 (merge_patch (before accept_all 4 6 patch "ops" no_note db agent) patch);
}
