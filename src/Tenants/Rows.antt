-- ===== src/Tenants/Rows.antt =====
-- backend/app/tenants/models.py: the columns that the configuration code reads or writes, and the
-- revision tables as `RevisionTable`s. A `config` column is kept as the dict that its JSON decodes
-- to, without its `schema_version`.
use Prim.Native.String.{String}
use qora.Base.{ℕ, Bool, Option, none, some, List, ◌&&◌, ◌==◌, where_rows, first_row}
use qora.Store.{update_where}
use qora.Tenants.Fields.{Field, Value}
use qora.Tenants.Resolve.{Dict}
use qora.Tenants.Revisions.{Revision}

-- an agent; `column` holds the mirrored columns by the field that each is named after
pub record ConfiguredAgent : Type 0 where
  pub id : ℕ
  pub client_id : ℕ
  pub is_active : Bool
  pub active_revision_id : Option ℕ
  pub materialized_standard_version : Option String
  pub column : Field → Option Value

pub record ConfiguredClient : Type 0 where
  pub id : ℕ
  pub active_config_revision_id : Option ℕ
  pub active_analysis_profile_revision_id : Option ℕ

-- `schema_version` of an agent revision
pub data SchemaVersion : Type 0 where
  v1 v2 : SchemaVersion

pub record AgentConfig : Type 0 where
  pub schema_version : SchemaVersion
  pub config : Dict

-- `ProductEntry` and `NeedTagEntry`; a need tag has no description
pub record CatalogEntry : Type 0 where
  pub id : String
  pub label_es : String
  pub label_en : String
  pub description : Option String

-- `AnalysisProfileConfigV1`
pub record AnalysisProfile : Type 0 where
  pub vertical : String
  pub products : List CatalogEntry
  pub need_tags : List CatalogEntry

pub record ConfigDb : Type 0 where
  pub agents : List ConfiguredAgent
  pub clients : List ConfiguredClient
  pub agent_revisions : List (Revision AgentConfig)
  pub client_revisions : List (Revision Dict)
  pub profile_revisions : List (Revision AnalysisProfile)

abbrev pub has_agent_id : ℕ → ConfiguredAgent → Bool
has_agent_id key a = a.id == key

abbrev pub has_client_id : ℕ → ConfiguredClient → Bool
has_client_id key c = c.id == key

abbrev pub find_agent : ℕ → ConfigDb → Option ConfiguredAgent
find_agent key db = first_row (where_rows (has_agent_id key) db.agents)

-- `_get_agent_in_client`
abbrev pub get_agent_in_client : ℕ → ℕ → ConfigDb → Option ConfiguredAgent
get_agent_in_client client key db =
    first_row (where_rows (λ a. a.id == key && a.client_id == client) db.agents)

abbrev pub get_client : ℕ → ConfigDb → Option ConfiguredClient
get_client key db = first_row (where_rows (has_client_id key) db.clients)

abbrev pub active_revision_of : Option ConfiguredAgent → Option ℕ
active_revision_of none = none
active_revision_of (some a) = a.active_revision_id

abbrev pub active_config_of : Option ConfiguredClient → Option ℕ
active_config_of none = none
active_config_of (some c) = c.active_config_revision_id

abbrev pub active_profile_of : Option ConfiguredClient → Option ℕ
active_profile_of none = none
active_profile_of (some c) = c.active_analysis_profile_revision_id

abbrev pub write_agent : ℕ → (ConfiguredAgent → ConfiguredAgent) → ConfigDb → ConfigDb
write_agent key f db = record db { agents = update_where (has_agent_id key) f db.agents }

abbrev pub write_client : ℕ → (ConfiguredClient → ConfiguredClient) → ConfigDb → ConfigDb
write_client key f db = record db { clients = update_where (has_client_id key) f db.clients }

abbrev pub point_agent : ℕ → ConfiguredAgent → ConfiguredAgent
point_agent key a = record a { active_revision_id = some key }

abbrev pub point_config : ℕ → ConfiguredClient → ConfiguredClient
point_config key c = record c { active_config_revision_id = some key }

abbrev pub point_profile : ℕ → ConfiguredClient → ConfiguredClient
point_profile key c = record c { active_analysis_profile_revision_id = some key }
