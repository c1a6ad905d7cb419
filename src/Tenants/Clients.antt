-- ===== src/Tenants/Clients.antt =====
-- backend/app/tenants/revisions_service.py: the revisions of a client's overrides and of its analysis
-- profile; `patch_client_config` of backend/app/clients/router.py up to its commit. The validations
-- of pydantic are parameters, `none` a ValidationError.
use Prim.Native.String.{String}
use qora.Base.{
  ℕ, Bool, false, Option, none, some, List, [], ◌==◌, where_rows, first_row, is_some, if◌then◌else◌,
}
use qora.Tenants.Resolve.{Entry, absent, null, value, Dict, empty_dict}
use qora.Tenants.Revisions.{
  Revision, RevisionSource, api, Note, text, Rollback, no_target, create_revision, get_revision,
  list_revisions, activate_revision, rollback_to_revision,
}
use qora.Tenants.Rows.{ConfigDb, AnalysisProfile, get_client, active_config_of, active_profile_of}
use qora.Tenants.Tables.{client_table, profile_table}
use qora.Tenants.Agents.{without_null}
use qora.Tenants.Templates.{Vertical, insurance, generic, template}

abbrev pub sparse : Dict → Dict
sparse config = λ field. without_null (config field)

abbrev config_at : Option ℕ → ConfigDb → Option (Revision Dict)
config_at none db = none
config_at (some key) db = first_row (where_rows (λ r. r.id == key) db.client_revisions)

unfoldable pub get_active_client_revision : ℕ → ConfigDb → Option (Revision Dict)
get_active_client_revision client db = config_at (active_config_of (get_client client db)) db

abbrev pub overrides_of : Option (Revision Dict) → Dict
overrides_of none = empty_dict
overrides_of (some r) = r.content

unfoldable pub create_client_revision :
    ℕ → ℕ → ℕ → Dict → RevisionSource → String → Note → ConfigDb → ConfigDb × Revision Dict
create_client_revision client key now config source by note db =
    create_revision client_table key now client source by note (sparse config) db

unfoldable pub get_client_revision : ℕ → ℕ → ConfigDb → Option (Revision Dict)
get_client_revision client key db =
    if is_some (get_client client db) then get_revision client_table client key db else none

unfoldable pub list_client_revisions : ℕ → ConfigDb → List (Revision Dict)
list_client_revisions client db =
    if is_some (get_client client db) then list_revisions client_table client db else []

unfoldable pub activate_client_revision : ℕ → ℕ → ConfigDb → ConfigDb × Bool
activate_client_revision client key db =
    if is_some (get_client client db)
    then activate_revision client_table client key db
    else (db, false)

-- `{**base, **patch}` at a key
abbrev pub overlaid : Entry → Entry → Entry
overlaid base absent = base
overlaid base null = null
overlaid base (value v) = value v

-- the answer of `patch_client_config`
pub data ClientWrite : Type 0 where
  client_not_found : ClientWrite
  invalid_config : ClientWrite
  client_written : Revision Dict → ClientWrite

module _ (validate : Dict → Option Dict) where
  abbrev pub recopy_client : Dict → Option Dict
  recopy_client config = elim (validate config) [ none ↦ none | some c ↦ some (sparse c) ]

  unfoldable pub rollback_client_revision :
      ℕ → ℕ → ℕ → ℕ → String → ConfigDb → ConfigDb × Rollback Dict
  rollback_client_revision client key now target by db =
      if is_some (get_client client db)
      then rollback_to_revision client_table recopy_client key now client target by db
      else (db, no_target)

  abbrev pub write_client_config :
      ℕ → ℕ → ℕ → String → Note → Option Dict → ConfigDb → ConfigDb × ClientWrite
  write_client_config client key now by note none db = (db, invalid_config)
  write_client_config client key now by note (some config) db =
      let (db', row) = create_client_revision client key now config api by note db in
      (db', client_written row)

  unfoldable pub patch_client_config :
      ℕ → ℕ → ℕ → Dict → String → Note → ConfigDb → ConfigDb × ClientWrite
  patch_client_config client key now patch by note db =
      if is_some (get_client client db)
      then write_client_config client key now by note
          (validate (λ field.
            without_null
              (overlaid (overrides_of (get_active_client_revision client db) field) (patch field))))
          db
      else (db, client_not_found)

abbrev profile_at : Option ℕ → ConfigDb → Option (Revision AnalysisProfile)
profile_at none db = none
profile_at (some key) db = first_row (where_rows (λ r. r.id == key) db.profile_revisions)

unfoldable pub get_active_analysis_profile_revision :
    ℕ → ConfigDb → Option (Revision AnalysisProfile)
get_active_analysis_profile_revision client db =
    profile_at (active_profile_of (get_client client db)) db

unfoldable pub create_analysis_profile_revision :
    ℕ
    → ℕ
    → ℕ
    → AnalysisProfile
    → RevisionSource
    → String
    → Note
    → ConfigDb
    → ConfigDb × Revision AnalysisProfile
create_analysis_profile_revision client key now config source by note db =
    create_revision profile_table key now client source by note config db

-- its note is "applied template: {vertical}"
abbrev template_note : Vertical → Note
template_note insurance = text "applied template: insurance"
template_note generic = text "applied template: generic"

unfoldable pub apply_analysis_profile_template :
    ℕ → ℕ → ℕ → Vertical → String → ConfigDb → ConfigDb × Revision AnalysisProfile
apply_analysis_profile_template client key now vertical by db =
    create_analysis_profile_revision client key now (template vertical) api by
      (template_note vertical) db

unfoldable pub get_analysis_profile_revision : ℕ → ℕ → ConfigDb → Option (Revision AnalysisProfile)
get_analysis_profile_revision client key db =
    if is_some (get_client client db) then get_revision profile_table client key db else none

unfoldable pub list_analysis_profile_revisions : ℕ → ConfigDb → List (Revision AnalysisProfile)
list_analysis_profile_revisions client db =
    if is_some (get_client client db) then list_revisions profile_table client db else []

module _ (validate : AnalysisProfile → Option AnalysisProfile) where
  abbrev catalog_of : Option (Revision AnalysisProfile) → Option AnalysisProfile
  catalog_of none = some (template generic)
  catalog_of (some r) = validate r.content

  -- `none` is the ValidationError of a stored profile
  unfoldable pub resolve_client_catalog : ℕ → ConfigDb → Option AnalysisProfile
  resolve_client_catalog client db = catalog_of (get_active_analysis_profile_revision client db)

  unfoldable pub rollback_analysis_profile_revision :
      ℕ → ℕ → ℕ → ℕ → String → ConfigDb → ConfigDb × Rollback AnalysisProfile
  rollback_analysis_profile_revision client key now target by db =
      if is_some (get_client client db)
      then rollback_to_revision profile_table validate key now client target by db
      else (db, no_target)
