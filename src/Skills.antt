-- ===== src/Skills.antt =====
-- backend/app/skills/service.py, over the columns of backend/app/tenants/models.py that it reads.
-- A slug is only compared, so it is a number.
pub mod Winner
pub mod Cache
use Prim.Native.String.{String}
use qora.Base.{
  ℕ, ◌≡◌, refl, ap, ◌∙◌, sym, Bool, true, false, Option, none, some, List, [], ◌∷◌, ◌++◌, ◌&&◌,
  ◌==◌, holds_key, if◌then◌else◌, where_rows, first_row, is_some, eqb→eq,
}
use qora.Store.{update_where}
use qora.Tenants.Revisions.{
  Revision, RevisionSource, Note, RevisionTable, Rollback, create_revision, get_revision,
  list_revisions, rollback_to_revision,
}
use qora.Tenants.Tables.{owner_has-point, owner_pointer-point}

pub data OwnerType : Type 0 where
  qora_owner client_owner : OwnerType

abbrev is_qora : OwnerType → Bool
is_qora qora_owner = true
is_qora client_owner = false

abbrev is_client : OwnerType → Bool
is_client qora_owner = false
is_client client_owner = true

pub record SkillPackage : Type 0 where
  pub id : ℕ
  pub owner_type : OwnerType
  pub client_id : Option ℕ

pub data Section : Type 0 where
  general agent_section : Section

abbrev pub same_section : Section → Section → Bool
same_section general general = true
same_section agent_section agent_section = true
same_section _ _ = false

pub record Skill : Type 0 where
  pub id : ℕ
  pub package_id : ℕ
  pub slug : ℕ
  pub section : Section
  pub agent_id : Option ℕ
  pub active_revision_id : Option ℕ

-- the content columns of `SkillRevision`
pub record SkillContent : Type 0 where
  pub content_md : String
  pub filler_text : String
  pub trigger_hint : String
  pub description : String

pub record SkillDb : Type 0 where
  pub packages : List SkillPackage
  pub skills : List Skill
  pub revisions : List (Revision SkillContent)

abbrev pub get_skill : ℕ → SkillDb → Option Skill
get_skill key db = first_row (where_rows (λ k. k.id == key) db.skills)

abbrev pub active_skill_of : Option Skill → Option ℕ
active_skill_of none = none
active_skill_of (some k) = k.active_revision_id

abbrev pub point_skill : ℕ → Skill → Skill
point_skill key k = record k { active_revision_id = some key }

-- `skill_revisions`
abbrev pub skill_table : RevisionTable SkillDb SkillContent
skill_table = record {
  rows = λ db. db.revisions;
  put_rows = λ l db. record db { revisions = l };
  has_owner = λ owner db. is_some (get_skill owner db);
  pointer = λ owner db. active_skill_of (get_skill owner db);
  point = λ owner key db. record db {
    skills = update_where (λ k. k.id == owner) (point_skill key) db.skills;
  };
  rows-put = λ l db. refl;
  rows-point = λ owner key db. refl;
  has-put = λ owner l db. refl;
  has-point = λ owner other key db.
      owner_has-point (λ (k : Skill). k.id) (point_skill key) (λ k. refl) owner other db.skills;
  pointer-put = λ owner l db. refl;
  pointer-point = λ owner other key db h.
      owner_pointer-point (λ (k : Skill). k.id) active_skill_of key (point_skill key) (λ k. refl)
        (λ k. refl) owner other db.skills h;
}

unfoldable pub create_skill_revision :
    ℕ
    → ℕ
    → ℕ
    → SkillContent
    → RevisionSource
    → String
    → Note
    → SkillDb
    → SkillDb × Revision SkillContent
create_skill_revision skill key now content source by note db =
    create_revision skill_table key now skill source by note content db

unfoldable pub get_skill_revision : ℕ → ℕ → SkillDb → Option (Revision SkillContent)
get_skill_revision skill key db = get_revision skill_table skill key db

unfoldable pub list_skill_revisions : ℕ → SkillDb → List (Revision SkillContent)
list_skill_revisions skill db = list_revisions skill_table skill db

-- the columns are copied as they are
unfoldable pub rollback_skill : ℕ → ℕ → ℕ → ℕ → String → SkillDb → SkillDb × Rollback SkillContent
rollback_skill skill key now target by db =
    rollback_to_revision skill_table (λ c. some c) key now skill target by db

-- the agent whose skills are resolved
pub record SkillAgent : Type 0 where
  pub id : ℕ
  pub client_id : ℕ

abbrev of_agent : Option ℕ → Skill → Bool
of_agent none k = true
of_agent (some agent) k = holds_key k.agent_id agent

abbrev pub package_skills : Option SkillPackage → Section → Option ℕ → SkillDb → List Skill
package_skills none section agent db = []
package_skills (some p) section agent db =
    where_rows (λ k. (k.package_id == p.id && same_section k.section section) && of_agent agent k)
      db.skills

abbrev pub qora_package : SkillDb → Option SkillPackage
qora_package db = first_row (where_rows (λ p. is_qora p.owner_type) db.packages)

abbrev pub client_package : ℕ → SkillDb → Option SkillPackage
client_package key db =
    first_row (where_rows (λ p. is_client p.owner_type && holds_key p.client_id key) db.packages)

pub data Origin : Type 0 where
  from_qora from_client_general from_agent : Origin

-- `winning_source`, a dict by slug
abbrev pub Winners : Type 0
Winners = List (ℕ × (Origin × Skill))

-- a new key goes to the end; a key that is there keeps its place
unfoldable pub put_winner : ℕ → Origin × Skill → Winners → Winners
put_winner slug w [] = (slug, w) ∷ []
put_winner slug w ((k, v) ∷ winners) =
    let rest = put_winner slug w winners in if k == slug then (slug, w) ∷ winners else (k, v) ∷ rest

unfoldable pub merge_source : Origin → List Skill → Winners → Winners
merge_source origin [] winners = winners
merge_source origin (k ∷ skills) winners =
    merge_source origin skills (put_winner k.slug (origin, k) winners)

unfoldable pub resolve_winning_skills : SkillAgent → SkillDb → Winners
resolve_winning_skills agent db =
    let own = client_package agent.client_id db in
    merge_source from_agent (package_skills own agent_section (some agent.id) db) (
      merge_source from_client_general (package_skills own general none db)
        (merge_source from_qora (package_skills (qora_package db) general none db) []))

abbrev pub revision_of : Option ℕ → SkillDb → Option (Revision SkillContent)
revision_of none db = none
revision_of (some key) db = first_row (where_rows (λ r. r.id == key) db.revisions)

-- a `SkillRegistryEntry` with the entry of `content_by_slug`
pub record SkillEntry : Type 0 where
  pub name : ℕ
  pub content : SkillContent

abbrev entry_of : ℕ → Option (Revision SkillContent) → List SkillEntry → List SkillEntry
entry_of slug none entries = entries
entry_of slug (some r) entries = record { name = slug; content = r.content } ∷ entries

unfoldable pub entries_of : SkillDb → Winners → List SkillEntry
entries_of db [] = []
entries_of db ((slug, (origin, k)) ∷ winners) =
    entry_of slug (revision_of k.active_revision_id db) (entries_of db winners)

unfoldable pub resolve_agent_skills : SkillAgent → SkillDb → List SkillEntry
resolve_agent_skills agent db = entries_of db (resolve_winning_skills agent db)

pub record ResolvedSkillDetail : Type 0 where
  pub slug : ℕ
  pub origin : Origin
  pub content : SkillContent
  pub active_revision_number : ℕ

abbrev detail_of :
    ℕ
    → Origin
    → Option (Revision SkillContent)
    → List ResolvedSkillDetail
    → List ResolvedSkillDetail
detail_of slug origin none details = details
detail_of slug origin (some r) details =
    record {
      slug = slug;
      origin = origin;
      content = r.content;
      active_revision_number = r.revision_number;
    }
    ∷ details

unfoldable pub details_of : SkillDb → Winners → List ResolvedSkillDetail
details_of db [] = []
details_of db ((slug, (origin, k)) ∷ winners) =
    detail_of slug origin (revision_of k.active_revision_id db) (details_of db winners)

unfoldable pub resolve_agent_skills_with_origin : SkillAgent → SkillDb → List ResolvedSkillDetail
resolve_agent_skills_with_origin agent db = details_of db (resolve_winning_skills agent db)
