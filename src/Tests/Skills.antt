-- ===== src/Tests/Skills.antt =====
-- Agents of two clients, and the skills that they resolve to.
use qora.Base.{
  Bool, true, false, ◌||◌, ℕ, ◌≡◌, refl, Option, none, some, [], ◌∷◌, ◌==◌, ◌+◌, if◌then◌else◌,
  Bool-cases, inl, inr,
}
use qora.Tenants.Revisions.{Revision, api, no_note}
use qora.Skills.{
  from_client_general, resolve_winning_skills, Skill, SkillDb, SkillPackage, qora_owner,
  client_owner, general, resolve_agent_skills, entries_of, merge_source, put_winner, SkillContent,
}
use qora.Skills.Cache.{
  get, cached_of, store_resolved, set_key, pop_key, invalidate_agent, invalidate_each,
  invalidate_client, empty_cache, SkillsCache, CacheState, fresh_state, agent_row, Step, query,
  store, write, client_invalidated, awaited, Run, start, then_step,
}
use qora.Skills.Winner.{winner, winner-resolve}
use qora.Skills.Cache.Fresh.{get-current}

-- agent 7 is client 1's, and every other one is client 2's
abbrev client_of : ℕ → ℕ
client_of key = if key == 7 then 1 else 2

abbrev skill : ℕ → ℕ → Skill
skill key owner = record {
  id = key;
  package_id = owner;
  slug = 4;
  section = general;
  agent_id = none;
  active_revision_id = some (key + 10);
}

abbrev package_row : ℕ → Option ℕ → SkillPackage
package_row key none = record { id = key; owner_type = qora_owner; client_id = none }
package_row key (some c) = record { id = key; owner_type = client_owner; client_id = some c }

abbrev revision : ℕ → Revision SkillContent
revision key = record {
  id = key + 10;
  owner_id = key;
  revision_number = 1;
  source = api;
  created_by = "ops";
  created_at = 5;
  note = no_note;
  content = record {
    content_md = "how to quote";
    filler_text = "one moment";
    trigger_hint = "a quote";
    description = "quotes";
  };
}

abbrev db : SkillDb
db = record {
  packages = package_row 1 none ∷ package_row 2 (some 1) ∷ [];
  skills = skill 10 1 ∷ [];
  revisions = revision 10 ∷ revision 11 ∷ [];
}

-- client 1 gets a skill
abbrev edited : SkillDb
edited = record db { skills = skill 10 1 ∷ skill 11 2 ∷ [] }

abbrev concerned : ℕ → Bool
concerned key = client_of key == 1

others :
    (key : ℕ)
    → concerned key ≡ false
    → resolve_agent_skills (agent_row client_of key) edited
      ≡ resolve_agent_skills (agent_row client_of key) db
unfolding resolve_agent_skills resolve_winning_skills entries_of merge_source put_winner
others key h = elim (Bool-cases (key == 7)) [
  | inl e ↦ let mine : concerned key ≡ true = rw e refl in cc
  | inr e ↦ rw e refl
]

-- agent 7 is asked for and cached; its client is written, and invalidated
abbrev cached_7 : SkillsCache
cached_7 =
    store_resolved (agent_row client_of 7) (resolve_agent_skills (agent_row client_of 7) db)
      empty_cache

abbrev settled : CacheState
settled = record {
  db = edited;
  cache = invalidate_client 1 cached_7;
  calls = [];
  is_behind = λ key. if client_of key == 1 then false else concerned key || false;
}

stored-Step :
    Step client_of
      (record (fresh_state db) {
        calls =
            record {
              key = 7;
              before = empty_cache;
              resolved = resolve_agent_skills (agent_row client_of 7) db;
              is_overtaken = false;
            }
            ∷ [];
      })
      (record (fresh_state db) { cache = cached_7 })
unfolding get
stored-Step = store [] _ [] refl

settled-Run : Run client_of (fresh_state db) settled
settled-Run =
    then_step
      (then_step (then_step (then_step start (query 7 empty_cache refl)) stored-Step)
        (write edited concerned others))
      (client_invalidated 1)

-- it is asked for again
abbrev asked : CacheState
asked = record settled {
  calls =
      record {
        key = 7;
        before = settled.cache;
        resolved = resolve_agent_skills (agent_row client_of 7) edited;
        is_overtaken = false;
      }
      ∷ [];
}

missed : cached_of (agent_row client_of 7) settled.cache ≡ none
unfolding store_resolved invalidate_client invalidate_each invalidate_agent set_key pop_key
missed = refl

get-current_example :
    (get
      (agent_row client_of 7)
      settled.cache
      (resolve_agent_skills (agent_row client_of 7) edited)
      asked.cache).1
    ≡ resolve_agent_skills (agent_row client_of 7) edited
get-current_example =
    get-current client_of 7 settled.cache (resolve_agent_skills (agent_row client_of 7) edited)
      (then_step settled-Run (query 7 settled.cache missed)) (awaited [] _ [] refl refl)

-- A call that is overtaken by the write and its invalidation leaves the entry of before the write.
overtaken :
    cached_of
      (agent_row client_of 7)
      (get
        (agent_row client_of 7)
        empty_cache
        (resolve_agent_skills (agent_row client_of 7) db)
        (invalidate_client 1 empty_cache)).0
    ≡ some (resolve_agent_skills (agent_row client_of 7) db)
unfolding get store_resolved invalidate_client invalidate_each set_key
overtaken = refl

winner-resolve_example :
    winner 4 (resolve_winning_skills (agent_row client_of 7) edited)
    ≡ some (from_client_general, skill 11 2)
winner-resolve_example = winner-resolve (agent_row client_of 7) edited 4
