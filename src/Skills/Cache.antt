-- ===== src/Skills/Cache.antt =====
-- `AgentSkillsCache` of backend/app/skills/service.py.
pub mod Fresh
use qora.Base.{
  map, ◌&&◌, ◌++◌, ◌||◌, ℕ, ◌≡◌, ◌≢◌, refl, sym, ap, ◌∙◌, Bool, true, false, Option, none, some,
  List, [], ◌∷◌, arith, ◌==◌, any_row, if◌then◌else◌, Bool-cases, Option-cases, inl, inr, eqb→eq,
}
use qora.Skills.{SkillAgent, SkillDb, SkillEntry, resolve_agent_skills}

-- a dict by agent id
module _ {V : Type 0} where
  abbrev pub get_key : ℕ → List (ℕ × V) → Option V
  get_key key [] = none
  get_key key ((k, v) ∷ rows) = let rest = get_key key rows in if k == key then some v else rest

  unfoldable pub set_key : ℕ → V → List (ℕ × V) → List (ℕ × V)
  set_key key v [] = (key, v) ∷ []
  set_key key v ((k, w) ∷ rows) =
      let rest = set_key key v rows in if k == key then (key, v) ∷ rows else (k, w) ∷ rest

  -- `.pop(key, None)`
  unfoldable pub pop_key : ℕ → List (ℕ × V) → List (ℕ × V)
  pop_key key [] = []
  pop_key key ((k, w) ∷ rows) =
      let rest = pop_key key rows in if k == key then rest else (k, w) ∷ rest

pub record SkillsCache : Type 0 where
  pub cached : List (ℕ × List SkillEntry)
  pub agent_client : List (ℕ × ℕ)

abbrev pub empty_cache : SkillsCache
empty_cache = record { cached = []; agent_client = [] }

abbrev pub cached_of : SkillAgent → SkillsCache → Option (List SkillEntry)
cached_of agent c = get_key agent.id c.cached

unfoldable pub store_resolved : SkillAgent → List SkillEntry → SkillsCache → SkillsCache
store_resolved agent entries c = record {
  cached = set_key agent.id entries c.cached;
  agent_client = set_key agent.id agent.client_id c.agent_client;
}

abbrev pub get_cached :
    SkillAgent
    → Option (List SkillEntry)
    → List SkillEntry
    → SkillsCache
    → SkillsCache × List SkillEntry
get_cached agent (some entries) resolved after = (after, entries)
get_cached agent none resolved after = (store_resolved agent resolved after, resolved)

-- `AgentSkillsCache.get`: the cache that the lookup meets, what `resolve_agent_skills` returns, and
-- the cache that stands there when it has (the same one where the lookup finds an entry, since
-- nothing is awaited then)
unfoldable pub get :
    SkillAgent → SkillsCache → List SkillEntry → SkillsCache → SkillsCache × List SkillEntry
get agent before resolved after = get_cached agent (cached_of agent before) resolved after

unfoldable pub invalidate_agent : ℕ → SkillsCache → SkillsCache
invalidate_agent key c = record {
  cached = pop_key key c.cached;
  agent_client = pop_key key c.agent_client;
}

abbrev pub stale_ids : ℕ → List (ℕ × ℕ) → List ℕ
stale_ids client [] = []
stale_ids client ((agent, owner) ∷ rows) =
    let rest = stale_ids client rows in if owner == client then agent ∷ rest else rest

unfoldable pub invalidate_each : List ℕ → SkillsCache → SkillsCache
invalidate_each [] c = c
invalidate_each (key ∷ keys) c = invalidate_each keys (invalidate_agent key c)

unfoldable pub invalidate_client : ℕ → SkillsCache → SkillsCache
invalidate_client client c = invalidate_each (stale_ids client c.agent_client) c

unfoldable pub invalidate_all : SkillsCache → SkillsCache
invalidate_all c = empty_cache

-- A call of `get` that found no entry, and whose query has run: it will store what it resolved. It
-- is overtaken once a write that concerns its agent has been committed since.
pub record Call : Type 0 where
  pub key : ℕ
  pub before : SkillsCache
  pub resolved : List SkillEntry
  pub is_overtaken : Bool

abbrev pub overtake : (ℕ → Bool) → Call → Call
overtake concerns call = record call { is_overtaken = concerns call.key || call.is_overtaken }

-- The tables, the cache and the calls under way; `is_behind` says of an agent that, since the last
-- invalidation that concerns it, a write was committed or an overtaken call has stored its result.
pub record CacheState : Type 0 where
  pub db : SkillDb
  pub cache : SkillsCache
  pub calls : List Call
  pub is_behind : ℕ → Bool

abbrev pub fresh_state : SkillDb → CacheState
fresh_state db = record { db = db; cache = empty_cache; calls = []; is_behind = λ key. false }

-- `client_of` gives the client of each agent.
module _ (client_of : ℕ → ℕ) where
  abbrev pub agent_row : ℕ → SkillAgent
  agent_row key = record { id = key; client_id = client_of key }

  abbrev pub resolve_now : ℕ → CacheState → List SkillEntry
  resolve_now key s = resolve_agent_skills (agent_row key) s.db

  -- A call queries the tables, or stores what it resolved; a write is committed, which leaves what
  -- the agents that it does not concern resolve to; an invalidation runs.
  pub data Step (s : CacheState) : CacheState → Type 0 where
    query :
        (key : ℕ) (before : SkillsCache)
        → cached_of (agent_row key) before ≡ none
        → Step s (record s {
          calls =
              record {
                key = key;
                before = before;
                resolved = resolve_now key s;
                is_overtaken = false;
              }
              ∷ s.calls;
        })
    store :
        (earlier : List Call) (call : Call) (later : List Call)
        → s.calls ≡ earlier ++ call ∷ later
        → Step s (record s {
          cache = (get (agent_row call.key) call.before call.resolved s.cache).0;
          calls = earlier ++ later;
          is_behind = λ key. (call.is_overtaken && call.key == key) || s.is_behind key;
        })
    write :
        (db : SkillDb) (concerns : ℕ → Bool)
        → ((key : ℕ)
            → concerns key ≡ false
            → resolve_agent_skills (agent_row key) db ≡ resolve_now key s)
        → Step s (record s {
          db = db;
          calls = map (overtake concerns) s.calls;
          is_behind = λ key. concerns key || s.is_behind key;
        })
    client_invalidated :
        (client : ℕ)
        → Step s (record s {
          cache = invalidate_client client s.cache;
          is_behind = λ key. if client_of key == client then false else s.is_behind key;
        })
    all_invalidated : Step s (record s { cache = invalidate_all s.cache; is_behind = λ key. false })

  pub data Run (s₀ : CacheState) : CacheState → Type 0 where
    start : Run s₀ s₀
    then_step : {s s' : CacheState} → Run s₀ s → Step s s' → Run s₀ s'

  -- How a call of `get` ends in a state: it finds an entry of an agent that is not behind; or it
  -- comes back from its await, and was not overtaken.
  pub data Ends (s : CacheState) : ℕ → SkillsCache → List SkillEntry → Type 0 where
    found :
        (key : ℕ) (entries resolved : List SkillEntry)
        → cached_of (agent_row key) s.cache ≡ some entries
        → s.is_behind key ≡ false
        → Ends s key s.cache resolved
    awaited :
        (earlier : List Call) (call : Call) (later : List Call)
        → s.calls ≡ earlier ++ call ∷ later
        → call.is_overtaken ≡ false
        → Ends s call.key call.before call.resolved
