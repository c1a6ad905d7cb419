-- ===== src/Skills/Cache/Fresh.antt =====
-- No call of `get` of `AgentSkillsCache` (backend/app/skills/service.py) returns what is out of date.
use qora.Base.{
  map, ◌&&◌, ℕ, ◌≡◌, ◌≢◌, refl, sym, ap, ◌∙◌, subst, Bool, true, false, none, some, List, [], ◌∷◌,
  ◌++◌, arith, ◌==◌, ◌||◌, any_row, All, if◌then◌else◌, Bool-cases, inl, inr, eqb→eq,
}
use qora.Skills.{SkillDb, SkillEntry, resolve_agent_skills}
use qora.Skills.Cache.{
  get_key, set_key, pop_key, SkillsCache, cached_of, store_resolved, get, invalidate_agent,
  stale_ids, invalidate_each, invalidate_client, invalidate_all, Call, CacheState, overtake,
  fresh_state, agent_row, resolve_now, Step, query, store, write, client_invalidated,
  all_invalidated, Run, start, then_step, Ends, found, awaited,
}

module _ {V : Type 0} where
  get-set :
      (key k : ℕ) (v : V) (rows : List (ℕ × V))
      → get_key key (set_key k v rows) ≡ (if k == key then some v else get_key key rows)
  unfolding set_key
  get-set key k v [] = refl
  get-set key k v ((j, w) ∷ rows) = ground (arith, get-set key k v rows)

  get-pop :
      (key k : ℕ) (rows : List (ℕ × V))
      → get_key key (pop_key k rows) ≡ (if k == key then none else get_key key rows)
  unfolding pop_key
  get-pop key k [] = ground arith
  get-pop key k ((j, w) ∷ rows) = ground (arith, get-pop key k rows)

module _ {A : Type 0} (P : A → Type 0) where
  All-at : (xs : List A) (a : A) (ys : List A) → All P (xs ++ a ∷ ys) → P a
  All-at [] a ys (here, rest) = here
  All-at (x ∷ xs) a ys (here, rest) = All-at xs a ys rest

  All-without : (xs : List A) (a : A) (ys : List A) → All P (xs ++ a ∷ ys) → All P (xs ++ ys)
  All-without [] a ys (here, rest) = rest
  All-without (x ∷ xs) a ys (here, rest) = (here, All-without xs a ys rest)

module _ (client_of : ℕ → ℕ) where
  -- The client of what is cached is known, and what is cached is what would be resolved now, unless
  -- the agent is behind.
  unfoldable EntriesFresh : CacheState → Type 0
  EntriesFresh s =
      (key : ℕ) (entries : List SkillEntry)
      → get_key key s.cache.cached ≡ some entries
      → (get_key key s.cache.agent_client ≡ some (client_of key))
        × (s.is_behind key ≡ false → entries ≡ resolve_now client_of key s)

  unfoldable CallFresh : CacheState → Call → Type 0
  CallFresh s call =
      (cached_of (agent_row client_of call.key) call.before ≡ none)
      × (call.is_overtaken ≡ false → call.resolved ≡ resolve_now client_of call.key s)

  record IsFresh (s : CacheState) : Type 0 where
    pub entries_fresh : EntriesFresh s
    pub calls_fresh : All (CallFresh s) s.calls

  store-fresh :
      (s : CacheState) (calls : List Call) (key : ℕ) (resolved : List SkillEntry) (overtaken : Bool)
      → (overtaken ≡ false → resolved ≡ resolve_now client_of key s)
      → EntriesFresh s
      → EntriesFresh (record s {
        cache = store_resolved (agent_row client_of key) resolved s.cache;
        calls = calls;
        is_behind = λ k. (overtaken && key == k) || s.is_behind k;
      })
  unfolding EntriesFresh store_resolved
  store-fresh s calls key resolved overtaken current fresh = λ k entries h.
      elim (Bool-cases (key == k)) [
        | inl e ↦
            let same = eqb→eq key k e in
            let stored : some resolved ≡ some entries =
              sym (get-set k key resolved s.cache.cached ∙ rw e refl) ∙ h in
            (
              get-set k key (client_of key) s.cache.agent_client
                  ∙ rw e (ap (λ j. some (client_of j)) same),
              λ clean.
                  (let got : entries ≡ resolved = cc in got)
                  ∙ current (ground arith)
                  ∙ ap (λ j. resolve_now client_of j s) same,
            )
        | inr e ↦
            let kept = sym (get-set k key resolved s.cache.cached ∙ rw e refl) ∙ h in
            let (tracked, known) = fresh k entries kept in
            (
              get-set k key (client_of key) s.cache.agent_client ∙ rw e tracked,
              λ clean. known (ground arith),
            )
      ]

  -- what is left after keys are popped
  invalidated :
      (keys : List ℕ) (c : SkillsCache) (k : ℕ) (entries : List SkillEntry)
      → get_key k (invalidate_each keys c).cached ≡ some entries
      → (get_key k c.cached ≡ some entries)
        × (get_key k (invalidate_each keys c).agent_client ≡ get_key k c.agent_client)
        × (any_row (λ key. key == k) keys ≡ false)
  unfolding invalidate_each invalidate_agent
  invalidated [] c k entries h = (h, refl, refl)
  invalidated (key ∷ keys) c k entries h =
      let (there, tracked, others) = invalidated keys (invalidate_agent key c) k entries h in
      elim (Bool-cases (key == k)) [
        | inl e ↦
            let gone : none ≡ some entries = sym (get-pop k key c.cached ∙ rw e refl) ∙ there in cc
        | inr e ↦ (
          sym (get-pop k key c.cached ∙ rw e refl) ∙ there,
          tracked ∙ get-pop k key c.agent_client ∙ rw e refl,
          rw (e, others) refl,
        )
      ]

  -- an agent of the client is among the stale ones
  stale-any :
      (client k owner : ℕ) (rows : List (ℕ × ℕ))
      → get_key k rows ≡ some owner
      → any_row (λ key. key == k) (stale_ids client rows) ≡ false
      → owner ≢ client
  stale-any client k owner [] h none_stale = cc
  stale-any client k owner ((agent, o) ∷ rows) h none_stale =
      ground (arith, stale-any client k owner rows)

  client-fresh :
      (s : CacheState) (client : ℕ)
      → EntriesFresh s
      → EntriesFresh (record s {
        cache = invalidate_client client s.cache;
        is_behind = λ key. if client_of key == client then false else s.is_behind key;
      })
  unfolding EntriesFresh invalidate_client
  client-fresh s client fresh = λ key entries h.
      let c = s.cache in
      let (there, tracked, kept) = invalidated (stale_ids client c.agent_client) c key entries h in
      let (known, current) = fresh key entries there in
      let other = stale-any client key (client_of key) c.agent_client known kept in
      let elsewhere : (client_of key == client) ≡ false = ground arith in
      (tracked ∙ known, λ clean. current (rw elsewhere at clean))

  written-left : (a b : Bool) → (a || b) ≡ false → (a ≡ false) × (b ≡ false)
  written-left false b h = (refl, h)
  written-left true b h = cc

  calls-written :
      (s : CacheState) (db : SkillDb) (concerns : ℕ → Bool)
      → ((key : ℕ)
          → concerns key ≡ false
          → resolve_agent_skills (agent_row client_of key) db ≡ resolve_now client_of key s)
      → (calls : List Call) → All (CallFresh s) calls
      → All (CallFresh (record s { db = db })) (map (overtake concerns) calls)
  unfolding CallFresh
  calls-written s db concerns same [] fresh = tt
  calls-written s db concerns same (call ∷ calls) ((missed, current), fresh) = (
    (
      missed,
      λ free.
          let (apart, before) = written-left (concerns call.key) call.is_overtaken free in
          current before ∙ sym (same call.key apart),
    ),
    calls-written s db concerns same calls fresh,
  )

  Step-IsFresh : {s s' : CacheState} → Step client_of s s' → IsFresh s → IsFresh s'
  unfolding get invalidate_all EntriesFresh CallFresh
  Step-IsFresh {s} (query key before missed) fresh = record {
    entries_fresh = fresh.entries_fresh;
    calls_fresh = ((missed, λ free. refl), fresh.calls_fresh);
  }
  Step-IsFresh {s} (store earlier call later e) fresh =
      let calls : All (CallFresh s) (earlier ++ call ∷ later) =
        subst (All (CallFresh s)) e fresh.calls_fresh in
      let (missed, current) = All-at (CallFresh s) earlier call later calls in
      record {
        entries_fresh = rw missed (
            store-fresh s (earlier ++ later) call.key call.resolved call.is_overtaken current
              fresh.entries_fresh);
        calls_fresh = All-without (CallFresh s) earlier call later calls;
      }
  Step-IsFresh {s} (write db concerns same) fresh = record {
    entries_fresh = λ key entries h.
        let (known, current) = fresh.entries_fresh key entries h in
        (
          known,
          λ clean.
              let (apart, before) = written-left (concerns key) (s.is_behind key) clean in
              current before ∙ sym (same key apart),
        );
    calls_fresh = calls-written s db concerns same s.calls fresh.calls_fresh;
  }
  Step-IsFresh {s} (client_invalidated client) fresh = record {
    entries_fresh = client-fresh s client fresh.entries_fresh;
    calls_fresh = fresh.calls_fresh;
  }
  Step-IsFresh {s} all_invalidated fresh = record {
    entries_fresh = λ key entries h. cc;
    calls_fresh = fresh.calls_fresh;
  }

  Run-IsFresh : {db : SkillDb} {s : CacheState} → Run client_of (fresh_state db) s → IsFresh s
  unfolding EntriesFresh
  Run-IsFresh start = record { entries_fresh = λ key entries h. cc; calls_fresh = tt }
  Run-IsFresh (then_step r st) = Step-IsFresh st (Run-IsFresh r)

  -- Whatever queries, stores, writes and invalidations came before, in any order, a call of the
  -- cache returns what the tables resolve to at that moment, if it finds an entry and its agent is
  -- not behind, or if it comes back from its await and no write that concerns its agent was
  -- committed since its query. An agent is behind from such a write, or from the store of a call
  -- that such a write has overtaken, until the next invalidation that concerns it.
  pub get-current :
      {db : SkillDb} {s : CacheState} (key : ℕ) (before : SkillsCache) (resolved : List SkillEntry)
      → Run client_of (fresh_state db) s
      → Ends client_of s key before resolved
      → (get (agent_row client_of key) before resolved s.cache).1 ≡ resolve_now client_of key s
  unfolding get EntriesFresh CallFresh
  get-current {db} {s} key before resolved r (found k entries other e clean) =
      rw e (((Run-IsFresh r).entries_fresh key entries e).1 clean)
  get-current {db} {s} key before resolved r (awaited earlier call later e free) =
      let calls : All (CallFresh s) (earlier ++ call ∷ later) =
        subst (All (CallFresh s)) e (Run-IsFresh r).calls_fresh in
      let (missed, current) = All-at (CallFresh s) earlier call later calls in
      rw missed (current free)
