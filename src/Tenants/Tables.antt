-- ===== src/Tenants/Tables.antt =====
-- The revision tables of backend/app/tenants/models.py, with the laws that
-- backend/app/tenants/revisions_service.py relies on.
use qora.Base.{
  ℕ, ◌≡◌, refl, ap, ◌∙◌, sym, true, false, Option, none, some, List, [], ◌∷◌, ◌&&◌, ◌==◌, arith,
  if◌then◌else◌, where_rows, first_row, is_some, Bool-cases, inl, inr, eqb→eq, first-passes,
}
use qora.Store.{update_where}
use qora.Store.Updates.{map_row, first-update}
use qora.Tenants.Resolve.{Dict}
use qora.Tenants.Revisions.{RevisionTable}
use qora.Tenants.Rows.{
  ConfiguredAgent, ConfiguredClient, AgentConfig, AnalysisProfile, ConfigDb, find_agent,
  get_agent_in_client, get_client, active_revision_of, active_config_of, active_profile_of,
  write_agent, write_client, point_agent, point_config, point_profile,
}

is_some-map {ℓ} : {A : Type ℓ} (f : A → A) (o : Option A) → is_some (map_row f o) ≡ is_some o
is_some-map f none = refl
is_some-map f (some a) = refl

-- owners with a pointer column
module _ {A : Type 0} (id : A → ℕ) (pointer : Option A → Option ℕ) (key : ℕ) (set : A → A) where
  abbrev Sets : Type 0
  Sets = ((a : A) → id (set a) ≡ id a) × ((a : A) → pointer (some (set a)) ≡ some key)

  found-point :
      Sets
      → (owner other : ℕ) (found : Option A) → ((a : A) → found ≡ some a → (id a == owner) ≡ true)
      → ((other == owner) ≡ true → is_some found ≡ true)
      → pointer (map_row (λ a. if id a == other then set a else a) found)
        ≡ (if other == owner then some key else pointer found)
  found-point sets owner other none h there = elim (Bool-cases (other == owner)) [
    | inl e ↦ let absurd = there e in cc
    | inr e ↦ rw e refl
  ]
  found-point sets owner other (some a) h there =
      let here : id a ≡ owner = eqb→eq (id a) owner (h a refl) in
      elim (Bool-cases (other == owner)) [
        | inl e ↦ let at : (id a == other) ≡ true = ground arith in rw (at, e) (sets.1 a)
        | inr e ↦ let at : (id a == other) ≡ false = ground arith in rw (at, e) refl
      ]

  pub pointer-update :
      Sets
      → (owner other : ℕ) (rows : List A)
      → ((other == owner) ≡ true
          → is_some (first_row (where_rows (λ a. id a == owner) rows)) ≡ true)
      → pointer
          (first_row (where_rows (λ a. id a == owner) (update_where (λ a. id a == other) set rows)))
        ≡ (if other == owner
            then some key
            else pointer (first_row (where_rows (λ a. id a == owner) rows)))
  pointer-update sets owner other rows there =
      ap pointer (
        first-update (λ a. id a == owner) (λ a. id a == other) set
          (λ a. ap (λ i. i == owner) (sets.0 a)) rows)
      ∙ found-point sets owner other (first_row (where_rows (λ a. id a == owner) rows))
          (λ a e. first-passes (λ b. id b == owner) rows a e) there

-- an agent of the client is an agent
agent_found :
    (client key : ℕ) (agents : List ConfiguredAgent)
    → is_some (first_row (where_rows (λ a. a.id == key && a.client_id == client) agents)) ≡ true
    → is_some (first_row (where_rows (λ a. a.id == key) agents)) ≡ true
agent_found client key [] h = h
agent_found client key (a ∷ agents) h = ground (arith, agent_found client key agents)

pub agent_has-point :
    (client owner other key : ℕ) (db : ConfigDb)
    → is_some (get_agent_in_client client owner (write_agent other (point_agent key) db))
      ≡ is_some (get_agent_in_client client owner db)
agent_has-point client owner other key db =
    ap is_some (
      first-update (λ a. a.id == owner && a.client_id == client) (λ a. a.id == other)
        (point_agent key) (λ a. refl) db.agents)
    ∙ is_some-map (λ a. if a.id == other then point_agent key a else a)
        (get_agent_in_client client owner db)

pub agent_pointer-point :
    (client owner other key : ℕ) (db : ConfigDb)
    → is_some (get_agent_in_client client other db) ≡ true
    → active_revision_of (find_agent owner (write_agent other (point_agent key) db))
      ≡ (if other == owner then some key else active_revision_of (find_agent owner db))
agent_pointer-point client owner other key db h =
    pointer-update (λ a. a.id) active_revision_of key (point_agent key) ((λ a. refl), (λ a. refl))
      owner other db.agents
      (λ e.
        ap (λ k. is_some (find_agent k db)) (sym (eqb→eq other owner e))
        ∙ agent_found client other db.agents h)

-- owners that are found by their id alone
module _ {A : Type 0} (id : A → ℕ) where
  pub owner_has-point :
      (f : A → A)
      → ((a : A) → id (f a) ≡ id a)
      → (owner other : ℕ) (rows : List A)
      → is_some
          (first_row (where_rows (λ a. id a == owner) (update_where (λ a. id a == other) f rows)))
        ≡ is_some (first_row (where_rows (λ a. id a == owner) rows))
  owner_has-point f same owner other rows =
      ap is_some (
        first-update (λ a. id a == owner) (λ a. id a == other) f
          (λ a. ap (λ i. i == owner) (same a)) rows)
      ∙ is_some-map (λ a. if id a == other then f a else a)
          (first_row (where_rows (λ a. id a == owner) rows))

  pub owner_pointer-point :
      (pointer : Option A → Option ℕ) (key : ℕ) (set : A → A)
      → ((a : A) → id (set a) ≡ id a)
      → ((a : A) → pointer (some (set a)) ≡ some key)
      → (owner other : ℕ) (rows : List A)
      → is_some (first_row (where_rows (λ a. id a == other) rows)) ≡ true
      → pointer
          (first_row (where_rows (λ a. id a == owner) (update_where (λ a. id a == other) set rows)))
        ≡ (if other == owner
            then some key
            else pointer (first_row (where_rows (λ a. id a == owner) rows)))
  owner_pointer-point pointer key set same sets owner other rows h =
      pointer-update id pointer key set (same, sets) owner other rows
        (λ e.
          ap (λ k. is_some (first_row (where_rows (λ a. id a == k) rows)))
            (sym (eqb→eq other owner e))
          ∙ h)

-- `agent_config_revisions`, for the agents of one client
abbrev pub agent_table : ℕ → RevisionTable ConfigDb AgentConfig
agent_table client = record {
  rows = λ db. db.agent_revisions;
  put_rows = λ l db. record db { agent_revisions = l };
  has_owner = λ owner db. is_some (get_agent_in_client client owner db);
  pointer = λ owner db. active_revision_of (find_agent owner db);
  point = λ owner key db. write_agent owner (point_agent key) db;
  rows-put = λ l db. refl;
  rows-point = λ owner key db. refl;
  has-put = λ owner l db. refl;
  has-point = λ owner other key db. agent_has-point client owner other key db;
  pointer-put = λ owner l db. refl;
  pointer-point = λ owner other key db h. agent_pointer-point client owner other key db h;
}

-- `client_config_revisions`
abbrev pub client_table : RevisionTable ConfigDb Dict
client_table = record {
  rows = λ db. db.client_revisions;
  put_rows = λ l db. record db { client_revisions = l };
  has_owner = λ owner db. is_some (get_client owner db);
  pointer = λ owner db. active_config_of (get_client owner db);
  point = λ owner key db. write_client owner (point_config key) db;
  rows-put = λ l db. refl;
  rows-point = λ owner key db. refl;
  has-put = λ owner l db. refl;
  has-point = λ owner other key db.
      owner_has-point (λ (c : ConfiguredClient). c.id) (point_config key) (λ c. refl) owner other
        db.clients;
  pointer-put = λ owner l db. refl;
  pointer-point = λ owner other key db h.
      owner_pointer-point (λ (c : ConfiguredClient). c.id) active_config_of key (point_config key)
        (λ c. refl) (λ c. refl) owner other db.clients h;
}

-- `client_analysis_profile_revisions`
abbrev pub profile_table : RevisionTable ConfigDb AnalysisProfile
profile_table = record {
  rows = λ db. db.profile_revisions;
  put_rows = λ l db. record db { profile_revisions = l };
  has_owner = λ owner db. is_some (get_client owner db);
  pointer = λ owner db. active_profile_of (get_client owner db);
  point = λ owner key db. write_client owner (point_profile key) db;
  rows-put = λ l db. refl;
  rows-point = λ owner key db. refl;
  has-put = λ owner l db. refl;
  has-point = λ owner other key db.
      owner_has-point (λ (c : ConfiguredClient). c.id) (point_profile key) (λ c. refl) owner other
        db.clients;
  pointer-put = λ owner l db. refl;
  pointer-point = λ owner other key db h.
      owner_pointer-point (λ (c : ConfiguredClient). c.id) active_profile_of key (point_profile key)
        (λ c. refl) (λ c. refl) owner other db.clients h;
}
