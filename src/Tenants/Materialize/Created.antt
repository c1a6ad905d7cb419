-- ===== src/Tenants/Materialize/Created.antt =====
-- What a new revision of an agent leaves for the lookups that materialize it
-- (backend/app/tenants/revisions_service.py).
use Prim.Native.String.{String}
use qora.Base.{
  ℕ, ◌≡◌, refl, ◌∙◌, Bool, true, none, some, List, [], ◌∷◌, ◌++◌, ◌&&◌, ◌==◌, arith, where_rows,
  first_row, Option-cases, inl, inr, eqb_refl,
}
use qora.Store.Updates.{first-update}
use qora.Tenants.Revisions.{Revision, RevisionSource, Note, create_revision, next_revision_number}
use qora.Tenants.Rows.{
  ConfiguredAgent, ConfigDb, AgentConfig, find_agent, get_agent_in_client, get_client,
  active_config_of, point_agent,
}
use qora.Tenants.Tables.{agent_table}
use qora.Tenants.Agents.{get_active_revision}
use qora.Tenants.Clients.{get_active_client_revision}

first-fresh :
    {A : Type 0} (p : A → Bool) (rows : List A) (x : A)
    → first_row (where_rows p rows) ≡ none
    → p x ≡ true
    → first_row (where_rows p (rows ++ x ∷ [])) ≡ some x
first-fresh p [] x none_yet h = rw h refl
first-fresh p (y ∷ rows) x none_yet h = ground (arith, first-fresh p rows x)

agent_in_client :
    (client key : ℕ) (agents : List ConfiguredAgent) (a : ConfiguredAgent)
    → first_row (where_rows (λ b. b.id == key) agents) ≡ some a
    → (a.client_id == client) ≡ true
    → first_row (where_rows (λ b. b.id == key && b.client_id == client) agents) ≡ some a
agent_in_client client key [] a h c = cc
agent_in_client client key (b ∷ agents) a h c = ground (arith, agent_in_client client key agents a)

-- after a new revision, it is the active one, and the agent stands there otherwise as before
module _ (client key now : ℕ) (source : RevisionSource) (by : String) (note : Note)
    (content : AgentConfig) (db : ConfigDb) (a : ConfiguredAgent) where
  abbrev pub created : ConfigDb
  created = (create_revision (agent_table client) key now a.id source by note content db).0

  pub agent-created :
      find_agent a.id db ≡ some a → find_agent a.id created ≡ some (point_agent key a)
  unfolding create_revision
  agent-created found =
      first-update (λ b. b.id == a.id) (λ b. b.id == a.id) (point_agent key) (λ b. refl) db.agents
      ∙ rw (found, eqb_refl a.id) refl

  -- the client's overrides are as before
  pub client-created :
      (k : ℕ) → get_active_client_revision k created ≡ get_active_client_revision k db
  unfolding create_revision get_active_client_revision
  client-created k = elim (Option-cases (active_config_of (get_client k db))) [
    | inl e ↦ rw e refl
    | inr (revision, e) ↦ rw e refl
  ]

  pub active-created :
      find_agent a.id db ≡ some a
      → (a.client_id == client) ≡ true
      → first_row (where_rows (λ r. r.id == key) db.agent_revisions) ≡ none
      → (r : Revision AgentConfig) × (get_active_revision client a.id created ≡ some r)
        × (r.content ≡ content)
  unfolding create_revision get_active_revision
  active-created found mine fresh =
      let row : Revision AgentConfig = record {
        id = key;
        owner_id = a.id;
        revision_number = next_revision_number a.id db.agent_revisions;
        source = source;
        created_by = by;
        created_at = now;
        note = note;
        content = content;
      } in
      let in_client : get_agent_in_client client a.id created ≡ some (point_agent key a) =
        first-update (λ b. b.id == a.id && b.client_id == client) (λ b. b.id == a.id)
          (point_agent key) (λ b. refl) db.agents
        ∙ rw (agent_in_client client a.id db.agents a found mine, eqb_refl a.id) refl in
      (
        row,
        rw in_client (first-fresh (λ r. r.id == key) db.agent_revisions row fresh (eqb_refl key)),
        refl,
      )
