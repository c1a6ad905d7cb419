-- ===== src/Auth/Sessions.antt =====
-- The life of a login session (backend/app/auth/sessions.py).
use qora.Base.{
  ℕ, ◌≡◌, refl, ap, ◌∙◌, subst, ◌+◌, ◌*◌, ◌<◌, Bool, true, false, Option, none, some, List, [], ◌∷◌,
  ◌++◌, ◌&&◌, leb, if◌then◌else◌, where_rows, first_row, arith, inl, inr, Bool-cases, Option-cases,
  is_none, eqb_refl, first-passes,
}
use qora.Base.Texts.{in_texts, same_text_refl}
use qora.Clock.{hour}
use qora.Store.Updates.{map_row, first-update}
use qora.Auth.Active.{and_split}
use qora.Auth.{
  AuthLibrary, Settings, PrincipalRole, superadmin, client, AuthClient, AuthSession, AuthDb,
  WorkosUser, MappedIdentity, has_hash, subset, client_ids_of, active_ids, superadmin_emails,
  client_identity, organization_identity, holds_text, is_set, role_stands, is_valid_row, if_valid,
  lookup_session, map_identity, create_session, revoke, revoke_session,
}

module _ (lib : AuthLibrary) (settings : Settings) where
  revoked-invalid :
      (now later : ℕ) (r : AuthSession) (db : AuthDb)
      → is_valid_row lib settings later (revoke lib settings now r) db ≡ false
  revoked-invalid now later r db = elim (Option-cases r.revoked_at) [
    | inl e ↦ rw e refl
    | inr (t, e) ↦ rw e refl
  ]

  revoke-hash :
      (now h : ℕ) (r : AuthSession) → has_hash h (revoke lib settings now r) ≡ has_hash h r
  revoke-hash now h r = elim (Bool-cases (is_none r.revoked_at)) [
    | inl e ↦ rw e refl
    | inr e ↦ rw e refl
  ]

  revoked-none :
      (now later h : ℕ) (found : Option AuthSession) (db : AuthDb)
      → ((r : AuthSession) → found ≡ some r → has_hash h r ≡ true)
      → if_valid lib settings later db
          (map_row (λ r. if has_hash h r then revoke lib settings now r else r) found)
        ≡ none
  revoked-none now later h none db own = refl
  revoked-none now later h (some r) db own = rw (own r refl, revoked-invalid now later r db) refl

  -- A token whose session was revoked opens nothing any more, at no later or earlier time.
  revoke-lookup :
      (token now later : ℕ) (db : AuthDb)
      → lookup_session lib settings token later (revoke_session lib settings token now db) ≡ none
  unfolding lookup_session revoke_session
  revoke-lookup token now later db =
      let h = lib.hash_token token in
      ap (if_valid lib settings later (revoke_session lib settings token now db)) (
        first-update (has_hash h) (has_hash h) (revoke lib settings now) (λ r. revoke-hash now h r)
          db.sessions)
      ∙ revoked-none now later h (first_row (where_rows (has_hash h) db.sessions))
          (revoke_session lib settings token now db)
          (λ r e. first-passes (has_hash h) db.sessions r e)

  first-fresh_hash :
      (h : ℕ) (rows : List AuthSession) (r : AuthSession)
      → first_row (where_rows (has_hash h) rows) ≡ none
      → has_hash h r ≡ true
      → first_row (where_rows (has_hash h) (rows ++ r ∷ [])) ≡ some r
  first-fresh_hash h [] r e same = rw same refl
  first-fresh_hash h (x ∷ rows) r e same = ground (arith, first-fresh_hash h rows r)

  -- an active client that a query found is among the active ones of its id
  in-active :
      (c : AuthClient) (p : AuthClient → Bool) (clients : List AuthClient)
      → first_row (where_rows p clients) ≡ some c
      → c.is_active ≡ true
      → in_texts c.id
          (client_ids_of (where_rows (λ x. in_texts x.id (c.id ∷ []) && x.is_active) clients))
        ≡ true
  in-active c p [] found active = cc
  in-active c p (x ∷ clients) found active =
      ground (arith, same_text_refl c.id, in-active c p clients)

  subset-active :
      (ids : List (List ℕ)) (clients : List AuthClient)
      → subset (client_ids_of (where_rows (λ x. in_texts x.id ids && x.is_active) clients)) ids
        ≡ true
  subset-active ids [] = refl
  subset-active ids (x ∷ clients) = ground (arith, subset-active ids clients)

  -- a role does not hang on the sessions
  stands-sessions :
      (role : PrincipalRole) (r : AuthSession) (l : List AuthSession) (db : AuthDb)
      → role_stands lib settings role r (record db { sessions = l })
        ≡ role_stands lib settings role r db
  unfolding active_ids
  stands-sessions superadmin r l db = refl
  stands-sessions client r l db = refl

  module _ (user : WorkosUser) (db : AuthDb) where
    -- a row of that email and those clients stands
    abbrev Stands : MappedIdentity → Type 0
    Stands identity =
        (r : AuthSession)
        → r.email ≡ user.email
        → r.client_ids ≡ identity.client_ids
        → role_stands lib settings identity.role r db ≡ true

    client-Stands :
        (p : AuthClient → Bool) (found : Option AuthClient) (identity : MappedIdentity)
        → first_row (where_rows p db.clients) ≡ found
        → client_identity lib settings found ≡ some identity
        → Stands identity
    unfolding active_ids
    client-Stands p none identity e h = cc
    client-Stands p (some c) identity e h = elim (Bool-cases c.is_active) [
      | inl active ↦
          let same : some (record { role = client; client_ids = c.id ∷ [] }) ≡ some identity =
            rw active at h in
          let is_client : record { role = client; client_ids = c.id ∷ [] } ≡ identity = cc in
          subst Stands is_client (λ r mail ids.
            rw (ids, subset-active (c.id ∷ []) db.clients, in-active c p db.clients e active) refl)
      | inr closed ↦ let wrong : none ≡ some identity = rw closed at h in cc
    ]

    organization-Stands :
        (organization : Option (List ℕ)) (identity : MappedIdentity)
        → organization_identity lib settings organization db ≡ some identity
        → Stands identity
    organization-Stands none identity h = cc
    organization-Stands (some o) identity h = elim (Bool-cases (is_set o)) [
      | inl e ↦
          client-Stands (λ c. holds_text c.workos_organization_id o)
            (first_row (where_rows (λ c. holds_text c.workos_organization_id o) db.clients))
            identity refl (rw e at h)
      | inr e ↦ let wrong : none ≡ some identity = rw e at h in cc
    ]

    identity-Stands :
        (organization : Option (List ℕ)) (identity : MappedIdentity)
        → map_identity lib settings user organization db ≡ some identity
        → Stands identity
    unfolding map_identity
    identity-Stands organization identity h =
        let listed = in_texts (lib.lower user.email) (superadmin_emails lib settings) in
        elim (Bool-cases (listed && user.email_verified)) [
          | inl e ↦
              let same : some (record { role = superadmin; client_ids = [] }) ≡ some identity =
                rw e at h in
              let is_operator : record { role = superadmin; client_ids = [] } ≡ identity = cc in
              subst Stands is_operator
                (λ r mail ids. rw mail (and_split listed user.email_verified e).0)
          | inr e ↦ organization-Stands organization identity (rw e at h)
        ]

    -- A login whose identity was mapped, and whose token has a hash that no session has, is found
    -- under its token until it expires, with the role, the clients and the email that it was
    -- created with.
    pub create-lookup :
        (token key now later : ℕ) (organization workos_session : Option (List ℕ))
        (identity : MappedIdentity)
        → map_identity lib settings user organization db ≡ some identity
        → first_row (where_rows (has_hash (lib.hash_token token)) db.sessions) ≡ none
        → later < now + settings.qora_auth_session_ttl_hours * hour
        → (r : AuthSession) × (lookup_session lib settings token later
              (create_session lib settings token key now user identity workos_session db)
            ≡ some r)
          × (r.role ≡ identity.role)
          × (r.client_ids ≡ identity.client_ids)
          × (r.email ≡ user.email)
    unfolding lookup_session create_session
    create-lookup token key now later organization workos_session identity mapped fresh early =
        let row : AuthSession = record {
          id = key;
          token_hash = lib.hash_token token;
          workos_user_id = user.id;
          email = user.email;
          role = identity.role;
          client_ids = identity.client_ids;
          workos_session_id = workos_session;
          created_at = now;
          expires_at = now + settings.qora_auth_session_ttl_hours * hour;
          revoked_at = none;
        } in
        let stands =
          stands-sessions identity.role row (db.sessions ++ row ∷ []) db
          ∙ identity-Stands organization identity mapped row refl refl in
        let in_time : leb row.expires_at later ≡ false = ground arith in
        (
          row,
          rw
              (first-fresh_hash (lib.hash_token token) db.sessions row fresh
                (eqb_refl (lib.hash_token token)))
              (rw (in_time, stands) refl),
          refl,
          refl,
          refl,
        )
