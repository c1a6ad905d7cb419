-- ===== src/Auth/Isolation.antt =====
-- What a request that reaches a route of one client has shown (backend/app/core/auth.py,
-- backend/app/core/access.py, backend/app/auth/sessions.py).
use qora.Base.{
  ℕ, ◌≡◌, refl, sym, ap, ◌∙◌, ◌<◌, true, Option, none, some, List, [], ◌++◌, ◌&&◌, leb, where_rows,
  first_row, All, arith, ◌⊎◌, inl, inr, Bool-cases, Option-cases, not, is_none,
}
use qora.Base.Texts.{same_text, starts_with, in_texts, same_text→eq}
use qora.Auth.{
  AuthLibrary, Settings, PrincipalRole, superadmin, client, is_set, AuthSession, AuthDb, subset,
  has_hash, superadmin_emails, active_ids, role_stands, is_valid_row, if_valid, lookup_session,
}
use qora.Auth.Access.{
  check_key, CallerIdentity, of_session, session, authentication_required, csrf_check_failed,
  Request, Authentication, authenticated, granted, tenant_forbidden, bearer, without_prefix,
  require_bearer_api_key, lower_all, caller_of, require_row, require_cookie, require_header,
  require_api_key, can_access, require_client_access, access_of, client_route,
}
use qora.Auth.Active.{prefix-append, IsActiveId, and_split, All-active, none_of}

abbrev caller_in : Authentication → CallerIdentity
caller_in (authenticated caller) = caller
caller_in _ = record {
  api_key_hash = of_session 0;
  role = client;
  client_ids = [];
  auth_method = session;
  email = none;
}

module _ (lib : AuthLibrary) (settings : Settings) (now : ℕ) (db : AuthDb) where
  -- by its role, the session may access the client `id`
  abbrev pub MayAccess : List ℕ → AuthSession → Type 0
  MayAccess id r =
      ((r.role ≡ superadmin)
        × (in_texts (lib.lower r.email) (superadmin_emails lib settings) ≡ true))
      ⊎ ((r.role ≡ client)
          × (in_texts (lib.lower id) (lower_all lib settings r.client_ids) ≡ true)
          × All (IsActiveId db) r.client_ids)

  -- the key of the settings
  abbrev pub ByKey : Request → Type 0
  ByKey request =
      (key : List ℕ) × (settings.qora_api_key ≡ some key)
      × (request.authorization ≡ some (bearer ++ key))

  -- the row of a session that is neither revoked nor expired
  abbrev pub BySession : List ℕ → Request → Type 0
  BySession id request =
      (token : ℕ) × (r : AuthSession) × (request.authorization ≡ none)
      × (request.session_cookie ≡ some token)
      × (first_row (where_rows (has_hash (lib.hash_token token)) db.sessions) ≡ some r)
      × (r.revoked_at ≡ none)
      × (now < r.expires_at)
      × MayAccess id r

  checked_key :
      (presented key : List ℕ) (caller : CallerIdentity)
      → check_key lib settings presented key ≡ authenticated caller
      → same_text presented key ≡ true
  checked_key presented key caller h =
      elim (Bool-cases (is_set presented && same_text presented key)) [
        | inl e ↦ (and_split (is_set presented) (same_text presented key) e).1
        | inr e ↦ let wrong = rw e at h in cc
      ]

  key-caller :
      (header : List ℕ) (caller : CallerIdentity)
      → require_bearer_api_key lib settings header ≡ authenticated caller
      → (key : List ℕ) × (settings.qora_api_key ≡ some key) × (header ≡ bearer ++ key)
  unfolding require_bearer_api_key
  key-caller header caller h = elim (Option-cases settings.qora_api_key) [
    | inl e ↦ let wrong = rw e at h in cc
    | inr (key, e) ↦
        let configured = rw e at h in
        elim (Bool-cases (starts_with header bearer)) [
          | inl b ↦
              let presented = without_prefix bearer header in
              let checked = rw b at configured in
              (
                key,
                e,
                prefix-append bearer header b
                    ∙ ap (λ k. bearer ++ k)
                        (same_text→eq presented key (checked_key presented key caller checked)),
              )
          | inr b ↦ let wrong = rw b at configured in cc
        ]
  ]

  valid-row :
      (token : ℕ) (found : Option AuthSession) (r : AuthSession)
      → if_valid lib settings now db found ≡ some r
      → (found ≡ some r) × (is_valid_row lib settings now r db ≡ true)
  valid-row token none r h = cc
  valid-row token (some q) r h = elim (Bool-cases (is_valid_row lib settings now q db)) [
    | inl e ↦
        let same : some q ≡ some r = rw e at h in
        let is_r : q ≡ r = cc in (same, ap (λ x. is_valid_row lib settings now x db) (sym is_r) ∙ e)
    | inr e ↦ let wrong : none ≡ some r = rw e at h in cc
  ]

  role-access :
      (role : PrincipalRole) (id : List ℕ) (r : AuthSession)
      → r.role ≡ role
      → role_stands lib settings role r db ≡ true
      → can_access lib settings (caller_of lib settings r) (some id) ≡ true
      → MayAccess id r
  unfolding can_access
  role-access superadmin id r e stands may = inl (e, stands)
  role-access client id r e stands may =
      let ids = lower_all lib settings r.client_ids in
      let tested : (is_set id && in_texts (lib.lower id) ids) ≡ true = rw e at may in
      inr (
        e,
        (and_split (is_set id) (in_texts (lib.lower id) ids) tested).1,
        All-active db r.client_ids r.client_ids
            (and_split (subset (active_ids r.client_ids db) r.client_ids)
              (subset r.client_ids (active_ids r.client_ids db)) stands).1,
      )

  live-row :
      (id : List ℕ) (r : AuthSession)
      → is_valid_row lib settings now r db ≡ true
      → can_access lib settings (caller_of lib settings r) (some id) ≡ true
      → (r.revoked_at ≡ none) × (now < r.expires_at) × MayAccess id r
  live-row id r valid may =
      let stands = role_stands lib settings r.role r db in
      let (unrevoked, later) =
        and_split (is_none r.revoked_at) (not (leb r.expires_at now) && stands) valid in
      let (unexpired, role) = and_split (not (leb r.expires_at now)) stands later in
      (none_of r.revoked_at unrevoked, ground arith, role-access r.role id r refl role may)

  session-caller :
      (id : List ℕ) (request : Request) (token : ℕ) (found : Option AuthSession)
      (caller : CallerIdentity)
      → lookup_session lib settings token now db ≡ found
      → request.authorization ≡ none
      → request.session_cookie ≡ some token
      → require_row lib settings request found ≡ authenticated caller
      → can_access lib settings caller (some id) ≡ true
      → BySession id request
  unfolding lookup_session
  session-caller id request token none caller e a c h may = cc
  session-caller id request token (some r) caller e a c h may =
      elim (Bool-cases (request.is_unsafe && not request.qora_client_is_web)) [
        | inl unsafe ↦ let wrong = rw unsafe at h in cc
        | inr safe ↦
            let same : authenticated (caller_of lib settings r) ≡ authenticated caller =
              rw safe at h in
            let is_row : caller_of lib settings r ≡ caller = ap caller_in same in
            let (found, valid) = valid-row token _ r e in
            let (unrevoked, unexpired, allowed) =
              live-row id r valid (ap (λ k. can_access lib settings k (some id)) is_row ∙ may) in
            (token, r, a, c, found, unrevoked, unexpired, allowed)
      ]

  cookie-caller :
      (id : List ℕ) (request : Request) (cookie : Option ℕ) (caller : CallerIdentity)
      → request.authorization ≡ none
      → request.session_cookie ≡ cookie
      → require_cookie lib settings request cookie now db ≡ authenticated caller
      → can_access lib settings caller (some id) ≡ true
      → BySession id request
  cookie-caller id request none caller a c h may = cc
  cookie-caller id request (some token) caller a c h may =
      session-caller id request token (lookup_session lib settings token now db) caller refl a c h
        may

  header-caller :
      (id : List ℕ) (request : Request) (header : Option (List ℕ)) (caller : CallerIdentity)
      → request.authorization ≡ header
      → require_header lib settings request header now db ≡ authenticated caller
      → can_access lib settings caller (some id) ≡ true
      → ByKey request ⊎ BySession id request
  header-caller id request (some header) caller a h may =
      let (key, configured, shown) = key-caller header caller h in
      inl (key, configured, a ∙ ap some shown)
  header-caller id request none caller a h may =
      inr (cookie-caller id request request.session_cookie caller a refl h may)

  access-granted :
      (id : List ℕ) (m : Authentication) (caller : CallerIdentity)
      → access_of lib settings (require_client_access lib settings id) m ≡ granted caller
      → (c : CallerIdentity) × (m ≡ authenticated c) × (can_access lib settings c (some id) ≡ true)
  unfolding require_client_access
  access-granted id (authenticated c) caller h =
      elim (Bool-cases (can_access lib settings c (some id))) [
        | inl e ↦ (c, refl, e)
        | inr e ↦ let wrong : tenant_forbidden ≡ granted caller = rw e at h in cc
      ]
  access-granted id authentication_required caller h = cc
  access-granted id csrf_check_failed caller h = cc

  -- A request that a route of one client lets through carries the API key of the settings, or has
  -- no Authorization header and carries the cookie of a session that is neither revoked nor
  -- expired, and that belongs to a superadmin who is still listed or to a caller for that client
  -- whose clients are all active.
  pub client_route-granted :
      (id : List ℕ) (request : Request) (caller : CallerIdentity)
      → client_route lib settings id request now db ≡ granted caller
      → ByKey request ⊎ BySession id request
  unfolding client_route require_api_key
  client_route-granted id request caller h =
      let (c, known, may) =
        access-granted id (require_api_key lib settings request now db) caller h in
      header-caller id request request.authorization c refl known may
