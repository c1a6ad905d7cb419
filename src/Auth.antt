-- ===== src/Auth.antt =====
-- backend/app/auth/sessions.py: login sessions. Texts are lists of code points; a token is a number.
pub mod ReturnTo
pub mod Access
pub mod Active
pub mod Isolation
pub mod Sessions
use qora.Base.{
  ℕ, suc, ◌+◌, ◌*◌, Bool, true, false, Option, none, some, List, [], ◌∷◌, ◌++◌, ◌&&◌, ◌||◌, not,
  leb, ◌==◌, if◌then◌else◌, where_rows, first_row, is_none, is_some, any_row, map,
}
use qora.Base.Texts.{same_text, starts_with, in_texts}
use qora.Store.{update_where}
use qora.Clock.{hour}

-- `str.lower`, `str.strip`, `split(",")` and the hash of a token
pub record AuthLibrary : Type 0 where
  pub lower : List ℕ → List ℕ
  pub strip : List ℕ → List ℕ
  pub split_commas : List ℕ → List (List ℕ)
  pub hash_token : ℕ → ℕ
  pub audit_hash : List ℕ → List ℕ

pub record Settings : Type 0 where
  pub qora_api_key : Option (List ℕ)
  pub qora_superadmin_emails : List ℕ
  pub qora_auth_session_ttl_hours : ℕ

pub data PrincipalRole : Type 0 where
  superadmin client : PrincipalRole

abbrev pub is_superadmin : PrincipalRole → Bool
is_superadmin superadmin = true
is_superadmin client = false

-- a row of `clients`
pub record AuthClient : Type 0 where
  pub id : List ℕ
  pub workos_organization_id : Option (List ℕ)
  pub is_active : Bool

-- a row of `auth_sessions`, without the display name, which nothing here reads
pub record AuthSession : Type 0 where
  pub id : ℕ
  pub token_hash : ℕ
  pub workos_user_id : List ℕ
  pub email : List ℕ
  pub role : PrincipalRole
  pub client_ids : List (List ℕ)
  pub workos_session_id : Option (List ℕ)
  pub created_at : ℕ
  pub expires_at : ℕ
  pub revoked_at : Option ℕ

pub record AuthDb : Type 0 where
  pub sessions : List AuthSession
  pub clients : List AuthClient

pub record WorkosUser : Type 0 where
  pub id : List ℕ
  pub email : List ℕ
  pub email_verified : Bool

pub record MappedIdentity : Type 0 where
  pub role : PrincipalRole
  pub client_ids : List (List ℕ)

-- `x in ids` and the equality of two sets
abbrev pub subset : List (List ℕ) → List (List ℕ) → Bool
subset [] ids = true
subset (x ∷ xs) ids = in_texts x ids && subset xs ids

abbrev pub same_set : List (List ℕ) → List (List ℕ) → Bool
same_set xs ys = subset xs ys && subset ys xs

abbrev pub holds_text : Option (List ℕ) → List ℕ → Bool
holds_text none text = false
holds_text (some t) text = same_text t text

-- a string that is not empty
abbrev pub is_set : List ℕ → Bool
is_set [] = false
is_set (c ∷ text) = true

abbrev pub client_ids_of : List AuthClient → List (List ℕ)
client_ids_of [] = []
client_ids_of (c ∷ clients) = c.id ∷ client_ids_of clients

-- the ids among these that active clients have
unfoldable pub active_ids : List (List ℕ) → AuthDb → List (List ℕ)
active_ids ids db = client_ids_of (where_rows (λ c. in_texts c.id ids && c.is_active) db.clients)

abbrev pub has_hash : ℕ → AuthSession → Bool
has_hash h r = r.token_hash == h

module _ (lib : AuthLibrary) (settings : Settings) where
  abbrev trimmed : List (List ℕ) → List (List ℕ)
  trimmed [] = []
  trimmed (e ∷ emails) =
      let rest = trimmed emails in
      if is_set (lib.strip e) then lib.lower (lib.strip e) ∷ rest else rest

  unfoldable pub superadmin_emails : List (List ℕ)
  superadmin_emails = trimmed (lib.split_commas settings.qora_superadmin_emails)

  abbrev pub client_identity : Option AuthClient → Option MappedIdentity
  client_identity none = none
  client_identity (some c) =
      if c.is_active then some (record { role = client; client_ids = c.id ∷ [] }) else none

  abbrev pub organization_identity : Option (List ℕ) → AuthDb → Option MappedIdentity
  organization_identity none db = none
  organization_identity (some organization) db =
      if is_set organization
      then client_identity (
          first_row (where_rows (λ c. holds_text c.workos_organization_id organization) db.clients))
      else none

  -- `none` is the NoAccessError.
  unfoldable pub map_identity : WorkosUser → Option (List ℕ) → AuthDb → Option MappedIdentity
  map_identity user organization db =
      if in_texts (lib.lower user.email) superadmin_emails && user.email_verified
      then some (record { role = superadmin; client_ids = [] })
      else organization_identity organization db

  -- `token` and `key` are what `generate_session_token` and `_uuid4` give.
  unfoldable pub create_session :
      ℕ → ℕ → ℕ → WorkosUser → MappedIdentity → Option (List ℕ) → AuthDb → AuthDb
  create_session token key now user identity workos_session db =
      let row : AuthSession = record {
        id = key;
        token_hash = lib.hash_token token;
        workos_user_id = user.id;
        email = user.email;
        role = identity.role;
        client_ids = identity.client_ids;
        workos_session_id = workos_session;
        created_at = now;
        expires_at = now + settings.qora_auth_session_ttl_hours * hour;
        revoked_at = none;
      } in
      record db { sessions = db.sessions ++ row ∷ [] }

  -- the role is checked again against the current state
  abbrev pub role_stands : PrincipalRole → AuthSession → AuthDb → Bool
  role_stands superadmin r db = in_texts (lib.lower r.email) superadmin_emails
  role_stands client r db = same_set (active_ids r.client_ids db) r.client_ids

  abbrev pub is_valid_row : ℕ → AuthSession → AuthDb → Bool
  is_valid_row now r db =
      is_none r.revoked_at && (not (leb r.expires_at now) && role_stands r.role r db)

  abbrev pub if_valid : ℕ → AuthDb → Option AuthSession → Option AuthSession
  if_valid now db none = none
  if_valid now db (some r) = if is_valid_row now r db then some r else none

  unfoldable pub lookup_session : ℕ → ℕ → AuthDb → Option AuthSession
  lookup_session token now db =
      if_valid now db (first_row (where_rows (has_hash (lib.hash_token token)) db.sessions))

  abbrev pub revoke : ℕ → AuthSession → AuthSession
  revoke now r = if is_none r.revoked_at then record r { revoked_at = some now } else r

  -- the row is returned as well; it is the only one of its hash
  unfoldable pub revoke_session : ℕ → ℕ → AuthDb → AuthDb
  revoke_session token now db = record db {
    sessions = update_where (has_hash (lib.hash_token token)) (revoke now) db.sessions;
  }
