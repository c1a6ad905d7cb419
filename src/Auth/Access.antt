-- ===== src/Auth/Access.antt =====
-- backend/app/core/auth.py and backend/app/core/access.py: who calls, and what a caller may access.
use qora.Base.{ℕ, Bool, Option, none, some, List, [], ◌∷◌, ◌&&◌, ◌||◌, not, if◌then◌else◌}
use qora.Base.Texts.{same_text, starts_with, in_texts}
use qora.Auth.{
  AuthLibrary, Settings, PrincipalRole, is_superadmin, AuthSession, AuthDb, is_set, lookup_session,
  superadmin,
}

pub data AuthMethod : Type 0 where
  api_key session : AuthMethod

-- where the audit hash of a caller comes from
pub data AuditHash : Type 0 where
  of_key : List ℕ → AuditHash
  of_session : ℕ → AuditHash

pub record CallerIdentity : Type 0 where
  pub api_key_hash : AuditHash
  pub role : PrincipalRole
  pub client_ids : List (List ℕ)
  pub auth_method : AuthMethod
  pub email : Option (List ℕ)

-- what `require_api_key` reads of a request; an absent or empty cookie is `none`
pub record Request : Type 0 where
  pub authorization : Option (List ℕ)
  pub session_cookie : Option ℕ
  pub is_unsafe : Bool
  pub qora_client_is_web : Bool

-- a caller, or the response 401 or 403
pub data Authentication : Type 0 where
  authenticated : CallerIdentity → Authentication
  authentication_required csrf_check_failed : Authentication

-- a caller, or the response 403 or 404 of the access layer, or that of the authentication
pub data Access : Type 0 where
  granted : CallerIdentity → Access
  tenant_forbidden superadmin_required resource_not_found : Access
  not_authenticated : Authentication → Access

abbrev pub bearer : List ℕ
bearer = b'B' ∷ b'e' ∷ b'a' ∷ b'r' ∷ b'e' ∷ b'r' ∷ b' ' ∷ []

-- `text[len(prefix):]`
abbrev pub without_prefix : List ℕ → List ℕ → List ℕ
without_prefix [] text = text
without_prefix (p ∷ prefix) [] = []
without_prefix (p ∷ prefix) (c ∷ text) = without_prefix prefix text

module _ (lib : AuthLibrary) (settings : Settings) where
  abbrev pub check_key : List ℕ → List ℕ → Authentication
  check_key presented expected =
      if is_set presented && same_text presented expected
      then authenticated (record {
        api_key_hash = of_key (lib.audit_hash presented);
        role = superadmin;
        client_ids = [];
        auth_method = api_key;
        email = none;
      })
      else authentication_required

  abbrev pub require_configured : List ℕ → Option (List ℕ) → Authentication
  require_configured header none = authentication_required
  require_configured header (some expected) =
      if starts_with header bearer
      then check_key (without_prefix bearer header) expected
      else authentication_required

  unfoldable pub require_bearer_api_key : List ℕ → Authentication
  require_bearer_api_key header = require_configured header settings.qora_api_key

  abbrev pub lower_all : List (List ℕ) → List (List ℕ)
  lower_all [] = []
  lower_all (x ∷ xs) = lib.lower x ∷ lower_all xs

  abbrev pub caller_of : AuthSession → CallerIdentity
  caller_of r = record {
    api_key_hash = of_session r.id;
    role = r.role;
    client_ids = lower_all r.client_ids;
    auth_method = session;
    email = some r.email;
  }

  abbrev pub require_row : Request → Option AuthSession → Authentication
  require_row request none = authentication_required
  require_row request (some r) =
      if request.is_unsafe && not request.qora_client_is_web
      then csrf_check_failed
      else authenticated (caller_of r)

  abbrev pub require_cookie : Request → Option ℕ → ℕ → AuthDb → Authentication
  require_cookie request none now db = authentication_required
  require_cookie request (some token) now db =
      require_row request (lookup_session lib settings token now db)

  abbrev pub require_header : Request → Option (List ℕ) → ℕ → AuthDb → Authentication
  require_header request (some header) now db = require_bearer_api_key header
  require_header request none now db = require_cookie request request.session_cookie now db

  -- without the bypass for tests
  unfoldable pub require_api_key : Request → ℕ → AuthDb → Authentication
  require_api_key request now db = require_header request request.authorization now db

  abbrev pub can_access_id : CallerIdentity → List ℕ → Bool
  can_access_id caller id = is_set id && in_texts (lib.lower id) caller.client_ids

  -- `CallerIdentity.can_access`
  unfoldable pub can_access : CallerIdentity → Option (List ℕ) → Bool
  can_access caller none = is_superadmin caller.role
  can_access caller (some id) = is_superadmin caller.role || can_access_id caller id

  unfoldable pub require_client_access : List ℕ → CallerIdentity → Access
  require_client_access id caller =
      if can_access caller (some id) then granted caller else tenant_forbidden

  unfoldable pub require_superadmin : CallerIdentity → Access
  require_superadmin caller =
      if is_superadmin caller.role then granted caller else superadmin_required

  unfoldable pub ensure_resource_access : CallerIdentity → Option (List ℕ) → Access
  ensure_resource_access caller id =
      if can_access caller id then granted caller else resource_not_found

  abbrev pub access_of : (CallerIdentity → Access) → Authentication → Access
  access_of check (authenticated caller) = check caller
  access_of check response = not_authenticated response

  -- a route of one client: the dependency on `require_client_access`
  unfoldable pub client_route : List ℕ → Request → ℕ → AuthDb → Access
  client_route id request now db =
      access_of (require_client_access id) (require_api_key request now db)
