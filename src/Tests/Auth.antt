-- ===== src/Tests/Auth.antt =====
-- A client that logs in through its organization, and a request with the session's cookie.
use qora.Base.{ℕ, ◌≡◌, refl, ◌+◌, ◌⊎◌, true, none, some, List, [], ◌∷◌, arith}
use qora.Clock.{hour}
use qora.Tests.Fixtures.{morning}
use qora.Auth.{
  AuthLibrary, Settings, client, AuthSession, AuthDb, WorkosUser, MappedIdentity, active_ids,
  superadmin_emails, map_identity, create_session, lookup_session,
}
use qora.Auth.Access.{
  of_session, session, CallerIdentity, Request, granted, require_api_key, can_access,
  require_client_access, client_route,
}
use qora.Auth.Isolation.{ByKey, BySession, client_route-granted}
use qora.Auth.Sessions.{create-lookup}
use qora.Auth.ReturnTo.{as_browser, IsHostPath, sanitize_return_to, sanitize_return_to-IsHostPath}

abbrev lib : AuthLibrary
lib = record {
  lower = λ t. t;
  strip = λ t. t;
  split_commas = λ t. t ∷ [];
  hash_token = λ t. t + 1000;
  audit_hash = λ t. t;
}

abbrev settings : Settings
settings = record {
  qora_api_key = some (b'k' ∷ []);
  qora_superadmin_emails = b'o' ∷ b'p' ∷ [];
  qora_auth_session_ttl_hours = 8;
}

abbrev tenant : List ℕ
tenant = b't' ∷ b'1' ∷ []

abbrev organization : List ℕ
organization = b'o' ∷ b'1' ∷ []

abbrev user : WorkosUser
user = record { id = b'u' ∷ []; email = b'm' ∷ []; email_verified = true }

abbrev db : AuthDb
db = record {
  sessions = [];
  clients =
      record { id = tenant; workos_organization_id = some organization; is_active = true } ∷ [];
}

abbrev identity : MappedIdentity
identity = record { role = client; client_ids = tenant ∷ [] }

mapped : map_identity lib settings user (some organization) db ≡ some identity
unfolding map_identity superadmin_emails
mapped = refl

abbrev logged_in : AuthDb
logged_in = create_session lib settings 42 9 morning user identity none db

create-lookup_example :
    (r : AuthSession) × (lookup_session lib settings 42 (morning + hour) logged_in ≡ some r)
    × (r.role ≡ client)
    × (r.client_ids ≡ tenant ∷ [])
    × (r.email ≡ b'm' ∷ [])
create-lookup_example =
    create-lookup lib settings user db 42 9 morning (morning + hour) (some organization) none
      identity mapped refl (omega arith)

abbrev request : Request
request = record {
  authorization = none;
  session_cookie = some 42;
  is_unsafe = true;
  qora_client_is_web = true;
}

abbrev caller : CallerIdentity
caller = record {
  api_key_hash = of_session 9;
  role = client;
  client_ids = tenant ∷ [];
  auth_method = session;
  email = some (b'm' ∷ []);
}

let_through : client_route lib settings tenant request (morning + hour) logged_in ≡ granted caller
unfolding client_route require_api_key lookup_session create_session active_ids
    require_client_access can_access
let_through = refl

client_route-granted_example :
    ByKey lib settings (morning + hour) logged_in request
    ⊎ BySession lib settings (morning + hour) logged_in tenant request
client_route-granted_example =
    client_route-granted lib settings (morning + hour) logged_in tenant request caller let_through

sanitize_return_to-IsHostPath_example :
    IsHostPath (as_browser (sanitize_return_to (λ t. t) (some (b'/' ∷ 9 ∷ b'/' ∷ b'e' ∷ []))))
sanitize_return_to-IsHostPath_example =
    sanitize_return_to-IsHostPath (λ t. t) (some (b'/' ∷ 9 ∷ b'/' ∷ b'e' ∷ []))
