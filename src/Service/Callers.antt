-- ===== src/Service/Callers.antt =====
-- authz_service/dependencies.py: who calls, and for which tenant. The resolver of OAuth tokens
-- (authzkit/security/oauth_resource.py) is a record of what is asked of it; `str.lower` is a
-- parameter. A call of the services returns their tables.
pub mod Require
pub mod Bindings
pub mod Sound
use Prim.Native.Char.{Char, code}
use Prim.Native.String.{◌++◌}
use authz.Base.{
  ℕ, String, Bool, true, false, not, ◌&&◌, ◌||◌, Option, none, some, List, [], ◌∷◌, Result, ok, err,
  Dict, any, contains, is_nonempty, strip, strip_left, split, starts_with, is_space, is_blank, leb,
  take, ◌==◌, nat_eq, string_eq, option_eq, if◌then◌else◌,
}
use authz.Policies.Value.{str, Fields, end, field, type_error}
use authz.Security.Scopes.{scope_allows, tenant_scope_matches}
use authz.Security.ApiKeys.{ApiKeyRecord, ApiKeys, find_active, list_keys}
use authz.Security.Principal.{
  Principal, api_key, token, session, TokenPrincipal, SessionPrincipal, principal_scopes,
  principal_tenant_id, principal_allows,
}
use authz.Security.Sessions.{AdminSessionService, AdminSession, lookup_session, to_principal}
use authz.Service.Http.{HttpException, Raised, http, python, http_error, one_field}

-- What the callers' code reads of authz_service/config.py.
pub record CallerSettings : Type 0 where
  pub api_keys : List String
  pub dev_mode : Bool
  pub oauth_resource_enabled : String
  pub oauth_resource_issuers_json : String
  pub oauth_resource_issuers_file : String
  pub admin_oidc_enabled : String
  pub admin_oidc_issuer : String
  pub admin_oidc_client_id : String

-- `JwtResolver`: its issuers, and `resolve` with a `JWTValidationError`'s text.
pub record JwtResolver : Type 0 where
  pub issuers : List String
  pub resolve : String → Result String TokenPrincipal

-- The part of a request that is read.
pub record CallRequest : Type 0 where
  pub method : String
  pub authorization : Option String
  pub x_api_key : Option String
  pub session_cookie : Option String
  pub x_csrf_token : String

-- `request.state`
pub record RequestState : Type 0 where
  pub api_key : Option ApiKeyRecord
  pub principal : Option Principal

abbrev pub untouched : RequestState
untouched = record { api_key = none; principal = none }

abbrev pub noted_key : ApiKeyRecord → RequestState
noted_key k = record { api_key = some k; principal = some (api_key k) }

abbrev pub noted : Principal → RequestState
noted p = record { api_key = none; principal = some p }

-- The tables that a call may write.
pub record CallerTables : Type 0 where
  pub keys : ApiKeys
  pub sessions : AdminSessionService

-- ---- Credentials

-- `[A-Za-z0-9_\\-=]`
abbrev is_segment_char : Char → Bool
is_segment_char c =
    let n = code c in
    (leb b'A' n && leb n b'Z')
    || (leb b'a' n && leb n b'z')
    || (leb b'0' n && leb n b'9')
    || n == b'_'
    || n == b'-'
    || n == b'='

unfoldable pub all_segment : String → Bool
all_segment String.[] = true
all_segment (String.◌∷◌ c s) = let rest = all_segment s in is_segment_char c && rest

abbrev is_segment : String → Bool
unfolding all_segment
is_segment s = not (is_blank s) && all_segment s

abbrev three_segments : List String → Bool
unfolding is_segment
three_segments (a ∷ b ∷ c ∷ []) = is_segment a && is_segment b && is_segment c
three_segments parts = false

-- `_looks_like_jwt`, for a text without white space at its end
unfoldable pub looks_like_jwt : String → Bool
unfolding three_segments
looks_like_jwt candidate = three_segments (split b'.' candidate)

-- What is left from the first white space on.
unfoldable pub drop_word : String → String
drop_word String.[] = ""
drop_word (String.◌∷◌ c s) = let rest = drop_word s in if is_space c then String.◌∷◌ c s else rest

pub data Credential : Type 0 where
  opaque jwt : String → Credential

-- `parts[1].strip()` of `authorization.split(None, 1)`
abbrev bearer_value : String → String
bearer_value authorization = strip (drop_word (strip_left authorization))

abbrev given : Option String → Bool
given none = false
given (some text) = not (is_blank text)

abbrev bearer : (lower : String → String) → Option String → Option Credential
bearer lower none = none
bearer lower (some authorization) =
    let value = bearer_value authorization in
    if starts_with "bearer " (lower authorization)
    then (if is_blank value
        then none
        else if looks_like_jwt value
        then some (jwt value)
        else some (opaque value))
    else none

abbrev text_or : Option String → String
text_or none = ""
text_or (some text) = text

-- `_extract_credential`
unfoldable pub extract_credential :
    (lower : String → String) → (authorization x_api_key : Option String) → Option Credential
extract_credential lower authorization x_api_key =
    if given x_api_key then some (opaque (text_or x_api_key)) else bearer lower authorization

-- ---- API keys

abbrev pub env_record : String → ApiKeyRecord
env_record candidate = record {
  id = "env";
  name = "env-bootstrap-key";
  key_prefix = take 8 candidate;
  scopes = "admin" ∷ [];
  tenant_id = none;
  status = "active";
  expires_at = none;
  last_used_at = none;
  rotates = none;
}

-- `_env_key_record`
unfoldable pub env_key_record : String → List String → Option ApiKeyRecord
env_key_record candidate env_keys =
    if any (λ known. candidate == known) env_keys then some (env_record candidate) else none

-- `_resolve_api_key`, for a candidate that is there
unfoldable pub resolve_api_key :
    (hash : String → String)
    → (now : ℕ) → String
    → CallerSettings
    → ApiKeys
    → Option ApiKeyRecord × ApiKeys
resolve_api_key hash now candidate settings keys =
    elim (env_key_record candidate settings.api_keys) [
      | some r ↦ (some r, keys)
      | none ↦ find_active hash now candidate keys
    ]

-- `_has_any_db_key`
unfoldable pub has_any_db_key : ApiKeys → Bool
has_any_db_key keys = any (λ (k : ApiKeyRecord). k.status == "active") (list_keys keys)

-- `oauth_resource_is_enabled` and `admin_oidc_is_enabled` (authz_service/config.py)
unfoldable pub oauth_resource_is_enabled : (lower : String → String) → CallerSettings → Bool
oauth_resource_is_enabled lower settings =
    let raw = lower settings.oauth_resource_enabled in
    if raw == "true"
    then true
    else if raw == "false"
    then false
    else not (is_blank (strip settings.oauth_resource_issuers_json))
      || not (is_blank settings.oauth_resource_issuers_file)

unfoldable pub admin_oidc_is_enabled : (lower : String → String) → CallerSettings → Bool
admin_oidc_is_enabled lower settings =
    let raw = lower settings.admin_oidc_enabled in
    if raw == "true"
    then true
    else if raw == "false"
    then false
    else not (is_blank settings.admin_oidc_issuer) && not (is_blank settings.admin_oidc_client_id)

abbrev has_issuers : Option JwtResolver → Bool
has_issuers none = false
has_issuers (some resolver) = is_nonempty resolver.issuers

-- `_dev_bypass_active`
unfoldable pub dev_bypass_active :
    (lower : String → String) → CallerSettings → ApiKeys → Option JwtResolver → Bool
dev_bypass_active lower settings keys resolver =
    if not settings.dev_mode
    then false
    else if is_nonempty settings.api_keys
    then false
    else if has_any_db_key keys
    then false
    else if has_issuers resolver
    then false
    else if oauth_resource_is_enabled lower settings
    then false
    else not (admin_oidc_is_enabled lower settings)

-- `_dev_bypass_principal`
abbrev pub dev_bypass_principal : ApiKeyRecord
dev_bypass_principal = record {
  id = "dev";
  name = "dev-mode";
  key_prefix = "dev";
  scopes = "admin" ∷ [];
  tenant_id = none;
  status = "active";
  expires_at = none;
  last_used_at = none;
  rotates = none;
}

-- ---- Sessions

-- `_resolve_session`
unfoldable pub resolve_session :
    (now : ℕ) → CallRequest → AdminSessionService → Option SessionPrincipal × AdminSessionService
resolve_session now request sessions =
    if given request.session_cookie
    then (let (found, after) = lookup_session now (text_or request.session_cookie) sessions in
        elim found [ none ↦ (none, after) | some s ↦ (some (to_principal s), after) ])
    else (none, sessions)
