-- ===== src/Service/Callers/Require.antt =====
-- authz_service/dependencies.py: `require_caller`, and the tests of the caller's scopes and tenant.
use Prim.Native.Char.{code}
use Prim.Native.String.{◌++◌}
use authz.Base.{
  ℕ, String, Bool, true, false, not, ◌&&◌, Option, none, some, List, [], ◌∷◌, Result, ok, err,
  guard, ◌>>=◌, contains, leb, ◌==◌, string_eq, option_eq, if◌then◌else◌,
}
use authz.Policies.Value.{str, end, field, type_error}
use authz.Security.Scopes.{scope_allows, tenant_scope_matches}
use authz.Security.ApiKeys.{ApiKeyRecord, ApiKeys}
use authz.Security.Principal.{
  Principal, api_key, token, session, TokenPrincipal, SessionPrincipal, principal_scopes,
  principal_tenant_id, principal_allows,
}
use authz.Security.Sessions.{AdminSessionService}
use authz.Service.Http.{Raised, http, python, http_error, one_field}
use authz.Service.Callers.{
  CallerSettings, JwtResolver, CallRequest, RequestState, untouched, noted_key, noted, CallerTables,
  opaque, jwt, extract_credential, resolve_api_key, dev_bypass_active, dev_bypass_principal,
  resolve_session,
}

abbrev pub mutating_methods : List String
mutating_methods = "POST" ∷ "PUT" ∷ "PATCH" ∷ "DELETE" ∷ []

unfoldable pub is_ascii : String → Bool
is_ascii String.[] = true
is_ascii (String.◌∷◌ c s) = let rest = is_ascii s in leb (code c) 127 && rest

-- `_enforce_csrf`: `hmac.compare_digest` takes texts in ASCII only.
unfoldable pub enforce_csrf : CallRequest → SessionPrincipal → Result Raised Unit
enforce_csrf request principal =
    if contains request.method mutating_methods
    then (if is_ascii request.x_csrf_token && is_ascii principal.csrf_token
        then guard (request.x_csrf_token == principal.csrf_token)
            (http_error 403 (one_field "error" "csrf_token_required"))
        else err (python type_error))
    else ok tt

-- `_bearer_401`; `replace` is `description.replace('"', "'")`.
unfoldable pub bearer_401 : (replace : String → String) → String → Raised
bearer_401 replace description = http (record {
  status_code = 401;
  detail = field "error" (str "invalid_token") (field "error_description" (str description) end);
  headers =
      (
        "WWW-Authenticate",
        "Bearer error=\"invalid_token\", error_description=\"" ++ (replace description ++ "\""),
      )
      ∷ [];
})

abbrev pub invalid_api_key : Raised
invalid_api_key = http_error 401 (one_field "error" "missing_or_invalid_api_key")

abbrev no_credential : Raised
no_credential = http (record {
  status_code = 401;
  detail = one_field "error" "missing_or_invalid_api_key";
  headers = ("WWW-Authenticate", "Bearer realm=\"authz\"") ∷ [];
})

-- What `require_caller` leaves: its answer, `request.state`, and the tables.
abbrev pub Called : Type 0
Called = Result Raised Principal × RequestState × CallerTables

abbrev with_key : Option ApiKeyRecord × CallerTables → Called
with_key (none, tables) = (err invalid_api_key, untouched, tables)
with_key (some k, tables) = (ok (api_key k), noted_key k, tables)

abbrev with_token :
    (replace : String → String) → CallerTables → Result String TokenPrincipal → Called
with_token replace tables (ok t) = (ok (token t), noted (token t), tables)
with_token replace tables (err e) = (err (bearer_401 replace e), untouched, tables)

abbrev with_resolver :
    (replace : String → String) → CallerTables → String → Option JwtResolver → Called
with_resolver replace tables value none = (
  err (bearer_401 replace "Bearer JWT auth is not configured on this service"),
  untouched,
  tables,
)
with_resolver replace tables value (some resolver) =
    with_token replace tables (resolver.resolve value)

abbrev with_session : CallRequest → Option SessionPrincipal × CallerTables → Called
with_session request (none, tables) = (err no_credential, untouched, tables)
with_session request (some s, tables) =
    ((enforce_csrf request s >>= λ checked. ok (session s)), noted (session s), tables)

abbrev keys_written :
    CallerTables → Option ApiKeyRecord × ApiKeys → Option ApiKeyRecord × CallerTables
keys_written tables (found, keys) = (found, record tables { keys = keys })

abbrev sessions_written :
    CallerTables
    → Option SessionPrincipal × AdminSessionService
    → Option SessionPrincipal × CallerTables
sessions_written tables (found, sessions) = (found, record tables { sessions = sessions })

module _ (hash lower replace : String → String) where
  -- `require_caller`
  unfoldable pub require_caller :
      (now : ℕ) → CallRequest → CallerSettings → Option JwtResolver → CallerTables → Called
  require_caller now request settings resolver tables =
      if dev_bypass_active lower settings tables.keys resolver
      then (ok (api_key dev_bypass_principal), noted_key dev_bypass_principal, tables)
      else (elim (extract_credential lower request.authorization request.x_api_key) [
        | some (opaque value) ↦
            with_key (keys_written tables (resolve_api_key hash now value settings tables.keys))
        | some (jwt value) ↦ with_resolver replace tables value resolver
        | none ↦
            with_session request
              (sessions_written tables (resolve_session now request tables.sessions))
      ])

  abbrev only_key : Called → Result Raised ApiKeyRecord × RequestState × CallerTables
  only_key (ok (api_key k), rest, tables) = (ok k, rest, tables)
  only_key (ok (token t), rest, tables) = (err invalid_api_key, rest, tables)
  only_key (ok (session s), rest, tables) = (err invalid_api_key, rest, tables)
  only_key (err e, rest, tables) = (err e, rest, tables)

  -- `require_api_key`
  unfoldable pub require_api_key :
      (now : ℕ)
      → CallRequest
      → CallerSettings
      → Option JwtResolver
      → CallerTables
      → Result Raised ApiKeyRecord × RequestState × CallerTables
  require_api_key now request settings resolver tables =
      only_key (require_caller now request settings resolver tables)

-- `_insufficient_scope_header`
abbrev insufficient_scope_header : Principal → String → List (String × String)
insufficient_scope_header (api_key k) scope = []
insufficient_scope_header (session s) scope = []
insufficient_scope_header (token t) scope =
    ("WWW-Authenticate", "Bearer error=\"insufficient_scope\", scope=\"" ++ (scope ++ "\"")) ∷ []

abbrev scope_required : Principal → String → Raised
scope_required principal scope = http (record {
  status_code = 403;
  detail = field "error" (str "scope_required") (field "scope" (str scope) end);
  headers = insufficient_scope_header principal scope;
})

unfoldable pub require_admin : Principal → Result Raised Principal
require_admin principal =
    if principal_allows principal "admin" none
    then ok principal
    else err (scope_required principal "admin")

unfoldable pub require_runtime : Principal → Result Raised Principal
require_runtime principal =
    if principal_allows principal "runtime" none
    then ok principal
    else err (scope_required principal "runtime")

-- `require_admin_scope` and `require_runtime_scope`
unfoldable pub require_scope_of_key : (scope : String) → ApiKeyRecord → Result Raised ApiKeyRecord
require_scope_of_key scope k =
    if scope_allows k.scopes scope none
    then ok k
    else err (http_error 403 (field "error" (str "scope_required") (field "scope" (str scope) end)))

abbrev pub tenant_scope_mismatch : String → Raised
tenant_scope_mismatch tenant_id =
    http_error 403
      (field "error" (str "tenant_scope_mismatch") (field "tenant_id" (str tenant_id) end))

abbrev pinned_elsewhere : Option String → String → Bool
pinned_elsewhere none tenant_id = false
pinned_elsewhere (some pin) tenant_id = not (pin == tenant_id)

unfoldable pub enforce_tenant_scope_binding : Principal → (tenant_id : String) → Result Raised Unit
enforce_tenant_scope_binding principal tenant_id =
    if pinned_elsewhere (principal_tenant_id principal) tenant_id
    then err (tenant_scope_mismatch tenant_id)
    else guard (tenant_scope_matches (principal_scopes principal) tenant_id)
        (tenant_scope_mismatch tenant_id)

unfoldable pub require_tenant_scope : (tenant_id : String) → Principal → Result Raised Principal
require_tenant_scope tenant_id principal =
    if principal_allows principal "admin" (some tenant_id)
    then ok principal
    else err (
        http_error 403
          (field "error" (str "scope_required") (field "tenant_id" (str tenant_id) end)))
