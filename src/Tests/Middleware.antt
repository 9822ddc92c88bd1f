-- ===== src/Tests/Middleware.antt =====
-- The middleware for repeated requests, and the guard of managed applications, on examples.
use Prim.Native.String.{◌++◌}
use authz.Base.{
  ℕ, suc, ◌+◌, ◌≤◌, String, true, false, none, some, [], ◌∷◌, ok, ◌≡◌, refl, lookup, insert,
  string_eq, arith, take, is_blank,
}
use authz.Policies.Value.{end}
use authz.Tenancy.Models.{Application}
use authz.Security.Principal.{token, TokenPrincipal}
use authz.Service.Management.{ManagementStore, management_guard, check, caller_label}
use authz.Service.Management.Managers.{check-client}
use authz.Service.Idempotency.{
  Cache, size, evict, put, get, PostRequest, Response, credential_partition, cache_key, dispatch,
}
use authz.Service.Idempotency.Bounds.{put-le}
use authz.Service.Idempotency.Replay.{entry_of, dispatch-dispatch}

abbrev same : String → String
same text = text

-- ---- Repeated requests

-- A handler that counts its calls.
abbrev handler : PostRequest → ℕ → Response × ℕ
handler request n = (
  record { status_code = 201; body = "made"; content_type = some "text/plain"; replayed = false },
  suc n,
)

abbrev post : PostRequest
post = record {
  method = "POST";
  path = "/v1/authorize";
  idempotency_key = some "k";
  x_api_key = "a";
  authorization = "";
  session_cookie = "";
}

abbrev made : Response
made = record {
  status_code = 201;
  body = "made";
  content_type = some "text/plain";
  replayed = false;
}

abbrev key : String
key = "x=a|a=|s=:/v1/authorize:k"

abbrev cache : Cache
cache =
    (key, record { status = 201; body = "made"; content_type = "text/plain"; expires_at = 310 })
    ∷ []

first_post : dispatch same 8 300 handler 10 post [] 0 ≡ (made, cache, 1)
unfolding dispatch cache_key credential_partition take get lookup put evict insert size
first_post = refl

not_cached : (get 10 (cache_key same post "k") []).0 ≡ none
unfolding get lookup
not_cached = refl

has_room :
    size (
      insert
        (cache_key same post "k")
        (entry_of same 8 300 handler 10 made)
        (get 10 (cache_key same post "k") []).1)
    ≤ 8
unfolding size get lookup insert
has_room = omega arith

dispatch-dispatch_example : dispatch same 8 300 handler 20 post cache 1 ≡ (
  record { status_code = 201; body = "made"; content_type = some "text/plain"; replayed = true },
  cache,
  1,
)
dispatch-dispatch_example =
    dispatch-dispatch same 8 300 handler 10 20 post "k" [] cache 0 1 made refl refl not_cached
      first_post refl has_room (omega arith) 1

-- A second entry does not fit.
put-le_example :
    (size (put 1 20 "other" 200 "b" "text/plain" 300 cache) ≤ 1)
    × (evict 5 1 (
          insert "other"
            (record {
              status = 200;
              body = "b";
              content_type = "text/plain";
              expires_at = 20 + 300;
            })
            cache)
        ≡ put 1 20 "other" 200 "b" "text/plain" 300 cache)
unfolding size insert
put-le_example = put-le 1 20 "other" 200 "b" "text/plain" 300 5 cache (omega arith)

-- Two requests with different credentials and one partition: the markers are no boundaries.
shifted :
    credential_partition same (record post { x_api_key = "k|a=b" })
    ≡ credential_partition same (record post { x_api_key = "k"; authorization = "b|a=" })
unfolding credential_partition take
shifted = refl

-- ---- Managed applications

abbrev manager : TokenPrincipal
manager = record {
  issuer = "https://authz";
  subject = "s";
  client_id = some "deployer";
  scopes = "admin" ∷ [];
  tenant_id = none;
  claims = end;
}

abbrev app : Application
app = record {
  id = "crm";
  slug = "crm-app";
  name = "CRM";
  status = "active";
  managed_by = some ("client:" ++ "deployer");
}

abbrev no_rows : ManagementStore
no_rows = record {
  find_application = λ ref. none;
  get_application = λ id. none;
  get_role = λ id. none;
  get_agent_by_id = λ id. none;
  get_membership_by_id = λ id. none;
}

passes : check (management_guard (token manager) no_rows "https://authz") app ≡ ok app
unfolding check management_guard caller_label
passes = refl

check-client_example :
    (t : TokenPrincipal) × (token manager ≡ token t)
    × (t.client_id ≡ some "deployer")
    × (t.issuer ≡ "https://authz")
    × (is_blank "https://authz" ≡ false)
check-client_example =
    check-client (token manager) no_rows "https://authz" "deployer" app app refl passes
