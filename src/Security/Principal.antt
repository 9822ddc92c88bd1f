-- ===== src/Security/Principal.antt =====
-- authzkit/security/principal.py: who calls the service.
use Prim.Native.String.{◌++◌}
use authz.Base.{String, Bool, Option, none, some, List, ◌==◌, string_eq, if◌then◌else◌}
use authz.Policies.Value.{Fields}
use authz.Security.Scopes.{scope_allows, tenant_scope_matches}
use authz.Security.ApiKeys.{ApiKeyRecord}

pub record TokenPrincipal : Type 0 where
  pub issuer : String
  pub subject : String
  pub client_id : Option String
  pub scopes : List String
  pub tenant_id : Option String
  pub claims : Fields

pub record SessionPrincipal : Type 0 where
  pub subject : String
  pub email : Option String
  pub scopes : List String
  pub session_id : String
  pub csrf_token : String
  pub issuer : Option String

pub data Principal : Type 0 where
  api_key : ApiKeyRecord → Principal
  token : TokenPrincipal → Principal
  session : SessionPrincipal → Principal

unfoldable pub principal_scopes : Principal → List String
principal_scopes (api_key k) = k.scopes
principal_scopes (token t) = t.scopes
principal_scopes (session s) = s.scopes

-- `getattr(principal, "tenant_id", None)`
unfoldable pub principal_tenant_id : Principal → Option String
principal_tenant_id (api_key k) = k.tenant_id
principal_tenant_id (token t) = t.tenant_id
principal_tenant_id (session s) = none

-- `client_id or subject`
abbrev named : Option String → String → String
named none subject = subject
named (some client_id) subject = if client_id == "" then subject else client_id

unfoldable pub principal_subject_label : Principal → String
principal_subject_label (api_key k) = "apikey:" ++ k.id
principal_subject_label (token t) = "token:" ++ named t.client_id t.subject
principal_subject_label (session s) = "session:" ++ s.subject

unfoldable pub principal_allows :
    Principal → (surface : String) → (tenant_id : Option String) → Bool
unfolding principal_scopes
principal_allows principal surface tenant_id =
    scope_allows (principal_scopes principal) surface tenant_id

unfoldable pub principal_tenant_matches : Principal → (tenant_id : String) → Bool
principal_tenant_matches principal tenant_id =
    tenant_scope_matches (principal_scopes principal) tenant_id
