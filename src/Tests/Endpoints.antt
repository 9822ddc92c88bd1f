-- ===== src/Tests/Endpoints.antt =====
-- The handlers, over the repository of Tests/Decisions and the grant of Tests/Grants.
use authz.Base.{
  ◌+◌, ◌*◌, ◌≤◌, String, true, false, none, some, [], ◌∷◌, ◌++◌, ok, ◌≡◌, ◌↔◌, ◌⊎◌, refl, contains,
  inter, keep, ◌==◌, string_eq, option_eq, if◌then◌else◌, any, first, lookup, insert, same_set,
  subset, all, All,
}
use authz.Policies.Value.{end}
use authz.Policies.Engine.{evaluate}
use authz.Rbac.Models.{permission_name}
use authz.Rbac.Requests.{ResolvedReferences, AuthorizeRequest, allow, deny, complete}
use authz.Rbac.Subjects.{
  inactive, membership_active, agent_active, resolve_agent, subject_permissions,
}
use authz.Rbac.Checker.{
  masked, narrowed, refusal, check, effective_permissions, authorize as engine_authorize,
}
use authz.Rbac.Checker.Permitted.{IsPermitted}
use authz.Tenancy.Models.{Tenant, Application, Agent}
use authz.Security.Delegations.{
  DelegationGrant, new_grant, claims_of, verify, decoded, stored, agrees, issue, sign,
}
use authz.Security.Delegations.Issue.{grant_header}
use authz.Security.Scopes.{tenant_scope_matches}
use authz.Security.Principal.{
  Principal, api_key, token as token_principal, principal_scopes, principal_tenant_id,
  principal_subject_label,
}
use authz.Service.Callers.{
  CallerSettings, CallRequest, CallerTables, dev_bypass_active, extract_credential, resolve_api_key,
  env_key_record, env_record,
}
use authz.Service.Callers.Require.{require_caller, enforce_tenant_scope_binding}
use authz.Service.Callers.Bindings.{IsUnpinned, HasTenantScope, enforce_tenant_scope_binding_iff}
use authz.Service.Callers.Sound.{ShowsKey, ShowsToken, ShowsSession, require_caller_sound}
use authz.Service.References.{
  SubjectSchema, ReferenceStore, resolve_decision_refs, require_bound_tenant, require_application,
}
use authz.Service.Delegations.{
  DelegationSettings, DelegationIn, out, requested_of, plan_for, plan_in, planned,
  create_delegation,
}
use authz.Service.Delegations.Applied.{IsOrNone, apply_delegation, matches}
use authz.Service.Delegations.Granted.{CanDo, create_delegation_sound}
use authz.Service.Authorize.{
  AuthorizeBody, AuditEntry, response_of, to_subject, delegation_deny, write,
}
use authz.Service.Authorize.Handlers.{authorize}
use authz.Service.Authorize.Asked.{rows_of, refs_of, outcome_of, IsRequestOf}
use authz.Service.Authorize.Decisions.{authorize_sound, authorize-delegated}
use authz.Service.Authorize.Audit.{authorize-audited}
use authz.Tests.Decisions.{engine}
use authz.Tests.Grants.{plain_jwt, keys, grants, authority, token, signer}

abbrev acme : Tenant
acme = record { id = "acme"; slug = "acme-inc"; name = "Acme"; status = "active" }

abbrev crm : Application
crm = record { id = "crm"; slug = "crm-app"; name = "CRM"; status = "active"; managed_by = none }

abbrev bot : Agent
bot = record {
  id = "bot";
  tenant_id = "acme";
  application_id = "crm";
  name = "Bot";
  role = "assistant";
  status = "active";
  created_by_user_id = none;
  display_name = none;
}

abbrev found_refs : ResolvedReferences
found_refs = record {
  tenant_id = "acme";
  application_id = "crm";
  tenant_status = some "active";
  application_status = some "active";
  user_id = some "ann";
  user_missing = false;
  agent_id = some "bot";
  agent_status = none;
  agent_missing = false;
}

abbrev store : ReferenceStore
store = record {
  find_tenant = λ ref. if ref == "acme-inc" then some acme else none;
  find_application = λ ref. if ref == "crm-app" then some crm else none;
  find_user_by_external_identity = λ provider issuer subject. none;
  find_agent_by_name = λ t a name. if name == "Bot" then some bot else none;
  get_agent = λ t a b. if b == "bot" then some bot else none;
  is_user_membership_active = λ t a u. u == "ann";
  resolve_references = λ t a u ref b name. found_refs;
}

abbrev settings : DelegationSettings
settings = record {
  delegation_default_ttl_seconds = 60;
  delegation_max_ttl_seconds = 3600;
  delegation_required = false;
  database_url = "postgresql://db";
}

-- A caller that is bound to the tenant by its token.
abbrev caller : Principal
caller = token_principal (record {
  issuer = "https://id";
  subject = "svc";
  client_id = none;
  scopes = "runtime" ∷ [];
  tenant_id = some "acme";
  claims = end;
})

abbrev subject : SubjectSchema
subject = record {
  type = "agent";
  user_id = some "ann";
  user_ref = none;
  agent_id = none;
  agent_name = some "Bot";
  service_account_id = none;
}

abbrev body_for : (action : String) → AuthorizeBody
body_for action = record {
  tenant_id = "acme-inc";
  application_id = "crm-app";
  subject = subject;
  resource = "doc";
  action = action;
  context = end;
}

abbrev entry_for : (decision reason action : String) → AuditEntry
entry_for decision reason action = record {
  decision = decision;
  reason = reason;
  resource = "doc";
  action = action;
  tenant_id = "acme";
  application_id = "crm";
  user_id = some "ann";
  agent_id = some "bot";
  delegation_id = some "g1";
  request_id = some "req";
}

reads :
    authorize store engine plain_jwt keys authority settings false
      (body_for "read")
      caller
      grants
      50
      (some token)
      (some "req")
      "fresh"
      []
    ≡ ok (response_of (allow "doc.read" ("doc.read" ∷ [])), [])
unfolding authorize resolve_decision_refs apply_delegation verify decoded first lookup stored agrees
    same_set subset all contains matches enforce_tenant_scope_binding principal_tenant_id
    principal_scopes tenant_scope_matches delegation_deny complete to_subject engine_authorize
    inactive subject_permissions resolve_agent membership_active agent_active check masked narrowed
    inter keep permission_name evaluate write response_of allow
reads = refl

writes :
    authorize store engine plain_jwt keys authority settings false
      (body_for "write")
      caller
      grants
      50
      (some token)
      (some "req")
      "fresh"
      []
    ≡ ok (
      response_of (deny "missing_permission" "doc.write"),
      entry_for "deny" "missing_permission" "write" ∷ [],
    )
unfolding authorize resolve_decision_refs apply_delegation verify decoded first lookup stored agrees
    same_set subset all contains matches enforce_tenant_scope_binding principal_tenant_id
    principal_scopes tenant_scope_matches delegation_deny complete to_subject engine_authorize
    inactive subject_permissions resolve_agent membership_active agent_active check masked narrowed
    inter keep permission_name evaluate write response_of refusal deny
writes = refl

authorize_sound_example :
    (enforce_tenant_scope_binding caller (rows_of store (body_for "read")).tenant_id ≡ ok tt)
    × ((request : AuthorizeRequest) × IsRequestOf store engine plain_jwt keys authority settings
          false
          (body_for "read")
          grants
          50
          (some token)
          request
        × IsPermitted engine request)
unfolding response_of allow
authorize_sound_example =
    authorize_sound store engine plain_jwt keys authority settings false (body_for "read") caller
      grants 50 (some token) (some "req") "fresh" [] []
      (response_of (allow "doc.read" ("doc.read" ∷ []))) reads refl

authorize-delegated_example :
    let rows = rows_of store (body_for "read") in
    (complete rows ≡ true)
    × ((g : DelegationGrant) × (verify plain_jwt keys authority grants 50 token ≡ ok g)
        × (g.tenant_id ≡ rows.tenant_id)
        × (g.application_id ≡ rows.application_id)
        × ((subject).type ≡ "agent")
        × IsOrNone rows.user_id g.user_id
        × IsOrNone rows.agent_id g.agent_id
        × (contains (permission_name "doc" "read") g.permissions ≡ true))
unfolding response_of allow
authorize-delegated_example =
    authorize-delegated store engine plain_jwt keys authority settings false (body_for "read")
      caller grants 50 token (some "req") "fresh" [] []
      (response_of (allow "doc.read" ("doc.read" ∷ []))) reads refl

authorize-audited_example :
    let delegation =
      outcome_of store engine plain_jwt keys authority settings false
        (body_for "write")
        grants
        50
        (some token) in
    (e : AuditEntry) × (entry_for "deny" "missing_permission" "write" ∷ [] ≡ [] ++ (e ∷ []))
    × (e.decision ≡ "deny")
    × (e.reason ≡ (response_of (deny "missing_permission" "doc.write")).reason)
    × (e.resource ≡ "doc")
    × (e.action ≡ "write")
    × (e.tenant_id ≡ (refs_of store (body_for "write")).tenant_id)
    × (e.user_id ≡ delegation.subject.user_id)
    × (e.agent_id ≡ delegation.subject.agent_id)
    × (e.delegation_id ≡ delegation.grant_id)
unfolding response_of deny
authorize-audited_example =
    authorize-audited store engine plain_jwt keys authority settings false (body_for "write") caller
      grants 50 (some token) (some "req") "fresh" []
      (entry_for "deny" "missing_permission" "write" ∷ [])
      (response_of (deny "missing_permission" "doc.write")) writes refl

enforce_tenant_scope_binding_iff_example :
    (enforce_tenant_scope_binding caller "other" ≡ ok tt)
    ↔ (IsUnpinned caller "other" × HasTenantScope caller "other")
enforce_tenant_scope_binding_iff_example = enforce_tenant_scope_binding_iff caller "other"

-- ---- Issuing

abbrev wish : DelegationIn
wish = record {
  tenant_id = "acme-inc";
  application_id = "crm-app";
  user_id = some "ann";
  user_ref = none;
  agent_id = some "bot";
  agent_name = none;
  permissions = none;
  ttl_seconds = none;
  purpose = none;
}

abbrev made : DelegationGrant
made =
    new_grant "g2" "acme" "crm" "ann" "bot" ("doc.read" ∷ []) 60000000 none (some "token:svc")
      1000000

creates :
    create_delegation store engine settings plain_jwt keys
      (ok keys)
      authority
      "g2"
      wish
      caller
      1000000
      grants
    ≡ ok (
      (out 1000000 made, (claims_of authority 1000000 made, grant_header signer)),
      insert "g2" made grants,
    )
unfolding create_delegation planned require_bound_tenant enforce_tenant_scope_binding
    principal_tenant_id principal_scopes tenant_scope_matches contains require_application plan_in
    plan_for requested_of effective_permissions inactive membership_active agent_active masked
    narrowed inter keep issue sign principal_subject_label
creates = refl

create_delegation_sound_example :
    let o = out 1000000 made in
    (enforce_tenant_scope_binding caller o.tenant_id ≡ ok tt)
    × ((store).is_user_membership_active o.tenant_id o.application_id o.user_id ≡ true)
    × ((agent : Agent) × ((store).get_agent o.tenant_id o.application_id o.agent_id ≡ some agent)
        × (agent.status ≡ "active"))
    × All (CanDo store engine settings plain_jwt keys o) o.permissions
    × (o.expires_at ≤ 1000000 + (settings).delegation_max_ttl_seconds * 1000000)
    × ((g : DelegationGrant) × (lookup o.id (insert "g2" made grants) ≡ some g)
        × (o ≡ out 1000000 g))
create_delegation_sound_example =
    create_delegation_sound store engine settings plain_jwt keys (ok keys) authority "g2" wish
      caller 1000000 grants (insert "g2" made grants) (out 1000000 made)
      (claims_of authority 1000000 made, grant_header signer) creates

-- ---- Callers

abbrev same_text : String → String
same_text text = text

abbrev caller_settings : CallerSettings
caller_settings = record {
  api_keys = "secret" ∷ [];
  dev_mode = true;
  oauth_resource_enabled = "auto";
  oauth_resource_issuers_json = "";
  oauth_resource_issuers_file = "";
  admin_oidc_enabled = "auto";
  admin_oidc_issuer = "";
  admin_oidc_client_id = "";
}

abbrev call : CallRequest
call = record {
  method = "POST";
  authorization = none;
  x_api_key = some "secret";
  session_cookie = none;
  x_csrf_token = "";
}

abbrev no_rows : CallerTables
no_rows = record {
  keys = [];
  sessions = record { session_ttl = 60; attempt_ttl = 60; attempts = []; sessions = [] };
}

no_bypass : dev_bypass_active same_text caller_settings [] none ≡ false
unfolding dev_bypass_active
no_bypass = refl

admitted :
    (require_caller same_text same_text same_text 5 call caller_settings none no_rows).0
    ≡ ok (api_key (env_record "secret"))
unfolding require_caller dev_bypass_active extract_credential resolve_api_key env_key_record any
admitted = refl

require_caller_sound_example :
    ShowsKey same_text same_text same_text 5 call caller_settings none no_rows
      (api_key (env_record "secret"))
    ⊎ ShowsToken same_text same_text same_text 5 call caller_settings none no_rows
        (api_key (env_record "secret"))
    ⊎ ShowsSession same_text same_text same_text 5 call caller_settings none no_rows
        (api_key (env_record "secret"))
require_caller_sound_example =
    require_caller_sound same_text same_text same_text 5 call caller_settings none no_rows
      (api_key (env_record "secret")) no_bypass admitted
