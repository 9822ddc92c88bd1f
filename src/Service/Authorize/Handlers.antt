-- ===== src/Service/Authorize/Handlers.antt =====
-- authz_service/api/authorize.py: the handlers `authorize`, `bulk_authorize` and
-- `effective_permissions`.
use authz.Base.{
  ℕ, String, Bool, Option, none, some, List, [], ◌∷◌, map, Result, ok, err, ◌>>=◌, ◌>>◌, is_blank,
  sorted_set, string_eq, if◌then◌else◌,
}
use authz.Policies.Value.{PyError}
use authz.Rbac.Models.{permission_name}
use authz.Rbac.Requests.{
  ResolvedReferences, AuthorizeRequest, BulkAuthorizeRequest, AuthorizeDecision, deny, complete,
}
use authz.Rbac.Checker.{
  AuthorizationEngine, authorize as engine_authorize, bulk_authorize as engine_bulk,
  effective_permissions as engine_effective,
}
use authz.Security.Tokens.{Jwt, SigningKeys}
use authz.Security.Delegations.{Grants, DelegationService}
use authz.Security.Principal.{Principal}
use authz.Service.Http.{Raised, python, http_error, one_field}
use authz.Service.Callers.Require.{enforce_tenant_scope_binding}
use authz.Service.References.{ReferenceStore, resolve_decision_refs}
use authz.Service.Delegations.{DelegationSettings}
use authz.Service.Delegations.Applied.{DelegationOutcome, apply_delegation}
use authz.Service.Authorize.{
  AuthorizeBody, BulkBody, EffectiveBody, AuthorizeResponse, BulkCheckResult, EffectiveResponse,
  AuditEntry, write, delegation_deny, to_subject, response_of,
}

-- `request_id or str(uuid.uuid4())`
abbrev pub request_id_or : Option String → String → String
request_id_or none fresh = fresh
request_id_or (some id) fresh = if is_blank id then fresh else id

-- The request that the engine is asked.
abbrev pub engine_request :
    AuthorizeBody → ResolvedReferences → DelegationOutcome → AuthorizeRequest
engine_request body refs delegation = record {
  tenant_id = refs.tenant_id;
  application_id = refs.application_id;
  subject = to_subject delegation.subject;
  resource = body.resource;
  action = body.action;
  context = body.context;
  delegated_permissions = delegation.permissions;
  references = some refs;
}

abbrev pub bulk_request : BulkBody → ResolvedReferences → DelegationOutcome → BulkAuthorizeRequest
bulk_request body refs delegation = record {
  tenant_id = refs.tenant_id;
  application_id = refs.application_id;
  subject = to_subject delegation.subject;
  checks = body.checks;
  context = body.context;
  delegated_permissions = delegation.permissions;
  references = some refs;
}

-- The context's condition may raise.
abbrev pub decided : {A : Type 0} → Result PyError A → Result Raised A
decided (ok d) = ok d
decided (err e) = err (python e)

abbrev pub audit_entry :
    (resource action : String)
    → AuthorizeDecision
    → ResolvedReferences
    → DelegationOutcome
    → (request_id : Option String) → AuditEntry
audit_entry resource action d refs delegation request_id = record {
  decision = d.decision;
  reason = d.reason;
  resource = resource;
  action = action;
  tenant_id = refs.tenant_id;
  application_id = refs.application_id;
  user_id = delegation.subject.user_id;
  agent_id = delegation.subject.agent_id;
  delegation_id = delegation.grant_id;
  request_id = request_id;
}

-- `zip(request.checks, decisions, strict=True)`: a result for each check.
unfoldable pub results_of : List (String × String) → List AuthorizeDecision → List BulkCheckResult
results_of ((resource, action) ∷ checks) (d ∷ ds) =
    record { resource = resource; action = action; allowed = d.allowed; reason = d.reason }
    ∷ results_of checks ds
results_of checks ds = []

unfoldable pub write_each :
    (audit_all : Bool)
    → ResolvedReferences
    → DelegationOutcome
    → (request_id : Option String) → List (String × String)
    → List AuthorizeDecision
    → List AuditEntry
    → List AuditEntry
write_each audit_all refs delegation request_id ((resource, action) ∷ checks) (d ∷ ds) log =
    write_each audit_all refs delegation request_id checks ds
      (write audit_all (audit_entry resource action d refs delegation request_id) log)
write_each audit_all refs delegation request_id checks ds log = log

abbrev deny_each : String → List (String × String) → List AuthorizeDecision
deny_each reason = map (λ (c : String × String). deny reason (permission_name c.0 c.1))

module _ (engine : AuthorizationEngine) where
  abbrev pub decide_one :
      AuthorizeBody
      → ResolvedReferences
      → DelegationOutcome
      → Option String
      → Result Raised AuthorizeDecision
  decide_one body refs delegation (some reason) =
      ok (deny reason (permission_name body.resource body.action))
  decide_one body refs delegation none =
      decided (engine_authorize engine (engine_request body refs delegation))

  abbrev decide_bulk :
      BulkBody
      → ResolvedReferences
      → DelegationOutcome
      → Option String
      → Result Raised (List AuthorizeDecision)
  decide_bulk body refs delegation (some reason) = ok (deny_each reason body.checks)
  decide_bulk body refs delegation none =
      decided (engine_bulk engine (bulk_request body refs delegation))

  abbrev effective_of :
      ResolvedReferences → DelegationOutcome → Option String → Result Raised EffectiveResponse
  effective_of refs delegation (some reason) = err (http_error 403 (one_field "error" reason))
  effective_of refs delegation none = ok (record {
    tenant_id = refs.tenant_id;
    application_id = refs.application_id;
    subject = delegation.subject;
    permissions = sorted_set (
        engine_effective engine refs.tenant_id refs.application_id (to_subject delegation.subject)
          delegation.permissions (some refs));
  })

module _ (store : ReferenceStore) (engine : AuthorizationEngine) (jwt : Jwt) (keys : SigningKeys)
    (service : DelegationService) (settings : DelegationSettings) (audit_all : Bool) where
  -- `authorize`: the response, and the audit log
  unfoldable pub authorize :
      AuthorizeBody
      → Principal
      → Grants
      → (now : ℕ) → (token : Option ((jwt).Token)) → (request_id : Option String)
      → (fresh_id : String) → List AuditEntry
      → Result Raised (AuthorizeResponse × List AuditEntry)
  authorize body principal grants now token request_id fresh_id log =
      let (refs, subject) =
        resolve_decision_refs store body.tenant_id body.application_id body.subject in
      let delegation =
        apply_delegation jwt keys token refs.tenant_id refs.application_id subject service settings
          grants now in
      enforce_tenant_scope_binding principal refs.tenant_id
      >> (decide_one engine body refs delegation (delegation_deny refs delegation) >>= λ d. ok (
        response_of d,
        write audit_all
            (audit_entry body.resource body.action d refs delegation
              (some (request_id_or request_id fresh_id)))
            log,
      ))

  -- `bulk_authorize`: an entry for each decision
  unfoldable pub bulk_authorize :
      BulkBody
      → Principal
      → Grants
      → (now : ℕ) → (token : Option ((jwt).Token)) → (request_id : Option String) → List AuditEntry
      → Result Raised (List BulkCheckResult × List AuditEntry)
  bulk_authorize body principal grants now token request_id log =
      let (refs, subject) =
        resolve_decision_refs store body.tenant_id body.application_id body.subject in
      let delegation =
        apply_delegation jwt keys token refs.tenant_id refs.application_id subject service settings
          grants now in
      enforce_tenant_scope_binding principal refs.tenant_id
      >> (decide_bulk engine body refs delegation (delegation_deny refs delegation) >>= λ ds. ok (
        results_of body.checks ds,
        write_each audit_all refs delegation request_id body.checks ds log,
      ))

  -- `effective_permissions`: an unknown reference has none.
  unfoldable pub effective_permissions :
      EffectiveBody
      → Principal
      → Grants
      → (now : ℕ) → (token : Option ((jwt).Token)) → Result Raised EffectiveResponse
  effective_permissions body principal grants now token =
      let (refs, subject) =
        resolve_decision_refs store body.tenant_id body.application_id body.subject in
      let delegation =
        apply_delegation jwt keys token refs.tenant_id refs.application_id subject service settings
          grants now in
      enforce_tenant_scope_binding principal refs.tenant_id
      >> (if complete refs
          then effective_of engine refs delegation delegation.deny_reason
          else ok (record {
            tenant_id = refs.tenant_id;
            application_id = refs.application_id;
            subject = subject;
            permissions = [];
          }))
