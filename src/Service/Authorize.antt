-- ===== src/Service/Authorize.antt =====
-- authz_service/api/authorize.py: the decision endpoints, and the sink of audit entries of
-- authz_service/dependencies.py. The metrics that they count are left out; a fresh id of a request is
-- an argument.
pub mod Handlers
pub mod Asked
pub mod Decisions
pub mod Audit
use authz.Base.{
  ℕ, String, Bool, true, false, not, ◌&&◌, ◌||◌, Option, none, some, List, [], ◌∷◌, ◌++◌, map,
  Result, ok, err, ◌>>=◌, ◌>>◌, is_blank, sorted_set, ◌==◌, string_eq, if◌then◌else◌,
}
use authz.Policies.Value.{Fields, PyError}
use authz.Rbac.Models.{permission_name}
use authz.Rbac.Requests.{
  Subject, ResolvedReferences, AuthorizeRequest, BulkAuthorizeRequest, AuthorizeDecision, deny,
  complete,
}
use authz.Rbac.Checker.{
  AuthorizationEngine, authorize as engine_authorize, bulk_authorize as engine_bulk,
  effective_permissions as engine_effective,
}
use authz.Security.Tokens.{Jwt, SigningKeys}
use authz.Security.Delegations.{Grants, DelegationService}
use authz.Security.Principal.{Principal}
use authz.Service.Http.{Raised, python, http_error, one_field}
use authz.Service.Callers.Require.{enforce_tenant_scope_binding}
use authz.Service.References.{SubjectSchema, ReferenceStore, resolve_decision_refs}
use authz.Service.Delegations.{DelegationSettings}
use authz.Service.Delegations.Applied.{DelegationOutcome, apply_delegation}

-- `AuthorizeRequestSchema`, `BulkAuthorizeRequestSchema` and `EffectivePermissionsRequestSchema`
-- (authzkit/service/schemas.py)
pub record AuthorizeBody : Type 0 where
  pub tenant_id : String
  pub application_id : String
  pub subject : SubjectSchema
  pub resource : String
  pub action : String
  pub context : Fields

pub record BulkBody : Type 0 where
  pub tenant_id : String
  pub application_id : String
  pub subject : SubjectSchema
  pub checks : List (String × String)
  pub context : Fields

pub record EffectiveBody : Type 0 where
  pub tenant_id : String
  pub application_id : String
  pub subject : SubjectSchema

pub record AuthorizeResponse : Type 0 where
  pub allowed : Bool
  pub decision : String
  pub reason : String
  pub required_permission : String
  pub matched_permissions : List String

pub record BulkCheckResult : Type 0 where
  pub resource : String
  pub action : String
  pub allowed : Bool
  pub reason : String

pub record EffectiveResponse : Type 0 where
  pub tenant_id : String
  pub application_id : String
  pub subject : SubjectSchema
  pub permissions : List String

-- `AuditEntry` (authzkit/audit/logger.py), but for the copies of the request and of the response: of
-- them, the grant's id that the request's copy has.
pub record AuditEntry : Type 0 where
  pub decision : String
  pub reason : String
  pub resource : String
  pub action : String
  pub tenant_id : String
  pub application_id : String
  pub user_id : Option String
  pub agent_id : Option String
  pub delegation_id : Option String
  pub request_id : Option String

-- `AuditSink.write`, at the end of the log
unfoldable pub write : (audit_all : Bool) → AuditEntry → List AuditEntry → List AuditEntry
write audit_all entry log =
    if not (entry.decision == "allow") || audit_all then log ++ (entry ∷ []) else log

-- `_delegation_deny`: an unknown reference comes first.
unfoldable pub delegation_deny : ResolvedReferences → DelegationOutcome → Option String
delegation_deny refs delegation = if complete refs then delegation.deny_reason else none

-- `_to_subject`
unfoldable pub to_subject : SubjectSchema → Subject
to_subject s = record {
  type = s.type;
  user_id = s.user_id;
  agent_id = s.agent_id;
  service_account_id = s.service_account_id;
}

unfoldable pub response_of : AuthorizeDecision → AuthorizeResponse
response_of d = record {
  allowed = d.allowed;
  decision = d.decision;
  reason = d.reason;
  required_permission = d.required_permission;
  matched_permissions = sorted_set d.matched_permissions;
}
