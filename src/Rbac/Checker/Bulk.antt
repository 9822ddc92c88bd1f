-- ===== src/Rbac/Checker/Bulk.antt =====
-- authzkit/rbac/checker.py: `bulk_authorize` against `authorize`.
use authz.Base.{
  String, ◌≡◌, refl, sym, ◌∙◌, none, some, List, Result, ok, err, traverse, traverse-ok,
  traverse-ext, Option-cases, inl, inr, arith,
}
use authz.Policies.Value.{PyError}
use authz.Policies.Engine.{evaluate, variables_of, matches_target}
use authz.Rbac.Models.{permission_name}
use authz.Rbac.Requests.{AuthorizeRequest, BulkAuthorizeRequest, AuthorizeDecision, deny}
use authz.Rbac.Subjects.{Repository, inactive, resolve_user, resolve_agent, subject_permissions}
use authz.Rbac.Checker.{
  AuthorizationEngine, check, authorize, authorize_subject, bulk_subject, bulk_authorize,
  policy_request, marker_of, name_of, deny_all,
}

-- The request of one check of a bulk request, asked on its own.
abbrev pub single : BulkAuthorizeRequest → String × String → AuthorizeRequest
single b (resource, action) = record {
  tenant_id = b.tenant_id;
  application_id = b.application_id;
  subject = b.subject;
  resource = resource;
  action = action;
  context = b.context;
  delegated_permissions = b.delegated_permissions;
  references = b.references;
}

-- The subject's answer, with a denial that names another permission.
abbrev relabel :
    String → Result AuthorizeDecision (List String) → Result AuthorizeDecision (List String)
relabel name (ok permissions) = ok permissions
relabel name (err denied) = err (deny denied.reason name)

subject_permissions-single :
    (repository : Repository) (b : BulkAuthorizeRequest) (resource action : String)
    → subject_permissions repository (single b (resource, action))
      ≡ relabel (permission_name resource action) (subject_permissions repository (marker_of b))
unfolding subject_permissions resolve_user resolve_agent deny
subject_permissions-single repository b resource action = ground arith

check-single :
    (engine : AuthorizationEngine) (permissions mask : List String) (b : BulkAuthorizeRequest)
    (resource action : String)
    → check engine permissions mask b.delegated_permissions (policy_request b (resource, action))
      ≡ check engine permissions mask b.delegated_permissions (single b (resource, action))
unfolding check evaluate matches_target variables_of
check-single engine permissions mask b resource action = refl

deny_all-single :
    (reason : String) (checks : List (String × String)) {E : Type 0}
    → ◌≡◌ {A = Result E (List AuthorizeDecision)}
        (ok (deny_all reason checks))
        (traverse (λ c. ok (deny reason (name_of c))) checks)
deny_all-single reason checks = sym (traverse-ok (λ c. deny reason (name_of c)) checks)

module _ (engine : AuthorizationEngine) (b : BulkAuthorizeRequest) where
  -- What one check of the bulk request gets, by the subject's answer.
  abbrev answer :
      Result AuthorizeDecision (List String) → String × String → Result PyError AuthorizeDecision
  answer subject (resource, action) =
      authorize_subject engine (single b (resource, action))
        (relabel (permission_name resource action) subject)

  bulk_subject-eq-traverse :
      (subject : Result AuthorizeDecision (List String))
      → bulk_subject engine b subject ≡ traverse (answer subject) b.checks
  bulk_subject-eq-traverse (err denied) = deny_all-single denied.reason b.checks
  bulk_subject-eq-traverse (ok permissions) =
      traverse-ext _ _ (λ (resource, action). check-single engine permissions _ b resource action)
        b.checks

  authorize-single :
      (c : String × String)
      → inactive engine.repository b.tenant_id b.application_id b.references ≡ none
      → authorize engine (single b c)
        ≡ answer (subject_permissions engine.repository (marker_of b)) c
  unfolding authorize
  authorize-single (resource, action) active =
      rw (active, authorize) (rw (subject_permissions-single engine.repository b resource action))

  authorize-single-inactive :
      (c : String × String) {reason : String}
      → inactive engine.repository b.tenant_id b.application_id b.references ≡ some reason
      → authorize engine (single b c) ≡ ok (deny reason (name_of c))
  unfolding authorize
  authorize-single-inactive (resource, action) shut = rw (shut, authorize)

-- For every engine and bulk request, `bulk_authorize` returns what `authorize` returns for each
-- check asked on its own with the same subject, context, grant and references, in the order of
-- the checks; it raises exactly when one of these raises, with the first such exception.
pub bulk_authorize-eq-traverse :
    (engine : AuthorizationEngine) (b : BulkAuthorizeRequest)
    → bulk_authorize engine b ≡ traverse (λ c. authorize engine (single b c)) b.checks
unfolding bulk_authorize
bulk_authorize-eq-traverse engine b =
    elim (Option-cases (inactive engine.repository b.tenant_id b.application_id b.references)) [
      | inl active ↦
          rw (active, bulk_authorize)
            (bulk_subject-eq-traverse engine b (subject_permissions engine.repository (marker_of b))
              ∙ sym (traverse-ext _ _ (λ c. authorize-single engine b c active) b.checks))
      | inr (reason, shut) ↦
          rw (shut, bulk_authorize)
            (deny_all-single reason b.checks
              ∙ sym (traverse-ext _ _ (λ c. authorize-single-inactive engine b c shut) b.checks))
    ]
