-- ===== src/Rbac/Checker/Reasons.antt =====
-- The reasons of the denials behind the subject's.
use authz.Base.{String, Bool, true, false, ◌≡◌, none, List, [], ◌∷◌, ok, contains, string_eq, arith}
use authz.Policies.Engine.{evaluate}
use authz.Rbac.Requests.{AuthorizeRequest, AuthorizeDecision, allow, deny}
use authz.Rbac.Subjects.{required_of, inactive, subject_permissions}
use authz.Rbac.Checker.{AuthorizationEngine, masked, refusal, check, authorize}
use authz.Rbac.Checker.Sets.{passes, granted, contains-masked, contains-narrowed}

abbrev pub mask_of : AuthorizationEngine → AuthorizeRequest → List String
mask_of engine r = engine.repository.resolve_tenant_permissions r.tenant_id r.application_id

-- The answer by four facts: the subject has the permission, the mask passes it, the grant has it,
-- and the policy rules pass the request. The first that fails gives the reason.
abbrev pub verdict : (held unmasked delegated passed : Bool) → String → AuthorizeDecision
verdict false unmasked delegated passed required = deny "missing_permission" required
verdict true false delegated passed required = deny "tenant_feature_disabled" required
verdict true true false passed required = deny "not_delegated" required
verdict true true true false required = deny "policy_condition_failed" required
verdict true true true true required = allow required (required ∷ [])

-- For an active tenant and application, a subject that has a set of permissions, and policy rules
-- that do not raise, the first of these facts decides the answer of `authorize`: the subject lacks
-- the permission ("missing_permission"); a mask is set and lacks it ("tenant_feature_disabled");
-- the grant lacks it ("not_delegated"); the rules refuse ("policy_condition_failed"). With none of
-- these it grants just the permission.
pub authorize-verdict :
    (engine : AuthorizationEngine) (r : AuthorizeRequest) (permissions : List String)
    (passed : Bool)
    → inactive engine.repository r.tenant_id r.application_id r.references ≡ none
    → subject_permissions engine.repository r ≡ ok permissions
    → evaluate engine.policy_engine r ≡ ok passed
    → authorize engine r
      ≡ ok (
          verdict
            (contains (required_of r) permissions)
            (passes (required_of r) (mask_of engine r))
            (granted (required_of r) r.delegated_permissions)
            passed
            (required_of r))
unfolding authorize check refusal
authorize-verdict engine r permissions passed active answer judged =
    let masks = contains-masked (required_of r) permissions (mask_of engine r) in
    let narrows =
      contains-narrowed (required_of r) (masked permissions (mask_of engine r))
        r.delegated_permissions in
    ground (arith, masks, narrows)
