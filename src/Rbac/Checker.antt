-- ===== src/Rbac/Checker.antt =====
-- authzkit/rbac/checker.py: the policy decision point.
pub mod Bulk
pub mod Sets
pub mod Permitted
pub mod Allowed
pub mod Narrowing
pub mod Effective
pub mod Reasons
use authz.Base.{
  String, Bool, true, false, not, ◌&&◌, Option, none, some, List, [], ◌∷◌, map, Result, ok, err,
  ◌>>=◌, ◌==◌, string_eq, contains, inter, is_nonempty, traverse, if◌then◌else◌,
}
use authz.Policies.Value.{PyError, end}
use authz.Policies.Engine.{PolicyEngine, evaluate}
use authz.Rbac.Models.{permission_name}
use authz.Rbac.Requests.{
  Subject, ResolvedReferences, AuthorizeRequest, BulkAuthorizeRequest, AuthorizeDecision, allow,
  deny,
}
use authz.Rbac.Subjects.{
  Repository, required_of, inactive, membership_active, agent_active, subject_permissions,
}

pub record AuthorizationEngine : Type 0 where
  pub repository : Repository
  pub policy_engine : PolicyEngine

-- `permissions & mask if mask else permissions`
unfoldable pub masked : List String → List String → List String
masked permissions mask = if is_nonempty mask then inter permissions mask else permissions

-- `permissions & grant if grant is not None else permissions`
unfoldable pub narrowed : List String → Option (List String) → List String
narrowed permissions none = permissions
narrowed permissions (some grant) = inter permissions grant

-- Why a permission that is not effective is denied.
unfoldable pub refusal : (permissions mask undelegated : List String) → String → AuthorizeDecision
refusal permissions mask undelegated required =
    if contains required undelegated
    then deny "not_delegated" required
    else if is_nonempty mask && contains required permissions && not (contains required mask)
    then deny "tenant_feature_disabled" required
    else deny "missing_permission" required

abbrev judged : String → Bool → AuthorizeDecision
judged required true = allow required (required ∷ [])
judged required false = deny "policy_condition_failed" required

-- The request of one check, as the bulk loop hands it to the policy engine.
abbrev pub policy_request : BulkAuthorizeRequest → String × String → AuthorizeRequest
policy_request b (resource, action) = record {
  tenant_id = b.tenant_id;
  application_id = b.application_id;
  subject = b.subject;
  resource = resource;
  action = action;
  context = b.context;
  delegated_permissions = none;
  references = none;
}

-- `_subject_permissions_or_deny` asks with a marker for the check.
abbrev pub marker_of : BulkAuthorizeRequest → AuthorizeRequest
marker_of b = record {
  tenant_id = b.tenant_id;
  application_id = b.application_id;
  subject = b.subject;
  resource = "_bulk";
  action = "_marker";
  context = end;
  delegated_permissions = none;
  references = b.references;
}

abbrev pub name_of : String × String → String
name_of (resource, action) = permission_name resource action

abbrev deny_all : String → List (String × String) → List AuthorizeDecision
deny_all reason = map (λ c. deny reason (name_of c))

module _ (engine : AuthorizationEngine) where
  -- One check against the sets that the subject has.
  unfoldable pub check :
      (permissions mask : List String)
      → Option (List String)
      → AuthorizeRequest
      → Result PyError AuthorizeDecision
  check permissions mask grant r =
      if contains (required_of r) (narrowed (masked permissions mask) grant)
      then (do passed ← evaluate engine.policy_engine r; ok (judged (required_of r) passed))
      else ok (refusal permissions mask (masked permissions mask) (required_of r))

  abbrev authorize_subject :
      AuthorizeRequest → Result AuthorizeDecision (List String) → Result PyError AuthorizeDecision
  authorize_subject r (err denied) = ok denied
  authorize_subject r (ok permissions) =
      check permissions (engine.repository.resolve_tenant_permissions r.tenant_id r.application_id)
        r.delegated_permissions r

  -- `AuthorizationEngine.authorize`
  unfoldable pub authorize : AuthorizeRequest → Result PyError AuthorizeDecision
  authorize r = elim (inactive engine.repository r.tenant_id r.application_id r.references) [
    | some reason ↦ ok (deny reason (required_of r))
    | none ↦ authorize_subject r (subject_permissions engine.repository r)
  ]

  abbrev bulk_subject :
      BulkAuthorizeRequest
      → Result AuthorizeDecision (List String)
      → Result PyError (List AuthorizeDecision)
  bulk_subject b (err denied) = ok (deny_all denied.reason b.checks)
  bulk_subject b (ok permissions) =
      traverse
        (λ c.
          check permissions
            (engine.repository.resolve_tenant_permissions b.tenant_id b.application_id)
            b.delegated_permissions (policy_request b c))
        b.checks

  -- `AuthorizationEngine.bulk_authorize`: the subject's sets are resolved once.
  unfoldable pub bulk_authorize : BulkAuthorizeRequest → Result PyError (List AuthorizeDecision)
  bulk_authorize b = elim (inactive engine.repository b.tenant_id b.application_id b.references) [
    | some reason ↦ ok (deny_all reason b.checks)
    | none ↦ bulk_subject b (subject_permissions engine.repository (marker_of b))
  ]

  -- The user's part of `_effective_permissions`; an absent user or an inactive one has none.
  abbrev if_member :
      String
      → String
      → Option String
      → Option ResolvedReferences
      → (String → List String)
      → List String
  if_member tenant application none refs permissions = []
  if_member tenant application (some user) refs permissions =
      if membership_active engine.repository tenant application user refs
      then permissions user
      else []

  abbrev if_agent :
      String
      → String
      → Option String
      → Option ResolvedReferences
      → (String → List String)
      → List String
  if_agent tenant application none refs permissions = []
  if_agent tenant application (some agent) refs permissions =
      if agent_active engine.repository tenant application agent refs then permissions agent else []

  abbrev subject_set : String → String → Subject → Option ResolvedReferences → List String
  subject_set tenant application s refs =
      if s.type == "user"
      then if_member tenant application s.user_id refs
          (λ user. engine.repository.resolve_user_permissions tenant application user)
      else if s.type == "agent"
      then if_member tenant application s.user_id refs (λ user.
        if_agent tenant application s.agent_id refs (λ agent.
          inter (engine.repository.resolve_user_permissions tenant application user)
            (engine.repository.resolve_agent_permissions tenant application agent)))
      else []

  -- `AuthorizationEngine.effective_permissions`
  unfoldable pub effective_permissions :
      String → String → Subject → Option (List String) → Option ResolvedReferences → List String
  effective_permissions tenant application s grant refs =
      narrowed
        (elim (inactive engine.repository tenant application refs) [
          | some reason ↦ []
          | none ↦
              masked (subject_set tenant application s refs)
                (engine.repository.resolve_tenant_permissions tenant application)
        ])
        grant
