-- ===== src/Rbac/Subjects.antt =====
-- authzkit/rbac/checker.py, the first half of a decision: is the tenant active, and which
-- permissions has the subject? `Repository` is what the engine asks its repository
-- (authzkit/rbac/repository.py); a set of permissions is a list of names.
use authz.Base.{
  String, Bool, true, false, not, ◌&&◌, ◌||◌, Option, none, some, List, Result, ok, err, ◌==◌,
  string_eq, option_eq, inter, if◌then◌else◌,
}
use authz.Rbac.Models.{permission_name}
use authz.Rbac.Requests.{ResolvedReferences, AuthorizeRequest, AuthorizeDecision, deny}

pub record Repository : Type 0 where
  pub is_tenant_active : String → Bool
  pub is_application_active : String → Bool
  -- The tenant, the application and the user or agent, in this order.
  pub is_user_membership_active : String → String → String → Bool
  pub is_agent_active : String → String → String → Bool
  pub resolve_user_permissions : String → String → String → List String
  pub resolve_agent_permissions : String → String → String → List String
  pub resolve_tenant_permissions : String → String → List String

abbrev pub required_of : AuthorizeRequest → String
required_of r = permission_name r.resource r.action

abbrev pub user_missing : Option ResolvedReferences → Bool
user_missing none = false
user_missing (some refs) = refs.user_missing

abbrev pub agent_missing : Option ResolvedReferences → Bool
agent_missing none = false
agent_missing (some refs) = refs.agent_missing

abbrev is_none {ℓ} : {A : Type ℓ} → Option A → Bool
is_none none = true
is_none (some a) = false

module _ (repository : Repository) where
  open repository use {
    is_tenant_active, is_application_active, is_user_membership_active, is_agent_active,
    resolve_user_permissions, resolve_agent_permissions, resolve_tenant_permissions,
  }

  -- `_inactive`: why the tenant or the application denies.
  unfoldable pub inactive : String → String → Option ResolvedReferences → Option String
  inactive tenant application none =
      if not (is_tenant_active tenant)
      then some "tenant_not_active"
      else if not (is_application_active application)
      then some "application_not_active"
      else none
  inactive tenant application (some refs) =
      if not (refs.tenant_status == some "active")
      then some "tenant_not_active"
      else if not (refs.application_status == some "active")
      then some "application_not_active"
      else none

  -- `_membership_active`
  unfoldable pub membership_active : String → String → String → Option ResolvedReferences → Bool
  membership_active tenant application user refs =
      if user_missing refs then false else is_user_membership_active tenant application user

  abbrev status_of : Option ResolvedReferences → String → Option String
  status_of none agent = none
  status_of (some refs) agent = if some agent == refs.agent_id then refs.agent_status else none

  -- `_agent_active`: a status read with the agent's name is used for that agent.
  unfoldable pub agent_active : String → String → String → Option ResolvedReferences → Bool
  agent_active tenant application agent refs =
      if agent_missing refs then false else elim (status_of refs agent) [
        | none ↦ is_agent_active tenant application agent
        | some status ↦ status == "active"
      ]

  -- The user's membership, checked; `reason` names its absence.
  abbrev with_user :
      AuthorizeRequest
      → Option String
      → String
      → (String → Result AuthorizeDecision (List String))
      → Result AuthorizeDecision (List String)
  with_user r none reason continue = err (deny reason (required_of r))
  with_user r (some user) reason continue =
      if membership_active r.tenant_id r.application_id user r.references
      then continue user
      else err (deny reason (required_of r))

  -- `_resolve_user`
  unfoldable pub resolve_user : AuthorizeRequest → Result AuthorizeDecision (List String)
  resolve_user r =
      if is_none r.subject.user_id && not (user_missing r.references)
      then err (deny "invalid_subject" (required_of r))
      else with_user r r.subject.user_id "no_active_membership" (λ user.
        if agent_missing r.references
        then err (deny "agent_not_active" (required_of r))
        else ok (resolve_user_permissions r.tenant_id r.application_id user))

  abbrev with_agent :
      AuthorizeRequest
      → Option String
      → (String → Result AuthorizeDecision (List String))
      → Result AuthorizeDecision (List String)
  with_agent r none continue = err (deny "agent_not_active" (required_of r))
  with_agent r (some agent) continue =
      if agent_active r.tenant_id r.application_id agent r.references
      then continue agent
      else err (deny "agent_not_active" (required_of r))

  -- `_resolve_agent`: an agent never gets more than the user.
  unfoldable pub resolve_agent : AuthorizeRequest → Result AuthorizeDecision (List String)
  resolve_agent r =
      if is_none r.subject.user_id && not (user_missing r.references)
        || is_none r.subject.agent_id && not (agent_missing r.references)
      then err (deny "invalid_subject" (required_of r))
      else with_user r r.subject.user_id "no_active_user_membership" (λ user.
        with_agent r r.subject.agent_id (λ agent. ok (
          inter (resolve_user_permissions r.tenant_id r.application_id user)
            (resolve_agent_permissions r.tenant_id r.application_id agent))))

  -- The branch on the subject's type, in `authorize` and in `_subject_permissions_or_deny`.
  unfoldable pub subject_permissions : AuthorizeRequest → Result AuthorizeDecision (List String)
  subject_permissions r =
      if r.subject.type == "user"
      then resolve_user r
      else if r.subject.type == "agent"
      then resolve_agent r
      else err (deny "invalid_subject" (required_of r))
