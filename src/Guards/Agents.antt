-- ===== src/Guards/Agents.antt =====
-- authzkit/agents/resolver.py and authzkit/agents/guard.py: the context of an agent's run, and the
-- guard that decides from it without asking the decision point.
pub mod Agreement
use Prim.Native.String.{◌++◌}
use authz.Base.{
  String, Bool, true, false, not, ◌&&◌, ◌||◌, Option, none, some, List, [], ◌∷◌, Result, ok, err,
  ◌>>=◌, ◌>>◌, guard, contains, inter, is_nonempty, ◌==◌, string_eq, if◌then◌else◌,
}
use authz.Exceptions.{
  AuthzError, tenant_not_active, no_active_membership, agent_not_found, agent_not_active,
  permission_denied,
}
use authz.Tenancy.Models.{Agent}
use authz.Rbac.Models.{permission_name}
use authz.Rbac.Subjects.{Repository}

pub record AgentContext : Type 0 where
  pub tenant_id : String
  pub application_id : String
  pub user_id : String
  pub user_roles : List String
  pub user_permissions : List String
  pub agent_id : String
  pub agent_role : String
  pub agent_permissions : List String
  pub effective_permissions : List String

pub record AgentContextResolver : Type 0 where
  pub rbac : Repository
  -- The tenant, the application and the agent, in this order.
  pub get_agent : String → String → String → Option Agent

abbrev found : String → Option Agent → Result AuthzError Agent
found agent_id none = err (agent_not_found agent_id)
found agent_id (some agent) = ok agent

-- `if tenant_perms: effective = effective & tenant_perms`
unfoldable pub intersection : (user agent tenant : List String) → List String
intersection user agent tenant =
    if is_nonempty tenant then inter (inter user agent) tenant else inter user agent

module _ (resolver : AgentContextResolver) where
  abbrev pub context_of : (tenant application user agent_id : String) → Agent → AgentContext
  context_of tenant application user agent_id agent =
      let user_perms = (resolver).rbac.resolve_user_permissions tenant application user in
      let agent_perms = (resolver).rbac.resolve_agent_permissions tenant application agent_id in
      record {
        tenant_id = tenant;
        application_id = application;
        user_id = user;
        user_roles = [];
        user_permissions = user_perms;
        agent_id = agent_id;
        agent_role = agent.role;
        agent_permissions = agent_perms;
        effective_permissions =
            intersection user_perms agent_perms
              ((resolver).rbac.resolve_tenant_permissions tenant application);
      }

  -- `AgentContextResolver.resolve`
  unfoldable pub resolve :
      (tenant application user agent_id : String) → Result AuthzError AgentContext
  resolve tenant application user agent_id =
      guard ((resolver).rbac.is_tenant_active tenant) (tenant_not_active tenant)
      >> guard ((resolver).rbac.is_user_membership_active tenant application user)
          (no_active_membership user)
      >> (found agent_id ((resolver).get_agent tenant application agent_id) >>= λ (agent : Agent).
          guard (agent.status == "active") (agent_not_active agent_id)
          >> ok (context_of tenant application user agent_id agent))

-- `revalidate` asks the decision point again; the software development kit gives it.
pub record AgentGuard : Type 0 where
  pub context : AgentContext
  pub permissions : List String
  pub critical_actions : List String
  pub revalidate : Option (AgentContext → String → String → Bool)

-- `AgentGuard.__init__`
unfoldable pub agent_guard :
    AgentContext → List String → Option (AgentContext → String → String → Bool) → AgentGuard
agent_guard context critical_actions revalidate = record {
  context = context;
  permissions = context.effective_permissions;
  critical_actions = critical_actions;
  revalidate = revalidate;
}

unfoldable pub is_allowed : AgentGuard → (resource action : String) → Bool
is_allowed g resource action = contains (permission_name resource action) g.permissions

-- `PermissionDeniedError(permission)`
abbrev pub denied : String → AuthzError
denied permission = permission_denied permission ("Permission denied: " ++ permission)

abbrev revalidated :
    AgentGuard
    → (resource action : String) → Option (AgentContext → String → String → Bool)
    → Result AuthzError (Unit {0})
revalidated g resource action none = ok tt
revalidated g resource action (some ask) =
    guard (ask g.context resource action)
      (permission_denied (permission_name resource action) "revalidation denied")

-- `AgentGuard.require`
unfoldable pub require :
    AgentGuard → (resource action : String) → (critical : Bool) → Result AuthzError (Unit {0})
require g resource action critical =
    guard (contains (permission_name resource action) g.permissions)
      (denied (permission_name resource action))
    >> (if critical || contains (permission_name resource action) g.critical_actions
        then revalidated g resource action g.revalidate
        else ok tt)
