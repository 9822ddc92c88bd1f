-- ===== src/Guards/Agents/Agreement.antt =====
-- authzkit/agents/guard.py against authzkit/rbac/checker.py.
use authz.Base.{String, Bool, true, ◌≡◌, ◌↔◌, refl, Option, none, some, List, ok, string_eq, arith}
use authz.Tenancy.Models.{Agent}
use authz.Rbac.Requests.{AuthorizeRequest}
use authz.Policies.Engine.{evaluate}
use authz.Policies.Value.{Fields}
use authz.Rbac.Subjects.{inactive, membership_active, agent_active}
use authz.Rbac.Checker.{AuthorizationEngine, effective_permissions, masked, narrowed}
use authz.Rbac.Checker.Allowed.{Allows}
use authz.Rbac.Checker.Effective.{effective_permissions-Allows}
use authz.Guards.Agents.{
  AgentContext, AgentContextResolver, agent_guard, resolve, is_allowed, intersection,
}

-- The request of an agent that acts for a user.
abbrev pub agent_request :
    (tenant application user agent resource action : String) → Fields → AuthorizeRequest
agent_request tenant application user agent resource action context = record {
  tenant_id = tenant;
  application_id = application;
  subject = record {
    type = "agent";
    user_id = some user;
    agent_id = some agent;
    service_account_id = none;
  };
  resource = resource;
  action = action;
  context = context;
  delegated_permissions = none;
  references = none;
}

module _ (engine : AuthorizationEngine) (get_agent : String → String → String → Option Agent)
    (tenant application user agent : String) where
  abbrev resolver : AgentContextResolver
  resolver = record { rbac = engine.repository; get_agent = get_agent }

  resolve-effective :
      (c : AgentContext)
      → resolve resolver tenant application user agent ≡ ok c
      → (engine).repository.is_application_active application ≡ true
      → (engine).repository.is_agent_active tenant application agent ≡ true
      → c.effective_permissions
        ≡ effective_permissions engine tenant application
            (record {
              type = "agent";
              user_id = some user;
              agent_id = some agent;
              service_account_id = none;
            })
            none
            none
  unfolding resolve effective_permissions masked narrowed inactive membership_active agent_active
      intersection
  resolve-effective c h open_ acting = ground arith

  -- The guard of a context that `AgentContextResolver.resolve` made allows exactly what `authorize`
  -- allows that agent acting for that user, provided that the application is active, that the store
  -- says that the agent is, and that the policy rules pass the request.
  pub is_allowed-Allows :
      (c : AgentContext) (critical : List String)
      (revalidate : Option (AgentContext → String → String → Bool)) (resource action : String)
      (context : Fields)
      → resolve
          (record { rbac = engine.repository; get_agent = get_agent })
          tenant
          application
          user
          agent
        ≡ ok c
      → (engine).repository.is_application_active application ≡ true
      → (engine).repository.is_agent_active tenant application agent ≡ true
      → evaluate
          ((engine).policy_engine)
          (agent_request tenant application user agent resource action context)
        ≡ ok true
      → (is_allowed (agent_guard c critical revalidate) resource action ≡ true)
        ↔ Allows engine (agent_request tenant application user agent resource action context)
  unfolding is_allowed agent_guard
  is_allowed-Allows c critical revalidate resource action context h open_ acting passed =
      rw (resolve-effective c h open_ acting) (
        effective_permissions-Allows engine
          (agent_request tenant application user agent resource action context) refl passed)
