-- ===== src/Tests/Decisions.antt =====
-- Decisions of an engine over a small repository: tenant "acme", application "crm", the user "ann" and
-- the agent "bot".
use authz.Base.{
  true, none, some, [], ◌∷◌, ok, ◌≡◌, ◌↔◌, refl, contains, inter, keep, traverse, ◌==◌, string_eq,
}
use authz.Tenancy.Models.{Agent}
use authz.Policies.Value.{null, end}
use authz.Policies.Engine.{evaluate}
use authz.Rbac.Models.{permission_name}
use authz.Rbac.Requests.{AuthorizeRequest, BulkAuthorizeRequest, allow, deny}
use authz.Rbac.Subjects.{
  Repository, required_of, inactive, membership_active, agent_active, resolve_agent,
  subject_permissions,
}
use authz.Rbac.Checker.{
  AuthorizationEngine, masked, narrowed, refusal, check, authorize, bulk_authorize,
}
use authz.Rbac.Checker.Sets.{passes, granted}
use authz.Rbac.Checker.Permitted.{IsPermitted}
use authz.Rbac.Checker.Allowed.{Allows, authorize-IsPermitted}
use authz.Rbac.Checker.Bulk.{single, bulk_authorize-eq-traverse}
use authz.Rbac.Checker.Narrowing.{as_user, with_grant, agent-le-user, grant_narrows}
use authz.Rbac.Checker.Effective.{effective_set, effective_permissions-Allows}
use authz.Rbac.Checker.Reasons.{verdict, mask_of, authorize-verdict}
use authz.Guards.Agents.{AgentContext, agent_guard, resolve, context_of, is_allowed}
use authz.Guards.Agents.Agreement.{agent_request, is_allowed-Allows}

abbrev pub people : Repository
people = record {
  is_tenant_active = λ t. t == "acme";
  is_application_active = λ a. a == "crm";
  is_user_membership_active = λ t a u. u == "ann";
  is_agent_active = λ t a b. b == "bot";
  resolve_user_permissions = λ t a u. "doc.read" ∷ "doc.write" ∷ [];
  resolve_agent_permissions = λ t a b. "doc.read" ∷ "mail.send" ∷ [];
  resolve_tenant_permissions = λ t a. [];
}

abbrev pub engine : AuthorizationEngine
engine = record {
  repository = people;
  policy_engine = record { rules = []; attribute = λ v key. null };
}

abbrev by_agent : AuthorizeRequest
by_agent = agent_request "acme" "crm" "ann" "bot" "doc" "read" end

abbrev bulk : BulkAuthorizeRequest
bulk = record {
  tenant_id = "acme";
  application_id = "crm";
  subject = by_agent.subject;
  checks = ("doc", "read") ∷ ("doc", "write") ∷ [];
  context = end;
  delegated_permissions = some ("doc.read" ∷ []);
  references = none;
}

by_agent-Allows : Allows engine by_agent
unfolding authorize subject_permissions resolve_agent inactive membership_active agent_active check
    masked narrowed evaluate permission_name allow contains inter keep
by_agent-Allows = (allow "doc.read" ("doc.read" ∷ []), refl, refl)

-- An agent without the permission is refused.
agent-send :
    authorize engine (agent_request "acme" "crm" "ann" "bot" "doc" "write" end)
    ≡ ok (deny "missing_permission" "doc.write")
unfolding authorize subject_permissions resolve_agent inactive membership_active agent_active check
    masked narrowed permission_name contains refusal inter keep
agent-send = refl

evaluate-by_agent : evaluate ((engine).policy_engine) by_agent ≡ ok true
unfolding evaluate keep
evaluate-by_agent = refl

evaluate-as_user : evaluate ((engine).policy_engine) (as_user by_agent) ≡ ok true
unfolding evaluate keep
evaluate-as_user = refl

authorize-IsPermitted_example : Allows engine by_agent ↔ IsPermitted engine by_agent
authorize-IsPermitted_example = authorize-IsPermitted engine by_agent

bulk_authorize-eq-traverse_example :
    bulk_authorize engine bulk ≡ traverse (λ c. authorize engine (single bulk c)) ((bulk).checks)
bulk_authorize-eq-traverse_example = bulk_authorize-eq-traverse engine bulk

agent-le-user_example : Allows engine (as_user by_agent)
agent-le-user_example = agent-le-user engine by_agent refl by_agent-Allows evaluate-as_user

grant_narrows_example : Allows engine (with_grant (some ("doc.read" ∷ [])) by_agent) ↔ (
    Allows engine (with_grant none by_agent)
    × (contains (required_of by_agent) ("doc.read" ∷ []) ≡ true))
grant_narrows_example = grant_narrows engine by_agent ("doc.read" ∷ [])

effective_permissions-Allows_example :
    (contains (required_of by_agent) (effective_set engine by_agent) ≡ true)
    ↔ Allows engine by_agent
effective_permissions-Allows_example =
    effective_permissions-Allows engine by_agent refl evaluate-by_agent

by_agent-inactive : inactive people "acme" "crm" none ≡ none
unfolding inactive
by_agent-inactive = refl

by_agent-permissions : subject_permissions people by_agent ≡ ok ("doc.read" ∷ [])
unfolding subject_permissions resolve_agent membership_active agent_active inter contains
by_agent-permissions = refl

authorize-verdict_example :
    authorize engine by_agent
    ≡ ok (
        verdict
          (contains (required_of by_agent) ("doc.read" ∷ []))
          (passes (required_of by_agent) (mask_of engine by_agent))
          (granted (required_of by_agent) none)
          true
          (required_of by_agent))
authorize-verdict_example =
    authorize-verdict engine by_agent ("doc.read" ∷ []) true by_agent-inactive by_agent-permissions
      evaluate-by_agent

abbrev bot : Agent
bot = record {
  id = "bot";
  tenant_id = "acme";
  application_id = "crm";
  name = "Bot";
  role = "helper";
  status = "active";
  created_by_user_id = none;
  display_name = none;
}

abbrev run : AgentContext
run =
    context_of (record { rbac = people; get_agent = λ t a b. some bot }) "acme" "crm" "ann" "bot"
      bot

run-resolve :
    resolve (record { rbac = people; get_agent = λ t a b. some bot }) "acme" "crm" "ann" "bot"
    ≡ ok run
unfolding resolve
run-resolve = refl

is_allowed-Allows_example :
    (is_allowed (agent_guard run [] none) "doc" "read" ≡ true) ↔ Allows engine by_agent
is_allowed-Allows_example =
    is_allowed-Allows engine (λ t a b. some bot) "acme" "crm" "ann" "bot" run [] none "doc" "read"
      end run-resolve refl refl evaluate-by_agent
