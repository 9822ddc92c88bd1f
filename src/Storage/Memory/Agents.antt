-- ===== src/Storage/Memory/Agents.antt =====
-- authzkit/storage/memory.py: agents.
use authz.Base.{
  String, Bool, false, ◌&&◌, Option, none, some, List, [], map, Result, ok, ◌>>=◌, lookup, insert,
  values, first, ◌==◌, string_eq, if◌then◌else◌,
}
use authz.Rbac.Models.{Role}
use authz.Tenancy.Models.{Agent}
use authz.Storage.Memory.{InMemoryStore}
use authz.Storage.Memory.Roles.{StoreError, find_assignable_roles, check_names, keys}

unfoldable pub create_agent :
    (new_id tenant_id application_id name role status : String)
    → (created_by_user_id display_name : Option String) → InMemoryStore
    → Agent × InMemoryStore
create_agent new_id tenant_id application_id name role status created_by_user_id display_name s =
    let agent : Agent = record {
      id = new_id;
      tenant_id = tenant_id;
      application_id = application_id;
      name = name;
      role = role;
      status = status;
      created_by_user_id = created_by_user_id;
      display_name = display_name;
    } in
    (
      agent,
      record s {
        agents = insert new_id agent s.agents;
        agent_roles = elim (lookup new_id s.agent_roles) [
          | none ↦ insert new_id [] s.agent_roles
          | some linked ↦ s.agent_roles
        ];
      },
    )

abbrev pub agent_here : (tenant application : String) → Option Agent → Option Agent
agent_here tenant application none = none
agent_here tenant application (some a) =
    if a.tenant_id == tenant && a.application_id == application then some a else none

unfoldable pub get_agent : InMemoryStore → (tenant application agent_id : String) → Option Agent
get_agent s tenant application agent_id = agent_here tenant application (lookup agent_id s.agents)

unfoldable pub get_agent_by_id : InMemoryStore → String → Option Agent
get_agent_by_id s agent_id = lookup agent_id s.agents

unfoldable pub find_agent_by_name :
    InMemoryStore → (tenant application name : String) → Option Agent
find_agent_by_name s tenant application name =
    first
      (λ (a : Agent). a.tenant_id == tenant && a.application_id == application && a.name == name)
      (values s.agents)

abbrev pub agent_status_active : Option Agent → Bool
agent_status_active none = false
agent_status_active (some a) = a.status == "active"

unfoldable pub is_agent_active : InMemoryStore → (tenant application agent_id : String) → Bool
is_agent_active s tenant application agent_id =
    agent_status_active (get_agent s tenant application agent_id)

unfoldable pub set_agent_roles :
    InMemoryStore → String → List String → Result StoreError InMemoryStore
set_agent_roles s agent_id role_names = elim (lookup agent_id s.agents) [
  | none ↦ ok s
  | some a ↦
      let found = find_assignable_roles s a.tenant_id (some a.application_id) role_names in
      do
        _ ← check_names "role" role_names (keys found)
        ok (record s {
          agent_roles = insert agent_id (map (λ (r : Role). r.id) (values found)) s.agent_roles;
        })
]
