-- ===== src/Storage/Memory/Resolution.antt =====
-- authzkit/storage/memory.py: the permissions of users, agents and tenants, the masks and flags, and
-- the store as the repository of the decision point.
pub mod Isolation
use authz.Base.{
  String, Bool, true, false, ◌&&◌, ◌||◌, Option, none, some, List, [], map, Dict, lookup, insert,
  values, get_or, keep, gather, ◌==◌, string_eq, option_eq, pair_eq,
}
use authz.Policies.Value.{Value}
use authz.Rbac.Models.{Permission, active}
use authz.Rbac.Subjects.{Repository}
use authz.Tenancy.Models.{Membership, Agent}
use authz.Storage.Memory.{InMemoryStore, is_tenant_active, is_application_active}
use authz.Storage.Memory.Roles.{effective_role_ids, list_role_permissions, within}
use authz.Storage.Memory.Members.{is_user_membership_active}
use authz.Storage.Memory.Agents.{agent_here, is_agent_active}

-- The active memberships of the user here: for the application, or tenant-wide.
abbrev pub counts_for : (tenant application user : String) → Membership → Bool
counts_for tenant application user m =
    m.tenant_id == tenant
    && m.user_id == user
    && m.status == "active"
    && within application m.application_id

abbrev pub name_of : Permission → String
name_of p = p.name

-- The names that a set of linked roles grants, of the permissions that count.
unfoldable pub granted_by : InMemoryStore → (Permission → Bool) → String → List String → List String
granted_by s counts tenant linked =
    gather (λ rid. map name_of (keep counts (list_role_permissions s rid)))
      (effective_role_ids s tenant linked)

unfoldable pub resolve_user_permissions :
    InMemoryStore → (tenant application user : String) → List String
resolve_user_permissions s tenant application user =
    gather
      (λ (m : Membership).
        granted_by s (λ (p : Permission). within application p.application_id && active p) tenant
          (get_or m.id [] s.membership_roles))
      (keep (counts_for tenant application user) (values s.memberships))

abbrev agent_permissions : InMemoryStore → String → String → Option Agent → List String
agent_permissions s tenant agent_id none = []
agent_permissions s tenant agent_id (some a) =
    granted_by s active tenant (get_or agent_id [] s.agent_roles)

unfoldable pub resolve_agent_permissions :
    InMemoryStore → (tenant application agent_id : String) → List String
resolve_agent_permissions s tenant application agent_id =
    agent_permissions s tenant agent_id (agent_here tenant application (lookup agent_id s.agents))

unfoldable pub resolve_tenant_permissions :
    InMemoryStore → (tenant application : String) → List String
resolve_tenant_permissions s tenant application =
    get_or (tenant, application) [] s.tenant_permission_masks

unfoldable pub set_tenant_permission_mask :
    InMemoryStore → (tenant application : String) → List String → InMemoryStore
set_tenant_permission_mask s tenant application permissions = record s {
  tenant_permission_masks = insert (tenant, application) permissions s.tenant_permission_masks;
}

unfoldable pub get_tenant_feature_flags : InMemoryStore → String → Option String → Dict String Value
get_tenant_feature_flags s tenant application =
    get_or (tenant, application) [] s.tenant_feature_flags

unfoldable pub set_tenant_feature_flag :
    InMemoryStore → String → Option String → String → Value → InMemoryStore
set_tenant_feature_flag s tenant application key value = record s {
  tenant_feature_flags =
      insert (tenant, application)
        (insert key value (get_or (tenant, application) [] s.tenant_feature_flags))
        s.tenant_feature_flags;
}

-- The store behind the decision point.
unfoldable pub repository : InMemoryStore → Repository
repository s = record {
  is_tenant_active = is_tenant_active s;
  is_application_active = is_application_active s;
  is_user_membership_active = is_user_membership_active s;
  is_agent_active = is_agent_active s;
  resolve_user_permissions = resolve_user_permissions s;
  resolve_agent_permissions = resolve_agent_permissions s;
  resolve_tenant_permissions = resolve_tenant_permissions s;
}
