-- ===== src/Storage/Memory/Resolution/Isolation.antt =====
-- authzkit/storage/memory.py: where resolved permissions and masks come from.
use authz.Base.{
  String, Bool, true, ◌&&◌, ◌≡◌, List, [], lookup-insert, values, get_or, keep, contains, Elem,
  Elem-keep, gather-Elem, contains-map-Elem, contains_of_Elem, ◌==◌, string_eq, pair_eq, option_eq,
  eq_iff, arith, if◌then◌else◌,
}
use authz.Rbac.Models.{Permission, Role, active}
use authz.Tenancy.Models.{Membership}
use authz.Storage.Memory.{InMemoryStore}
use authz.Storage.Memory.Roles.{within, effective_role_ids, list_role_permissions}
use authz.Storage.Memory.Roles.Effective.{StandsFor}
use authz.Storage.Memory.Roles.Laws.{effective_role_ids-within}
use authz.Storage.Memory.Resolution.{
  counts_for, granted_by, name_of, resolve_user_permissions, resolve_tenant_permissions,
  set_tenant_permission_mask,
}

-- An active membership of the user in the tenant, for the application or tenant-wide.
pub record Counts (tenant application user : String) (m : Membership) : Type 0 where
  pub of_tenant : m.tenant_id ≡ tenant
  pub of_user : m.user_id ≡ user
  pub is_active : m.status ≡ "active"
  pub of_application : within application m.application_id ≡ true

granted_by-Elem :
    (s : InMemoryStore) (counts : Permission → Bool) (tenant : String) (linked : List String)
    (name : String)
    → contains name (granted_by s counts tenant linked) ≡ true
    → (rid : String) × (contains rid (effective_role_ids s tenant linked) ≡ true)
      × ((p : Permission) × Elem p (list_role_permissions s rid)
          × (counts p ≡ true)
          × (name ≡ p.name))
unfolding granted_by
granted_by-Elem s counts tenant linked name h =
    let (rid, found, holds) = gather-Elem _ (effective_role_ids s tenant linked) name h in
    let (p, kept, same) =
      contains-map-Elem name_of (keep counts (list_role_permissions s rid)) name holds in
    let (there, counted) = Elem-keep counts (list_role_permissions s rid) p kept in
    (
      rid,
      contains_of_Elem rid (effective_role_ids s tenant linked) found,
      (p, there, counted, same),
    )

-- Every permission that `resolve_user_permissions` gives a user in a tenant and an application
-- stems from an active membership of this user in this tenant, for this application or
-- tenant-wide; from a role of the store that one of this membership's links stands for, which is the
-- linked role, bound to this tenant or to none, or this tenant's own role that overrides it; and from a
-- permission of this role that has this name, is not deprecated and belongs to this application or to
-- none.
pub resolve_user_permissions-isolated :
    (s : InMemoryStore) (tenant application user name : String)
    → contains name (resolve_user_permissions s tenant application user) ≡ true
    → (m : Membership) × (link : String) × (role : Role) × (p : Permission) × Elem m
        (values s.memberships)
      × Counts tenant application user m
      × Elem link (get_or m.id [] s.membership_roles)
      × StandsFor s tenant link role
      × Elem p (list_role_permissions s role.id)
      × (p.name ≡ name)
      × (within application p.application_id ≡ true)
      × (active p ≡ true)
unfolding resolve_user_permissions
resolve_user_permissions-isolated s tenant application user name h =
    let (m, kept, holds) =
      gather-Elem _ (keep (counts_for tenant application user) (values s.memberships)) name h in
    let (there, counted) =
      Elem-keep (counts_for tenant application user) (values s.memberships) m kept in
    let (rid, effective, (p, linked, good, same)) = granted_by-Elem s _ tenant _ name holds in
    let (link, role, is_link, is_role, stands) =
      effective_role_ids-within s tenant _ rid effective in
    (
      m,
      link,
      role,
      p,
      there,
      record {
        of_tenant = ground (arith, eq_iff m.tenant_id tenant);
        of_user = ground (arith, eq_iff m.user_id user);
        is_active = ground (arith, eq_iff m.status "active");
        of_application = ground arith;
      },
      is_link,
      stands,
      rw (← is_role) linked,
      cc,
      ground arith,
      ground arith,
    )

-- After a mask is set, its tenant and application resolve to exactly this mask, and every other
-- pair of a tenant and an application to what it had.
resolve_tenant_permissions-set_mask :
    (s : InMemoryStore) (tenant application other_tenant other_application : String)
    (permissions : List String)
    → resolve_tenant_permissions
        (set_tenant_permission_mask s tenant application permissions)
        other_tenant
        other_application
      ≡ (if tenant == other_tenant && application == other_application
          then permissions
          else resolve_tenant_permissions s other_tenant other_application)
unfolding resolve_tenant_permissions set_tenant_permission_mask get_or
resolve_tenant_permissions-set_mask s tenant application other_tenant other_application
      permissions =
    ground (
      arith,
      lookup-insert (tenant, application) (other_tenant, other_application) permissions
          s.tenant_permission_masks,
    )
