-- ===== src/Tests/Stores.antt =====
-- A store in which user "ann" has the role "editor" in tenant "acme", and what it says of her.
use authz.Base.{
  String, true, false, none, some, [], ◌∷◌, ◌≡◌, refl, inl, Elem, contains, lookup, get_or,
  string_eq, pair_eq, keep, gather, insert, first, values,
}
use authz.Rbac.Models.{Role, RoleScope, Permission, active}
use authz.Tenancy.Models.{Membership}
use authz.Storage.Memory.{InMemoryStore, empty, upsert_user_from_identity, find_identity}
use authz.Storage.Memory.Roles.{
  within, create_role, find_assignable_roles, assign, effective_role_ids, list_role_permissions,
}
use authz.Storage.Memory.Members.{create_membership, assigned_ids}
use authz.Storage.Memory.Resolution.{resolve_user_permissions, granted_by}
use authz.Storage.Memory.Roles.Effective.{StandsFor}
use authz.Storage.Memory.Resolution.Isolation.{Counts, resolve_user_permissions-isolated}
use authz.Storage.Memory.Identities.{upsert_user_from_identity_idem}
use authz.Storage.Memory.Reachable.Invariant.{Reach-Linkable}
use authz.Storage.Memory.Reachable.{Reach, start, next, role_step, membership_step, Linkable}

abbrev with_role : InMemoryStore
with_role = (create_role "r1" "editor" RoleScope.application (some "crm") none none empty).1

abbrev membership : Membership
membership = record {
  id = "m1";
  tenant_id = "acme";
  user_id = "ann";
  application_id = some "crm";
  roles = "editor" ∷ [];
  status = "active";
}

abbrev staffed : InMemoryStore
staffed =
    (create_membership "m1" "acme" (some "crm") "ann" "active" (some ("editor" ∷ [])) with_role).1

unused : lookup "r1" ((empty).roles) ≡ none
unfolding lookup
unused = refl

staffed-Reach : Reach staffed
staffed-Reach =
    next (next start (role_step "r1" "editor" RoleScope.application (some "crm") none none unused))
      (membership_step "m1" "acme" (some "crm") "ann" "active" (some ("editor" ∷ [])))

staffed-membership : lookup "m1" ((staffed).memberships) ≡ some membership
unfolding lookup create_membership insert create_role
staffed-membership = refl

staffed-link : contains "r1" (get_or "m1" [] ((staffed).membership_roles)) ≡ true
unfolding lookup create_membership insert create_role get_or contains assigned_ids
    find_assignable_roles assign values
staffed-link = refl

Reach-Linkable_example : Linkable staffed membership "r1"
Reach-Linkable_example =
    Reach-Linkable staffed-Reach "m1" membership "r1" staffed-membership staffed-link

abbrev readable : Permission
readable = record {
  id = "doc.read";
  name = "doc.read";
  resource = "doc";
  action = "read";
  application_id = some "crm";
  description = none;
  deprecated = false;
  critical = false;
}

-- The role has been given a permission.
abbrev shop : InMemoryStore
shop = record staffed {
  permissions = ("doc.read", readable) ∷ [];
  role_permissions = ("r1", "doc.read" ∷ []) ∷ [];
}

shop-read : contains "doc.read" (resolve_user_permissions shop "acme" "crm" "ann") ≡ true
unfolding resolve_user_permissions contains gather keep values create_membership insert create_role
    granted_by effective_role_ids get_or lookup assigned_ids find_assignable_roles assign
    list_role_permissions first
shop-read = refl

resolve_user_permissions-isolated_example :
    (m : Membership) × (link : String) × (role : Role) × (p : Permission) × Elem m
      (values ((shop).memberships))
    × Counts "acme" "crm" "ann" m
    × Elem link (get_or m.id [] ((shop).membership_roles))
    × StandsFor shop "acme" link role
    × Elem p (list_role_permissions shop role.id)
    × (p.name ≡ "doc.read")
    × (within "crm" p.application_id ≡ true)
    × (active p ≡ true)
resolve_user_permissions-isolated_example =
    resolve_user_permissions-isolated shop "acme" "crm" "ann" "doc.read" shop-read

unused_identity : lookup "i1" ((shop).external_identities) ≡ none
unfolding lookup create_membership create_role
unused_identity = refl

unknown_identity : find_identity shop "oidc" "https://id" "ann" ≡ none
unfolding find_identity create_membership create_role first values
unknown_identity = refl

upsert_user_from_identity_idem_example :
    upsert_user_from_identity "u2" "i2" "oidc" "https://id" "ann" none none none
      (upsert_user_from_identity "u1" "i1" "oidc" "https://id" "ann"
        (some "ann@acme")
        none
        none
        shop).1
    ≡ upsert_user_from_identity "u1" "i1" "oidc" "https://id" "ann" (some "ann@acme") none none shop
upsert_user_from_identity_idem_example =
    upsert_user_from_identity_idem "oidc" "https://id" "ann" shop "u1" "i1" "u2" "i2"
      (some "ann@acme") none none none none none unused_identity (inl unknown_identity)
