-- ===== src/Storage/Memory/Members.antt =====
-- authzkit/storage/memory.py: memberships.
use authz.Base.{
  String, Bool, false, ◌&&◌, Option, none, some, List, [], map, Result, ok, err, lookup, insert,
  values, first, keep, ◌==◌, string_eq, option_eq,
}
use authz.Rbac.Models.{Role}
use authz.Tenancy.Models.{Membership}
use authz.Storage.Memory.{InMemoryStore}
use authz.Storage.Memory.Roles.{StoreError, key_error, find_assignable_roles}

abbrev pub names_or_none : Option (List String) → List String
names_or_none none = []
names_or_none (some names) = names

-- `{r.id for r in self.find_assignable_roles(…).values()}`
unfoldable pub assigned_ids : InMemoryStore → String → Option String → List String → List String
assigned_ids s tenant application names =
    map (λ (r : Role). r.id) (values (find_assignable_roles s tenant application names))

unfoldable pub create_membership :
    (new_id tenant_id : String)
    → Option String
    → (user_id status : String) → Option (List String)
    → InMemoryStore
    → Membership × InMemoryStore
create_membership new_id tenant_id application_id user_id status roles s =
    let membership : Membership = record {
      id = new_id;
      tenant_id = tenant_id;
      user_id = user_id;
      application_id = application_id;
      roles = names_or_none roles;
      status = status;
    } in
    (
      membership,
      record s {
        memberships = insert new_id membership s.memberships;
        membership_roles =
            insert new_id (assigned_ids s tenant_id application_id (names_or_none roles))
              s.membership_roles;
      },
    )

abbrev pub is_membership : String → Option String → String → Membership → Bool
is_membership tenant application user m =
    m.tenant_id == tenant && m.application_id == application && m.user_id == user

unfoldable pub get_membership : InMemoryStore → String → Option String → String → Option Membership
get_membership s tenant application user =
    first (is_membership tenant application user) (values s.memberships)

unfoldable pub list_memberships_for_user : InMemoryStore → String → List Membership
list_memberships_for_user s user =
    keep (λ (m : Membership). m.user_id == user) (values s.memberships)

-- A membership that is not there raises `KeyError`.
unfoldable pub set_membership_roles :
    InMemoryStore → String → List String → Result StoreError InMemoryStore
set_membership_roles s membership_id role_names = elim (lookup membership_id s.memberships) [
  | none ↦ err (key_error membership_id)
  | some m ↦ ok (record s {
    membership_roles =
        insert membership_id (assigned_ids s m.tenant_id m.application_id role_names)
          s.membership_roles;
    memberships = insert membership_id (record m { roles = role_names }) s.memberships;
  })
]

-- The membership of the application, else the tenant-wide one.
abbrev pub or_tenant_wide : Option Membership → Option Membership → Option Membership
or_tenant_wide (some m) fallback = some m
or_tenant_wide none fallback = fallback

abbrev pub membership_status_active : Option Membership → Bool
membership_status_active none = false
membership_status_active (some m) = m.status == "active"

unfoldable pub is_user_membership_active : InMemoryStore → (tenant application user : String) → Bool
is_user_membership_active s tenant application user = membership_status_active (
    or_tenant_wide (get_membership s tenant (some application) user)
      (get_membership s tenant none user))
