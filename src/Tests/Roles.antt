-- ===== src/Tests/Roles.antt =====
-- Role names and permission links in a store with an application-wide role and a tenant's own.
use authz.Base.{
  String, true, false, Option, none, some, [], ◌∷◌, ok, ◌≡◌, refl, inl, inr, contains, string_eq,
  Elem, lookup, values, first, gather, insert,
}
use authz.Rbac.Models.{Role, RoleScope, permission_name, from_name}
use authz.Rbac.Models.Names.{has_dot, from_name-permission_name}
use authz.Storage.Memory.{InMemoryStore, empty}
use authz.Storage.Memory.Roles.{
  within, assignable, find_assignable_roles, assign, effective_role_ids,
}
use authz.Storage.Memory.Roles.Effective.{StandsFor}
use authz.Storage.Memory.Roles.Laws.{effective_role_ids-within, find_assignable_roles_sound}

abbrev role_of : String → Option String → Role
role_of id tenant = record {
  id = id;
  name = "editor";
  scope = RoleScope.application;
  tenant_id = tenant;
  application_id = some "crm";
  description = none;
  is_system = false;
  agent_id = none;
}

abbrev shared : Role
shared = role_of "r1" none

abbrev own : Role
own = role_of "r2" (some "acme")

abbrev two_roles : InMemoryStore
two_roles = record empty { roles = ("r1", shared) ∷ ("r2", own) ∷ [] }

linked : contains "r2" (effective_role_ids two_roles "acme" ("r1" ∷ [])) ≡ true
unfolding effective_role_ids contains gather lookup first values
linked = refl

effective_role_ids-within_example :
    (link : String) × (role : Role) × Elem link ("r1" ∷ [])
    × ("r2" ≡ role.id)
    × StandsFor two_roles "acme" link role
effective_role_ids-within_example =
    effective_role_ids-within two_roles "acme" ("r1" ∷ []) "r2" linked

own-Elem : Elem own (values ((two_roles).roles))
unfolding values
own-Elem = inr (inl refl)

own-found :
    lookup "editor" (find_assignable_roles two_roles "acme" (some "crm") ("editor" ∷ [])) ≡ some own
unfolding find_assignable_roles lookup assign values contains insert
own-found = refl

find_assignable_roles_sound_example :
    ((own).name ≡ "editor")
    × (contains {A = String} "editor" ("editor" ∷ []) ≡ true)
    × ((own).application_id ≡ some "crm")
    × ((own).agent_id ≡ none)
    × (within "acme" ((own).tenant_id) ≡ true)
find_assignable_roles_sound_example =
    find_assignable_roles_sound two_roles "acme" (some "crm") ("editor" ∷ []) "editor" own own-found

own-assignable : assignable "acme" (some "crm") ("editor" ∷ []) own ≡ true
unfolding contains
own-assignable = refl

plain : has_dot "read" ≡ false
unfolding has_dot
plain = refl

from_name-permission_name_example :
    from_name (permission_name "mcp.github" "read") none (some "crm")
    ≡ ok (record {
      id = permission_name "mcp.github" "read";
      name = permission_name "mcp.github" "read";
      resource = "mcp.github";
      action = "read";
      application_id = some "crm";
      description = none;
      deprecated = false;
      critical = false;
    })
from_name-permission_name_example = from_name-permission_name "mcp.github" "read" (some "crm") plain
