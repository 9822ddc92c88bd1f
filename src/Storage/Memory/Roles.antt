-- ===== src/Storage/Memory/Roles.antt =====
-- authzkit/storage/memory.py: roles and permissions, and how role names are resolved.
pub mod Effective
pub mod Laws
pub mod Permissions
use authz.Base.{
  String, Bool, true, false, not, ◌&&◌, ◌||◌, Option, none, some, List, [], ◌∷◌, map, Result, ok,
  err, ◌>>=◌, Dict, lookup, insert, values, first, get_or, keep, contains, minus, is_nonempty,
  gather, ◌==◌, string_eq, option_eq, if◌then◌else◌,
}
use authz.Rbac.Models.{Permission, Role, RoleScope, NameError, from_name, active}
use authz.Rbac.Requests.{is_some}
use authz.Storage.Memory.{InMemoryStore}

-- `UnknownNamesError`, with the names as a set, and the other exceptions of the store.
pub data StoreError : Type 0 where
  unknown_names : (kind : String) → List String → StoreError
  bad_name : NameError → StoreError
  key_error : String → StoreError

-- `UnknownNamesError.check`
unfoldable pub check_names : String → (wanted found : List String) → Result StoreError (Unit {0})
check_names kind wanted found =
    if is_nonempty (minus wanted found)
    then err (unknown_names kind (minus wanted found))
    else ok tt

abbrev pub keys : {V : Type 0} → Dict String V → List String
keys d = map (λ (e : String × _). e.0) d

unfoldable pub create_role :
    (new_id name : String)
    → RoleScope
    → (application_id tenant_id description : Option String) → InMemoryStore
    → Role × InMemoryStore
create_role new_id name scope application_id tenant_id description s =
    let role : Role = record {
      id = new_id;
      name = name;
      scope = scope;
      tenant_id = tenant_id;
      application_id = application_id;
      description = description;
      is_system = false;
      agent_id = none;
    } in
    (
      role,
      record s {
        roles = insert new_id role s.roles;
        role_permissions = elim (lookup new_id s.role_permissions) [
          | none ↦ insert new_id [] s.role_permissions
          | some linked ↦ s.role_permissions
        ];
      },
    )

unfoldable pub get_role : InMemoryStore → String → Option Role
get_role s role_id = lookup role_id s.roles

unfoldable pub get_role_by_name :
    InMemoryStore → (application_id tenant_id : Option String) → String → Option Role
get_role_by_name s application_id tenant_id name =
    first
      (λ (r : Role).
        r.name == name && r.application_id == application_id && r.tenant_id == tenant_id)
      (values s.roles)

-- `tenant_id in (None, t)`
abbrev pub within : String → Option String → Bool
within tenant none = true
within tenant (some t) = t == tenant

-- The role may be assigned by its name here, whatever has been found before.
abbrev pub assignable : String → Option String → List String → Role → Bool
assignable tenant application wanted r =
    contains r.name wanted
    && r.application_id == application
    && not (is_some r.agent_id)
    && within tenant r.tenant_id

-- The loop of `find_assignable_roles`: a tenant's role replaces what was found under its name, an
-- application-wide one does not.
unfoldable pub assign :
    String → Option String → List String → Dict String Role → List Role → Dict String Role
assign tenant application wanted found [] = found
assign tenant application wanted found (r ∷ rs) =
    assign tenant application wanted
      (if assignable tenant application wanted r
          && (is_some r.tenant_id || not (is_some (lookup r.name found)))
        then insert r.name r found
        else found)
      rs

unfoldable pub find_assignable_roles :
    InMemoryStore → String → Option String → List String → Dict String Role
find_assignable_roles s tenant application names =
    assign tenant application names [] (values s.roles)

-- A tenant role named like an application-wide role.
abbrev pub overrides : String → Role → Role → Bool
overrides tenant role o =
    o.tenant_id == some tenant
    && not (is_some o.agent_id)
    && o.application_id == role.application_id
    && o.name == role.name

abbrev pub or_self : Role → Option Role → Role
or_self role none = role
or_self role (some override) = override

-- What one linked role grants through: itself, its override, or nothing.
abbrev pub effective_role : InMemoryStore → String → Option Role → Option Role
effective_role s tenant none = none
effective_role s tenant (some role) =
    if within tenant role.tenant_id
    then some (
        if not (is_some role.tenant_id) && not (is_some role.agent_id)
        then or_self role (first (overrides tenant role) (values s.roles))
        else role)
    else none

abbrev pub id_of : Option Role → List String
id_of none = []
id_of (some role) = role.id ∷ []

-- `_effective_role_ids`
unfoldable pub effective_role_ids : InMemoryStore → String → List String → List String
effective_role_ids s tenant role_ids =
    gather (λ rid. id_of (effective_role s tenant (lookup rid s.roles))) role_ids

abbrev pub add_permission :
    InMemoryStore → Result NameError Permission → Result StoreError (Permission × InMemoryStore)
add_permission s (err e) = err (bad_name e)
add_permission s (ok p) = ok (p, record s { permissions = insert p.id p s.permissions })

-- The description is not stored, as in the source.
unfoldable pub create_permission :
    String
    → (application_id description : Option String) → InMemoryStore
    → Result StoreError (Permission × InMemoryStore)
create_permission name application_id description s =
    add_permission s (from_name name none application_id)

unfoldable pub list_application_permissions : InMemoryStore → Option String → List Permission
list_application_permissions s application_id =
    keep (λ (p : Permission). p.application_id == application_id) (values s.permissions)

unfoldable pub list_role_permissions : InMemoryStore → String → List Permission
list_role_permissions s role_id =
    map (λ (e : String × Permission). e.1)
      (keep (λ (e : String × Permission). contains e.0 (get_or role_id [] s.role_permissions))
        s.permissions)

-- `{p.name: p.id for p in … if p.active and p.name in names}`
unfoldable pub found_permissions :
    List String → Dict String String → List Permission → Dict String String
found_permissions names found [] = found
found_permissions names found (p ∷ ps) =
    found_permissions names
      (if active p && contains p.name names then insert p.name p.id found else found) ps

unfoldable pub set_role_permissions :
    InMemoryStore → String → List String → Result StoreError InMemoryStore
set_role_permissions s role_id names = elim (lookup role_id s.roles) [
  | none ↦ ok s
  | some role ↦
      let found = found_permissions names [] (list_application_permissions s role.application_id) in
      do
        _ ← check_names "permission" names (keys found)
        ok (record s { role_permissions = insert role_id (values found) s.role_permissions })
]
