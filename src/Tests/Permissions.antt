-- ===== src/Tests/Permissions.antt =====
-- Two applications create a permission of the same name.
use authz.Base.{
  String, false, none, some, [], ◌∷◌, ok, lookup, insert, values, keep, ◌==◌, string_eq, option_eq,
  ◌≡◌, refl, if◌then◌else◌,
}
use authz.Rbac.Models.{Permission, from_name, rpartition}
use authz.Storage.Memory.{InMemoryStore, empty}
use authz.Storage.Memory.Roles.{create_permission, list_application_permissions}
use authz.Storage.Memory.Roles.Permissions.{create_permission-lookup}

abbrev readable : String → Permission
readable application = record {
  id = "doc.read";
  name = "doc.read";
  resource = "doc";
  action = "read";
  application_id = some application;
  description = none;
  deprecated = false;
  critical = false;
}

abbrev crm_store : InMemoryStore
crm_store = record empty { permissions = ("doc.read", readable "crm") ∷ [] }

abbrev erp_store : InMemoryStore
erp_store = record empty { permissions = ("doc.read", readable "erp") ∷ [] }

created :
    create_permission "doc.read" (some "erp") (some "Reads") crm_store
    ≡ ok (readable "erp", erp_store)
unfolding create_permission from_name rpartition insert
created = refl

-- The first application has lost its permission.
lost : list_application_permissions erp_store (some "crm") ≡ []
unfolding list_application_permissions keep values
lost = refl

create_permission-lookup_example :
    (lookup "doc.read" ((erp_store).permissions) ≡ (
      if ◌==◌ {A = String} "doc.read" "doc.read"
      then some (readable "erp")
      else lookup "doc.read" ((crm_store).permissions)))
    × ((readable "erp").name ≡ "doc.read")
    × ((readable "erp").application_id ≡ some "erp")
    × ((readable "erp").description ≡ none)
create_permission-lookup_example =
    create_permission-lookup "doc.read" "doc.read" (some "erp") (some "Reads") crm_store erp_store
      (readable "erp") created
