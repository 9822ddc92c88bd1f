-- ===== src/Storage/Memory.antt =====
-- authzkit/storage/memory.py: the in-memory store, its state and its rows of tenants,
-- applications, users and identities. A method that writes returns the new store; a fresh id
-- (`uuid.uuid4()`) is an argument.
pub mod Roles
pub mod Members
pub mod Agents
pub mod Resolution
pub mod Identities
pub mod Reachable
use authz.Base.{
  String, Bool, false, ◌&&◌, Option, none, some, List, [], Dict, lookup, insert, values, first,
  get_or, ◌==◌, string_eq, option_eq, pair_eq, if◌then◌else◌,
}
use authz.Policies.Value.{Value}
use authz.Rbac.Models.{Permission, Role}
use authz.Tenancy.Models.{
  Tenant, Application, User, ExternalIdentity, Membership, TenantIdentityMapping, Agent,
}

pub record InMemoryStore : Type 0 where
  pub tenants : Dict String Tenant
  pub applications : Dict String Application
  pub users : Dict String User
  pub external_identities : Dict String ExternalIdentity
  pub tenant_identity_mappings : Dict String TenantIdentityMapping
  pub memberships : Dict String Membership
  pub roles : Dict String Role
  pub permissions : Dict String Permission
  pub role_permissions : Dict String (List String)
  pub membership_roles : Dict String (List String)
  pub agents : Dict String Agent
  pub agent_roles : Dict String (List String)
  pub tenant_feature_flags : Dict (String × Option String) (Dict String Value)
  pub tenant_permission_masks : Dict (String × String) (List String)

abbrev pub empty : InMemoryStore
empty = record {
  tenants = [];
  applications = [];
  users = [];
  external_identities = [];
  tenant_identity_mappings = [];
  memberships = [];
  roles = [];
  permissions = [];
  role_permissions = [];
  membership_roles = [];
  agents = [];
  agent_roles = [];
  tenant_feature_flags = [];
  tenant_permission_masks = [];
}

-- ---- Tenants

unfoldable pub create_tenant :
    (new_id slug name status : String) → InMemoryStore → Tenant × InMemoryStore
create_tenant new_id slug name status s =
    let tenant : Tenant = record { id = new_id; slug = slug; name = name; status = status } in
    (tenant, record s { tenants = insert new_id tenant s.tenants })

unfoldable pub get_tenant : InMemoryStore → String → Option Tenant
get_tenant s tenant_id = lookup tenant_id s.tenants

unfoldable pub get_tenant_by_slug : InMemoryStore → String → Option Tenant
get_tenant_by_slug s slug = first (λ (t : Tenant). t.slug == slug) (values s.tenants)

abbrev pub tenant_status_active : Option Tenant → Bool
tenant_status_active none = false
tenant_status_active (some t) = t.status == "active"

unfoldable pub is_tenant_active : InMemoryStore → String → Bool
is_tenant_active s tenant_id = tenant_status_active (lookup tenant_id s.tenants)

-- ---- Applications

unfoldable pub create_application :
    (new_id slug name status : String) → Option String → InMemoryStore → Application × InMemoryStore
create_application new_id slug name status managed_by s =
    let app : Application = record {
      id = new_id;
      slug = slug;
      name = name;
      status = status;
      managed_by = managed_by;
    } in
    (app, record s { applications = insert new_id app s.applications })

unfoldable pub get_application : InMemoryStore → String → Option Application
get_application s application_id = lookup application_id s.applications

unfoldable pub get_application_by_slug : InMemoryStore → String → Option Application
get_application_by_slug s slug = first (λ (a : Application). a.slug == slug) (values s.applications)

abbrev pub application_status_active : Option Application → Bool
application_status_active none = false
application_status_active (some a) = a.status == "active"

unfoldable pub is_application_active : InMemoryStore → String → Bool
is_application_active s application_id =
    application_status_active (lookup application_id s.applications)

unfoldable pub set_application_managed_by : InMemoryStore → String → Option String → InMemoryStore
set_application_managed_by s application_id managed_by =
    elim (lookup application_id s.applications) [
      | none ↦ s
      | some app ↦ record s {
        applications =
            insert application_id (record app { managed_by = managed_by }) s.applications;
      }
    ]

-- ---- Users and identities

unfoldable pub get_user : InMemoryStore → String → Option User
get_user s user_id = lookup user_id s.users

abbrev pub has_identity : (provider issuer subject : String) → ExternalIdentity → Bool
has_identity provider issuer subject i =
    i.provider == provider && i.issuer == issuer && i.subject == subject

unfoldable pub find_identity :
    InMemoryStore → (provider issuer subject : String) → Option ExternalIdentity
find_identity s provider issuer subject =
    first (has_identity provider issuer subject) (values s.external_identities)

abbrev pub user_of : InMemoryStore → Option ExternalIdentity → Option User
user_of s none = none
user_of s (some identity) = lookup identity.user_id s.users

unfoldable pub find_user_by_external_identity :
    InMemoryStore → (provider issuer subject : String) → Option User
find_user_by_external_identity s provider issuer subject =
    user_of s (find_identity s provider issuer subject)

-- The user and the identity that `upsert_user_from_identity` finds or creates. The source takes
-- the identity again by `next`, which the user's being there makes succeed.
abbrev pub existing_of : Option ExternalIdentity → Option User → Option (User × ExternalIdentity)
existing_of (some identity) (some user) = some (user, identity)
existing_of _ _ = none

abbrev pub new_user : (user_id : String) → (email display_name : Option String) → User
new_user user_id email display_name = record {
  id = user_id;
  display_name = display_name;
  email = email;
  status = "active";
}

abbrev pub new_identity :
    (identity_id user_id provider issuer subject : String)
    → (external_tenant_id email : Option String) → ExternalIdentity
new_identity identity_id user_id provider issuer subject external_tenant_id email = record {
  id = identity_id;
  user_id = user_id;
  provider = provider;
  issuer = issuer;
  subject = subject;
  external_tenant_id = external_tenant_id;
  email = email;
}

abbrev pub with_user :
    User → ExternalIdentity → InMemoryStore → (User × ExternalIdentity) × InMemoryStore
with_user user identity s = (
  (user, identity),
  record s {
    users = insert user.id user s.users;
    external_identities = insert identity.id identity s.external_identities;
  },
)

unfoldable pub upsert_user_from_identity :
    (user_id identity_id : String)
    → (provider issuer subject : String) → (email external_tenant_id display_name : Option String)
    → InMemoryStore
    → (User × ExternalIdentity) × InMemoryStore
upsert_user_from_identity user_id identity_id provider issuer subject email external_tenant_id
      display_name s =
    elim (existing_of (find_identity s provider issuer subject)
      (find_user_by_external_identity s provider issuer subject)) [
        | some found ↦ (found, s)
        | none ↦
            with_user (new_user user_id email display_name)
              (new_identity identity_id user_id provider issuer subject external_tenant_id email) s
      ]

-- ---- Tenant identity mapping

abbrev pub has_mapping : (provider issuer external : String) → TenantIdentityMapping → Bool
has_mapping provider issuer external m =
    m.provider == provider && m.issuer == issuer && m.external_tenant_id == external

abbrev pub tenant_of : InMemoryStore → Option TenantIdentityMapping → Option Tenant
tenant_of s none = none
tenant_of s (some m) = lookup m.tenant_id s.tenants

unfoldable pub find_tenant_by_external :
    InMemoryStore → (provider issuer external : String) → Option Tenant
find_tenant_by_external s provider issuer external =
    tenant_of s (first (has_mapping provider issuer external) (values s.tenant_identity_mappings))

unfoldable pub create_tenant_identity_mapping :
    (new_id tenant_id provider issuer external : String)
    → InMemoryStore
    → TenantIdentityMapping × InMemoryStore
create_tenant_identity_mapping new_id tenant_id provider issuer external s =
    let m : TenantIdentityMapping = record {
      id = new_id;
      tenant_id = tenant_id;
      provider = provider;
      issuer = issuer;
      external_tenant_id = external;
    } in
    (m, record s { tenant_identity_mappings = insert new_id m s.tenant_identity_mappings })
