-- ===== src/Tests/Contexts.antt =====
-- The tenant resolver, and the guards for tools and for the Model Context Protocol.
use authz.Base.{
  Bool, true, false, none, some, [], ◌∷◌, ok, ◌≡◌, refl, ◌==◌, string_eq, pair_eq, option_eq,
  if◌then◌else◌,
}
use authz.Tenancy.Models.{Tenant, Application, User, ExternalIdentity, Membership}
use authz.Tenancy.Resolver.{
  IdentityPrincipal, UserContext, TenancyRepository, TenantContextResolver, resolve_user,
  resolve_tenant, membership_in, resolve_for, resolve, resolve_membership_permissions,
}
use authz.Tenancy.Resolver.Sources.{IsUser, IsTenant, IsMember, HasPermissions}
use authz.Tenancy.Resolver.Laws.{resolve_sound}

abbrev acme : Tenant
acme = record { id = "t1"; slug = "acme"; name = "Acme"; status = "active" }

abbrev crm : Application
crm = record { id = "a1"; slug = "crm"; name = "CRM"; status = "active"; managed_by = none }

abbrev ann : User
ann = record { id = "u1"; display_name = none; email = none; status = "active" }

abbrev ann_identity : ExternalIdentity
ann_identity = record {
  id = "i1";
  user_id = "u1";
  provider = "oidc";
  issuer = "https://id";
  subject = "ann";
  external_tenant_id = none;
  email = none;
}

abbrev ann_membership : Membership
ann_membership = record {
  id = "m1";
  tenant_id = "t1";
  user_id = "u1";
  application_id = some "a1";
  roles = "editor" ∷ [];
  status = "active";
}

-- A directory whose state says whether Ann has been provisioned.
abbrev directory : TenancyRepository Bool
directory = record {
  get_application_by_slug = λ s slug. if slug == "crm" then some crm else none;
  get_tenant = λ s t. if t == "t1" then some acme else none;
  get_membership = λ s t a u. if a == some "a1" then some ann_membership else none;
  find_user_by_external_identity = λ s provider issuer subject. if s then some ann else none;
  upsert_user_from_identity = λ provider issuer subject email tenant s. ((ann, ann_identity), true);
  find_tenant_by_external = λ s provider issuer external. none;
  list_memberships_for_user = λ s u. ann_membership ∷ [];
  resolve_user_permissions = λ s t a u. "doc.read" ∷ [];
}

abbrev resolver : Bool → TenantContextResolver Bool
resolver provision = record { repository = directory; allow_auto_provision_user = provision }

abbrev principal : IdentityPrincipal
principal = record {
  provider = "oidc";
  issuer = "https://id";
  subject = "ann";
  email = none;
  external_tenant_id = none;
}

abbrev context : UserContext
context = record {
  tenant_id = "t1";
  application_id = "a1";
  user_id = "u1";
  roles = "editor" ∷ [];
  permissions = "doc.read" ∷ [];
}

resolves : resolve (resolver true) principal "crm" (some "t1") false ≡ (ok context, true)
unfolding resolve resolve_user resolve_for resolve_tenant membership_in
    resolve_membership_permissions
resolves = refl

resolve_sound_example :
    (application : Application) × (user : User) × (tenant : Tenant) × (m : Membership) × ((directory
          ).get_application_by_slug
        false "crm"
      ≡ some application)
    × IsUser (resolver true) principal false user true
    × IsTenant (resolver true) principal (some "t1") true tenant
    × (tenant.status ≡ "active")
    × IsMember (resolver true) principal true tenant.id application.id user.id m
    × ((context).tenant_id ≡ tenant.id)
    × ((context).application_id ≡ application.id)
    × ((context).user_id ≡ user.id)
    × ((context).roles ≡ m.roles)
    × HasPermissions (resolver true) principal true m ((context).permissions)
resolve_sound_example =
    resolve_sound (resolver true) principal "crm" (some "t1") false context true resolves
