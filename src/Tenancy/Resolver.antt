-- ===== src/Tenancy/Resolver.antt =====
-- authzkit/tenancy/resolver.py: from an external identity to a user in a tenant and an application.
-- `TenancyRepository` is what it asks of its repositories (authzkit/tenancy/repository.py,
-- authzkit/rbac/repository.py), over the state `S` that they keep; what a failing call has
-- written stays written.
pub mod Sources
pub mod Laws
use Prim.Native.String.{◌++◌}
use authz.Base.{
  String, Bool, true, false, not, Option, none, some, List, [], ◌∷◌, map, Result, ok, err, ◌>>=◌,
  guard, keep, all, ◌==◌, string_eq, if◌then◌else◌,
}
use authz.Exceptions.{AuthzError, invalid_request, tenant_not_active, no_active_membership}
use authz.Tenancy.Models.{Tenant, Application, User, ExternalIdentity, Membership}

-- authzkit/identity/base.py
pub record IdentityPrincipal : Type 0 where
  pub provider : String
  pub issuer : String
  pub subject : String
  pub email : Option String
  pub external_tenant_id : Option String

pub record UserContext : Type 0 where
  pub tenant_id : String
  pub application_id : String
  pub user_id : String
  pub roles : List String
  pub permissions : List String

pub record TenancyRepository (S : Type 0) : Type 0 where
  pub get_application_by_slug : S → String → Option Application
  pub get_tenant : S → String → Option Tenant
  pub get_membership : S → String → Option String → String → Option Membership
  pub find_user_by_external_identity : S → (provider issuer subject : String) → Option User
  -- The provider, the issuer, the subject, the e-mail address and the tenant's name at the provider.
  pub upsert_user_from_identity :
      String → String → String → Option String → Option String → S → (User × ExternalIdentity) × S
  pub find_tenant_by_external : S → (provider issuer external : String) → Option Tenant
  pub list_memberships_for_user : S → String → List Membership
  -- The tenant, the application and the user, in this order.
  pub resolve_user_permissions : S → String → String → String → List String

pub record TenantContextResolver (S : Type 0) : Type 0 where
  pub repository : TenancyRepository S
  pub allow_auto_provision_user : Bool

-- The element of a set that has one.
unfoldable pub the_only : List String → Option String
the_only [] = none
the_only (x ∷ xs) = if all (λ y. y == x) xs then some x else none

-- `if text:` on an optional text
abbrev filled : Option String → Option String
filled none = none
filled (some x) = if x == "" then none else some x

abbrev or_else {ℓ} : {A : Type ℓ} → Option A → Option A → Option A
or_else (some a) b = some a
or_else none b = b

module _ {S : Type 0} (resolver : TenantContextResolver S) where
  -- `_resolve_user`
  unfoldable pub resolve_user : IdentityPrincipal → S → Result AuthzError User × S
  resolve_user p s =
      elim ((resolver).repository.find_user_by_external_identity s p.provider p.issuer p.subject) [
        | some user ↦ (ok user, s)
        | none ↦
            if not (resolver).allow_auto_provision_user
            then (err (no_active_membership "user not provisioned"), s)
            else let ((user, identity), after) =
                (resolver).repository.upsert_user_from_identity p.provider p.issuer p.subject
                  p.email p.external_tenant_id s in
              (ok user, after)
      ]

  -- The tenant of the only tenant that the user is an active member of.
  unfoldable pub tenant_by_membership : IdentityPrincipal → S → Option Tenant
  tenant_by_membership p s =
      elim ((resolver).repository.find_user_by_external_identity s p.provider p.issuer p.subject) [
        | none ↦ none
        | some user ↦
            elim (the_only (
              map (λ (m : Membership). m.tenant_id)
                (keep (λ (m : Membership). m.status == "active")
                  ((resolver).repository.list_memberships_for_user s user.id)))) [
                    | none ↦ none
                    | some tenant_id ↦ (resolver).repository.get_tenant s tenant_id
                  ]
      ]

  unfoldable pub tenant_by_identity : IdentityPrincipal → S → Option Tenant
  tenant_by_identity p s = elim (filled p.external_tenant_id) [
    | none ↦ none
    | some external ↦ (resolver).repository.find_tenant_by_external s p.provider p.issuer external
  ]

  abbrev tenant_or : AuthzError → Option Tenant → Result AuthzError Tenant
  tenant_or e none = err e
  tenant_or e (some tenant) = ok tenant

  -- `_resolve_tenant`
  unfoldable pub resolve_tenant :
      IdentityPrincipal → (explicit_tenant_id : Option String) → S → Result AuthzError Tenant
  resolve_tenant p explicit_tenant_id s = elim (filled explicit_tenant_id) [
    | some tenant_id ↦
        tenant_or (invalid_request ("unknown tenant: " ++ tenant_id))
          ((resolver).repository.get_tenant s tenant_id)
    | none ↦
        tenant_or (no_active_membership "could not resolve tenant for principal")
          (or_else (tenant_by_identity p s) (tenant_by_membership p s))
  ]

  -- `resolve_membership_permissions` of authzkit/rbac/resolver.py
  unfoldable pub resolve_membership_permissions : S → Membership → List String
  resolve_membership_permissions s m = elim m.application_id [
    | none ↦ []
    | some application ↦
        (resolver).repository.resolve_user_permissions s m.tenant_id application m.user_id
  ]

  abbrev missing : String → String → AuthzError
  missing tenant user =
      no_active_membership ("user " ++ (user ++ (" has no active membership in tenant " ++ tenant)))

  -- The membership of the application, else the tenant-wide one; it has to be active.
  unfoldable pub membership_in :
      S → (tenant application user : String) → Result AuthzError Membership
  membership_in s tenant application user =
      elim (or_else ((resolver).repository.get_membership s tenant (some application) user)
        ((resolver).repository.get_membership s tenant none user)) [
          | none ↦ err (missing tenant user)
          | some m ↦ if m.status == "active" then ok m else err (missing tenant user)
        ]

  abbrev pub context_of : S → Tenant → Application → User → Membership → UserContext
  context_of s tenant application user m = record {
    tenant_id = tenant.id;
    application_id = application.id;
    user_id = user.id;
    roles = m.roles;
    permissions = resolve_membership_permissions s m;
  }

  -- `resolve` from the user on
  unfoldable pub resolve_for :
      IdentityPrincipal → Option String → Application → User → S → Result AuthzError UserContext
  resolve_for p explicit_tenant_id application user s = do
    tenant ← resolve_tenant p explicit_tenant_id s
    checked ← guard (tenant.status == "active") (tenant_not_active (tenant.id))
    m ← membership_in s (tenant.id) (application.id) (user.id)
    ok (context_of s tenant application user m)

  abbrev continue :
      (User → S → Result AuthzError UserContext)
      → Result AuthzError User × S
      → Result AuthzError UserContext × S
  continue f (ok user, s) = (f user s, s)
  continue f (err e, s) = (err e, s)

  unfoldable pub resolve :
      IdentityPrincipal
      → (application_slug : String) → (explicit_tenant_id : Option String) → S
      → Result AuthzError UserContext × S
  resolve p application_slug explicit_tenant_id s =
      elim ((resolver).repository.get_application_by_slug s application_slug) [
        | none ↦ (err (invalid_request ("unknown application: " ++ application_slug)), s)
        | some application ↦
            continue (resolve_for p explicit_tenant_id application) (resolve_user p s)
      ]
