-- ===== src/Tenancy/Resolver/Laws.antt =====
-- authzkit/tenancy/resolver.py: what a resolved context says of the store.
use authz.Base.{
  String, true, false, Option, some, ok, Result-cases, Option-cases, inl, inr, ◌==◌, string_eq,
  eq_iff, ◌≡◌, arith,
}
use authz.Tenancy.Resolver.Sources.{
  IsUser, IsTenant, IsMember, HasPermissions, resolve_user-IsUser, resolve_tenant-IsTenant,
  membership_in-IsMember, context_of-parts,
}
use authz.Tenancy.Models.{Tenant, Application, User, Membership}
use authz.Tenancy.Resolver.{
  IdentityPrincipal, UserContext, TenantContextResolver, resolve_user, resolve_tenant,
  membership_in, context_of, resolve_for, resolve,
}

module _ {S : Type 0} (resolver : TenantContextResolver S) (p : IdentityPrincipal) where
  resolve_for-ok :
      (explicit : Option String) (application : Application) (user : User) (s : S) {c : UserContext}
      → resolve_for resolver p explicit application user s ≡ ok c
      → (tenant : Tenant) × (m : Membership) × (resolve_tenant resolver p explicit s ≡ ok tenant)
        × ((tenant.status == "active") ≡ true)
        × (membership_in resolver s (tenant.id) (application.id) (user.id) ≡ ok m)
        × (c ≡ context_of resolver s tenant application user m)
  unfolding resolve_for
  resolve_for-ok explicit application user s {c} h =
      elim (Result-cases (resolve_tenant resolver p explicit s)) [
        | inr (e, failed) ↦ ground arith
        | inl (tenant, found) ↦
            elim (Result-cases (membership_in resolver s (tenant.id) (application.id) (user.id))) [
              | inr (e, failed) ↦ ground arith
              | inl (m, member) ↦ (tenant, m, found, ground arith, member, ground arith)
            ]
      ]

  resolve-ok :
      (slug : String) (explicit : Option String) (s : S) {c : UserContext} {after : S}
      → resolve resolver p slug explicit s ≡ (ok c, after)
      → (application : Application) × (user : User) × ((resolver).repository.get_application_by_slug
            s slug
          ≡ some application)
        × (resolve_user resolver p s ≡ (ok user, after))
        × (resolve_for resolver p explicit application user after ≡ ok c)
  unfolding resolve
  resolve-ok slug explicit s {c} {after} h =
      elim (Option-cases ((resolver).repository.get_application_by_slug s slug)) [
        | inl unknown ↦ ground arith
        | inr (application, known) ↦ elim (Result-cases (resolve_user resolver p s).0) [
          | inr (e, failed) ↦ ground arith
          | inl (user, found) ↦ (application, user, known, ground arith, ground arith)
        ]
      ]

  -- A context that `resolve` returns is that of the application of the slug; of the identity's user,
  -- found or provisioned; of a tenant that is active and is the one named or, where none is named, the one
  -- that the identity's tenant is mapped to or the only one of the user's active memberships; and of the user's
  -- active membership there, the application's own or else the tenant-wide one. It has that membership's
  -- roles and permissions. The tenant and the membership are read in the state that `resolve` leaves.
  pub resolve_sound :
      (slug : String) (explicit : Option String) (s : S) (c : UserContext) (after : S)
      → resolve resolver p slug explicit s ≡ (ok c, after)
      → (application : Application) × (user : User) × (tenant : Tenant) × (m : Membership)
        × ((resolver).repository.get_application_by_slug s slug ≡ some application)
        × IsUser resolver p s user after
        × IsTenant resolver p explicit after tenant
        × (tenant.status ≡ "active")
        × IsMember resolver p after tenant.id application.id user.id m
        × (c.tenant_id ≡ tenant.id)
        × (c.application_id ≡ application.id)
        × (c.user_id ≡ user.id)
        × (c.roles ≡ m.roles)
        × HasPermissions resolver p after m c.permissions
  resolve_sound slug explicit s c after h =
      let (application, user, known, found, rest) = resolve-ok slug explicit s h in
      let (tenant, m, belongs, is_active, member, same) =
        resolve_for-ok explicit application user after rest in
      let (in_tenant, in_application, of_user, roles, permissions) =
        context_of-parts resolver p after tenant application user m c same in
      (
        application,
        user,
        tenant,
        m,
        known,
        resolve_user-IsUser resolver p s after user found,
        resolve_tenant-IsTenant resolver p explicit after tenant belongs,
        ground (arith, eq_iff tenant.status "active"),
        membership_in-IsMember resolver p after tenant.id application.id user.id m member,
        in_tenant,
        in_application,
        of_user,
        roles,
        permissions,
      )

  -- Without auto-provisioning, `resolve` changes nothing.
  resolve-unchanged :
      (slug : String) (explicit : Option String) (s : S)
      → (resolver).allow_auto_provision_user ≡ false
      → (resolve resolver p slug explicit s).1 ≡ s
  unfolding resolve resolve_user
  resolve-unchanged slug explicit s off = ground arith
