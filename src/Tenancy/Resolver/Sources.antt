-- ===== src/Tenancy/Resolver/Sources.antt =====
-- authzkit/tenancy/resolver.py: where the parts of a resolved context come from.
use authz.Base.{
  String, true, false, Option, none, some, List, [], ◌∷◌, map, keep, all, ok, Option-cases,
  Bool-cases, ◌⊎◌, inl, inr, ◌==◌, string_eq, eq_iff, ==-refl, Elem, ◌≡◌, refl, sym, arith,
}
use mathlib.Core.Path.{subst}
use authz.Tenancy.Models.{Tenant, Application, User, ExternalIdentity, Membership}
use authz.Tenancy.Resolver.{
  IdentityPrincipal, UserContext, TenantContextResolver, the_only, resolve_user, resolve_tenant,
  resolve_membership_permissions, tenant_by_identity, tenant_by_membership, membership_in,
  context_of,
}

module _ {S : Type 0} (resolver : TenantContextResolver S) (p : IdentityPrincipal) where
  -- The user of the identity: found, or provisioned if the resolver may.
  abbrev pub IsUser : S → User → S → Type 0
  IsUser s user after =
      let found =
        (resolver).repository.find_user_by_external_identity s p.provider p.issuer p.subject in
      ((found ≡ some user) × (after ≡ s))
      ⊎ ((found ≡ none)
          × ((resolver).allow_auto_provision_user ≡ true)
          × ((identity : ExternalIdentity) × ((resolver).repository.upsert_user_from_identity
                  p.provider p.issuer p.subject p.email p.external_tenant_id s
                ≡ ((user, identity), after))))

  -- A text that is given.
  abbrev pub Gives : Option String → String → Type 0
  Gives o name = (o ≡ some name) × ((name == "") ≡ false)

  -- No text is given.
  abbrev pub GivesNone : Option String → Type 0
  GivesNone o = (o ≡ none) ⊎ (o ≡ some "")

  -- The tenants of the user's active memberships.
  abbrev pub tenants_of : S → User → List String
  tenants_of s user =
      map (λ (m : Membership). m.tenant_id)
        (keep (λ (m : Membership). m.status == "active")
          ((resolver).repository.list_memberships_for_user s user.id))

  -- The tenant that is named or, where none is named, the one that the identity's tenant is mapped to or
  -- the only one in which the user of the identity has active memberships.
  abbrev pub IsTenant : Option String → S → Tenant → Type 0
  IsTenant explicit s tenant =
      ((name : String) × Gives explicit name
        × ((resolver).repository.get_tenant s name ≡ some tenant))
      ⊎ ((external : String) × GivesNone explicit
          × Gives p.external_tenant_id external
          × ((resolver).repository.find_tenant_by_external s p.provider p.issuer external
              ≡ some tenant))
      ⊎ ((user : User) × (tenant_id : String) × GivesNone explicit
          × ((resolver).repository.find_user_by_external_identity s p.provider p.issuer p.subject
              ≡ some user)
          × Elem tenant_id (tenants_of s user)
          × (all (λ t. t == tenant_id) (tenants_of s user) ≡ true)
          × ((resolver).repository.get_tenant s tenant_id ≡ some tenant))

  -- The user's membership: of the application if there is one, else the tenant-wide one; it is active.
  abbrev pub IsMember : S → (tenant application user : String) → Membership → Type 0
  IsMember s tenant application user m =
      let own = (resolver).repository.get_membership s tenant (some application) user in
      let wide = (resolver).repository.get_membership s tenant none user in
      ((own ≡ some m) ⊎ ((own ≡ none) × (wide ≡ some m))) × (m.status ≡ "active")

  -- The permissions of a membership: a tenant-wide one has none of its own.
  abbrev pub HasPermissions : S → Membership → List String → Type 0
  HasPermissions s m permissions =
      ((m.application_id ≡ none) × (permissions ≡ []))
      ⊎ ((application : String) × (m.application_id ≡ some application)
          × (permissions
              ≡ (resolver).repository.resolve_user_permissions s m.tenant_id application m.user_id))

  pub resolve_user-IsUser :
      (s after : S) (user : User)
      → resolve_user resolver p s ≡ (ok user, after)
      → IsUser s user after
  unfolding resolve_user
  resolve_user-IsUser s after user h =
      elim (Option-cases
        ((resolver).repository.find_user_by_external_identity s p.provider p.issuer p.subject)) [
          | inr (known, found) ↦ inl (ground arith, ground arith)
          | inl unknown ↦ elim (Bool-cases ((resolver).allow_auto_provision_user)) [
            | inr refused ↦ absurd (ground arith)
            | inl allowed ↦ inr (
              unknown,
              allowed,
              (
                ((resolver).repository.upsert_user_from_identity p.provider p.issuer p.subject
                    p.email p.external_tenant_id s).0.1,
                ground arith,
              ),
            )
          ]
        ]

  the_only-Elem :
      (ids : List String) (id : String)
      → the_only ids ≡ some id
      → Elem id ids × (all (λ t. t == id) ids ≡ true)
  unfolding the_only all
  the_only-Elem [] id h = absurd (cc)
  the_only-Elem (x ∷ ids) id h = elim (Bool-cases (all (λ y. y == x) ids)) [
    | inr several ↦ absurd (ground arith)
    | inl alone ↦
        let same : id ≡ x = ground arith in
        let all_x : all (λ t. t == x) (x ∷ ids) ≡ true = rw (==-refl x) alone in
        (inl same, subst (λ (i : String). all (λ t. t == i) (x ∷ ids) ≡ true) (sym same) all_x)
  ]

  by_identity :
      (explicit : Option String) (s : S) (tenant : Tenant)
      → tenant_by_identity resolver p s ≡ some tenant
      → GivesNone explicit
      → IsTenant explicit s tenant
  unfolding tenant_by_identity
  by_identity explicit s tenant h unnamed = elim (Option-cases p.external_tenant_id) [
    | inl e ↦ absurd (ground arith)
    | inr (external, e) ↦ elim (Bool-cases (external == "")) [
      | inl empty ↦ absurd (ground arith)
      | inr given ↦ inr (inl (external, unnamed, (e, given), ground arith))
    ]
  ]

  by_membership :
      (explicit : Option String) (s : S) (tenant : Tenant)
      → tenant_by_membership resolver p s ≡ some tenant
      → GivesNone explicit
      → IsTenant explicit s tenant
  unfolding tenant_by_membership
  by_membership explicit s tenant h unnamed =
      elim (Option-cases
        ((resolver).repository.find_user_by_external_identity s p.provider p.issuer p.subject)) [
          | inl e ↦ absurd (ground arith)
          | inr (user, e) ↦ elim (Option-cases (the_only (tenants_of s user))) [
            | inl several ↦ absurd (ground arith)
            | inr (id, only) ↦
                let (there, alone) = the_only-Elem (tenants_of s user) id only in
                inr (inr (user, id, unnamed, e, there, alone, ground arith))
          ]
        ]

  pub resolve_tenant-IsTenant :
      (explicit : Option String) (s : S) (tenant : Tenant)
      → resolve_tenant resolver p explicit s ≡ ok tenant
      → IsTenant explicit s tenant
  unfolding resolve_tenant
  resolve_tenant-IsTenant none s tenant h = elim (Option-cases (tenant_by_identity resolver p s)) [
    | inr (t, e) ↦ by_identity none s tenant (ground arith) (inl refl)
    | inl e ↦ elim (Option-cases (tenant_by_membership resolver p s)) [
      | inr (t, e') ↦ by_membership none s tenant (ground arith) (inl refl)
      | inl e' ↦ absurd (ground arith)
    ]
  ]
  resolve_tenant-IsTenant (some name) s tenant h = elim (Bool-cases (name == "")) [
    | inr given ↦ elim (Option-cases ((resolver).repository.get_tenant s name)) [
      | inr (t, e) ↦ inl (name, (refl, given), ground arith)
      | inl e ↦ absurd (ground arith)
    ]
    | inl empty ↦
        let unnamed : some name ≡ some "" = ground (arith, eq_iff name "") in
        elim (Option-cases (tenant_by_identity resolver p s)) [
          | inr (t, e) ↦ by_identity (some name) s tenant (ground arith) (inr unnamed)
          | inl e ↦ elim (Option-cases (tenant_by_membership resolver p s)) [
            | inr (t, e') ↦ by_membership (some name) s tenant (ground arith) (inr unnamed)
            | inl e' ↦ absurd (ground arith)
          ]
        ]
  ]

  pub membership_in-IsMember :
      (s : S) (tenant application user : String) (m : Membership)
      → membership_in resolver s tenant application user ≡ ok m
      → IsMember s tenant application user m
  unfolding membership_in
  membership_in-IsMember s tenant application user m h =
      elim (Option-cases ((resolver).repository.get_membership s tenant (some application) user)) [
        | inr (own, e) ↦ ground (arith, eq_iff own.status "active")
        | inl e ↦ elim (Option-cases ((resolver).repository.get_membership s tenant none user)) [
          | inr (wide, e') ↦ ground (arith, eq_iff wide.status "active")
          | inl e' ↦ absurd (ground arith)
        ]
      ]

  permissions-HasPermissions :
      (s : S) (m : Membership) → HasPermissions s m (resolve_membership_permissions resolver s m)
  unfolding resolve_membership_permissions
  permissions-HasPermissions s m = elim (Option-cases m.application_id) [
    | inl wide ↦ inl (wide, rw wide refl)
    | inr (application, e) ↦ inr (application, e, rw e refl)
  ]

  pub context_of-parts :
      (s : S) (tenant : Tenant) (application : Application) (user : User) (m : Membership)
      (c : UserContext)
      → c ≡ context_of resolver s tenant application user m
      → (c.tenant_id ≡ tenant.id)
        × (c.application_id ≡ application.id)
        × (c.user_id ≡ user.id)
        × (c.roles ≡ m.roles)
        × HasPermissions s m c.permissions
  context_of-parts s tenant application user m c same =
      rw same (refl, refl, refl, refl, permissions-HasPermissions s m)
