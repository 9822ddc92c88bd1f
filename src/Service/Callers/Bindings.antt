-- ===== src/Service/Callers/Bindings.antt =====
-- authz_service/dependencies.py: which tenants a caller may ask for.
use authz.Base.{
  String, true, none, some, ok, contains, string_eq, eq_iff, ◌≡◌, ◌↔◌, ◌⊎◌, inl, inr, arith,
  Option-cases,
}
use authz.Security.Scopes.{tenant_scope, tenant_scope_matches}
use authz.Security.Principal.{Principal, principal_tenant_id, principal_scopes}
use authz.Service.Callers.Require.{enforce_tenant_scope_binding}

-- A caller without a tenant, or of this one.
abbrev pub IsUnpinned : Principal → String → Type 0
IsUnpinned principal tenant_id =
    (principal_tenant_id principal ≡ none) ⊎ (principal_tenant_id principal ≡ some tenant_id)

abbrev pub HasTenantScope : Principal → String → Type 0
HasTenantScope principal tenant_id =
    (contains "admin" (principal_scopes principal) ≡ true)
    ⊎ (contains "runtime" (principal_scopes principal) ≡ true)
    ⊎ (contains (tenant_scope tenant_id) (principal_scopes principal) ≡ true)

-- The binding lets a caller through just if it has no tenant of its own or this one, and a scope for it:
-- `admin`, `runtime` or `tenant:<id>`. A caller of another tenant is refused even with `admin`.
pub enforce_tenant_scope_binding_iff :
    (principal : Principal) (tenant_id : String)
    → (enforce_tenant_scope_binding principal tenant_id ≡ ok tt)
      ↔ (IsUnpinned principal tenant_id × HasTenantScope principal tenant_id)
unfolding enforce_tenant_scope_binding tenant_scope_matches
enforce_tenant_scope_binding_iff principal tenant_id =
    elim (Option-cases (principal_tenant_id principal)) [
      | inl free ↦ ground arith
      | inr (pin, pinned) ↦ ground (arith, eq_iff pin tenant_id)
    ]
