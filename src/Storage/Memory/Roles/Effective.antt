-- ===== src/Storage/Memory/Roles/Effective.antt =====
-- authzkit/storage/memory.py: the role that a link stands for.
use authz.Base.{
  String, true, not, ◌&&◌, ◌≡◌, ◌⊎◌, inl, inr, some, [], ◌∷◌, Dict, lookup, values, first, Elem,
  first-Elem, ◌==◌, string_eq, option_eq, eq_iff, arith, Option-cases, Bool-cases,
}
use authz.Rbac.Models.{Role}
use authz.Rbac.Requests.{is_some}
use authz.Storage.Memory.{InMemoryStore}
use authz.Storage.Memory.Roles.{within, overrides, effective_role}

lookup-Elem :
    (k : String) (d : Dict String Role) (v : Role) → lookup k d ≡ some v → Elem v (values d)
unfolding lookup values
lookup-Elem k [] v h = absurd (cc)
lookup-Elem k ((j, w) ∷ d) v h = elim (Bool-cases (j == k)) [
  | inl hit ↦ inl (ground arith)
  | inr miss ↦ inr (lookup-Elem k d v (rw miss at h))
]

-- What a role that is linked stands for in a tenant: itself, or the tenant's own role of its name. Either
-- way both are roles of the store, and neither is bound to another tenant.
pub record StandsFor (s : InMemoryStore) (tenant link : String) (role : Role) : Type 0 where
  pub base : Role
  pub is_linked : lookup link s.roles ≡ some base
  pub base_within : within tenant base.tenant_id ≡ true
  pub there : Elem role (values s.roles)
  pub inside : within tenant role.tenant_id ≡ true
  pub is_base_or_override : (role ≡ base) ⊎ (overrides tenant base role ≡ true)

pub effective_role-StandsFor :
    (s : InMemoryStore) (tenant link : String) (role : Role)
    → effective_role s tenant (lookup link s.roles) ≡ some role
    → StandsFor s tenant link role
effective_role-StandsFor s tenant link role h = elim (Option-cases (lookup link s.roles)) [
  | inl e ↦ absurd (cc)
  | inr (base, e) ↦ elim (Bool-cases (within tenant base.tenant_id)) [
    | inr foreign ↦ absurd (cc)
    | inl inside ↦
        let found = lookup-Elem link s.roles base e in
        let plain : role ≡ base → StandsFor s tenant link role = λ same. record {
          base = base;
          is_linked = e;
          base_within = inside;
          there = rw same found;
          inside = rw same inside;
          is_base_or_override = inl same;
        } in
        elim (Bool-cases (not (is_some base.tenant_id) && not (is_some base.agent_id))) [
          | inr bound ↦ plain (ground arith)
          | inl wide ↦ elim (Option-cases (first (overrides tenant base) (values s.roles))) [
            | inl alone ↦ plain (ground arith)
            | inr (o, hit) ↦
                let (stored, fits) = first-Elem (overrides tenant base) (values s.roles) o hit in
                let same : role ≡ o = ground arith in
                record {
                  base = base;
                  is_linked = e;
                  base_within = inside;
                  there = rw same stored;
                  inside = rw same (
                      ground (
                        arith,
                        (option_eq {A = String}).beq_iff o.tenant_id (some tenant),
                        eq_iff tenant tenant,
                      ));
                  is_base_or_override = inr (rw same fits);
                }
          ]
        ]
  ]
]
