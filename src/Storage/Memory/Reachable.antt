-- ===== src/Storage/Memory/Reachable.antt =====
-- authzkit/storage/memory.py: the stores that sequences of writing calls build.
pub mod Invariant
use authz.Base.{
  String, true, ◌≡◌, refl, inl, inr, Option, none, some, List, [], ◌∷◌, ok, lookup, lookup-insert,
  insert, values, values-insert_new, get_or, get_or-insert, contains, contains-map-Elem, Elem,
  Elem-append_left, ◌==◌, string_eq, pair_eq, option_eq, arith, Bool-cases, Option-cases,
}
use mathlib.Core.Path.{subst}
use authz.Policies.Value.{Value}
use authz.Rbac.Models.{Permission, Role, RoleScope}
use authz.Tenancy.Models.{Membership}
use authz.Storage.Memory.{
  InMemoryStore, empty, create_tenant, create_application, set_application_managed_by,
  upsert_user_from_identity, create_tenant_identity_mapping,
}
use authz.Storage.Memory.Roles.{
  within, create_role, create_permission, set_role_permissions, find_assignable_roles,
}
use authz.Storage.Memory.Roles.Laws.{find_assignable_roles-from}
use authz.Storage.Memory.Members.{
  assigned_ids, create_membership, set_membership_roles, names_or_none,
}
use authz.Storage.Memory.Agents.{create_agent, set_agent_roles}
use authz.Storage.Memory.Resolution.{set_tenant_permission_mask, set_tenant_feature_flag}

-- A role of the store that this membership may have.
abbrev pub Linkable : InMemoryStore → Membership → String → Type 0
Linkable s m rid =
    (role : Role) × Elem role (values s.roles)
    × (rid ≡ role.id)
    × (within m.tenant_id role.tenant_id ≡ true)
    × (role.application_id ≡ m.application_id)
    × (role.agent_id ≡ none)

-- A membership is linked to such roles only.
pub record IsSafe (s : InMemoryStore) : Type 0 where
  pub links :
      (mid : String) (m : Membership) (rid : String)
      → lookup mid s.memberships ≡ some m
      → contains rid (get_or mid [] s.membership_roles) ≡ true
      → Linkable s m rid

pub empty-IsSafe : IsSafe empty
unfolding lookup
empty-IsSafe = record { links = λ mid m rid e h. absurd (cc) }

assigned-Linkable :
    (s s' : InMemoryStore) (m : Membership) (names : List String) (rid : String)
    → contains rid (assigned_ids s m.tenant_id m.application_id names) ≡ true
    → s'.roles ≡ s.roles
    → Linkable s' m rid
unfolding assigned_ids
assigned-Linkable s s' m names rid h e =
    let found = find_assignable_roles s m.tenant_id m.application_id names in
    let (role, there, same) = contains-map-Elem (λ (r : Role). r.id) (values found) rid h in
    let (stored, fits) =
      find_assignable_roles-from s m.tenant_id m.application_id names role there in
    (
      role,
      rw e stored,
      same,
      ground arith,
      ground (arith, (option_eq {A = String}).beq_iff role.application_id m.application_id),
      ground arith,
    )

some_inj : {A : Type 0} {a b : A} → some a ≡ some b → a ≡ b
some_inj h = cc

-- Writing a membership together with links that its names resolve to.
pub written-IsSafe :
    (s s' : InMemoryStore) (mid : String) (m : Membership) (names : List String)
    → IsSafe s
    → s'.roles ≡ s.roles
    → s'.memberships ≡ insert mid m s.memberships
    → s'.membership_roles
      ≡ insert mid (assigned_ids s m.tenant_id m.application_id names) s.membership_roles
    → IsSafe s'
written-IsSafe s s' mid m names safe roles members linked = record {
  links = λ j q rid e h.
      let e' = lookup-insert mid j m s.memberships in
      let h' =
        get_or-insert mid j (assigned_ids s m.tenant_id m.application_id names) []
          s.membership_roles in
      elim (Bool-cases (mid == j)) [
        | inl same ↦
            let is_m : m ≡ q = some_inj (rw (members, e', same) at e) in
            subst (λ (x : Membership). Linkable s' x rid) is_m
              (assigned-Linkable s s' m names rid (rw (linked, h', same) at h) roles)
        | inr other ↦
            rw roles
              (safe.links j q rid (rw (members, e', other) at e) (rw (linked, h', other) at h))
      ];
}

-- A write elsewhere, and a role that is added under a new id.
pub kept-IsSafe :
    (s s' : InMemoryStore)
    → IsSafe s
    → s'.roles ≡ s.roles
    → s'.memberships ≡ s.memberships
    → s'.membership_roles ≡ s.membership_roles
    → IsSafe s'
kept-IsSafe s s' safe roles members linked = record {
  links = λ j q rid e h. rw roles (safe.links j q rid (rw members at e) (rw linked at h));
}

pub role_added-IsSafe :
    (s s' : InMemoryStore) (rid : String) (role : Role)
    → IsSafe s
    → lookup rid s.roles ≡ none
    → s'.roles ≡ insert rid role s.roles
    → s'.memberships ≡ s.memberships
    → s'.membership_roles ≡ s.membership_roles
    → IsSafe s'
role_added-IsSafe s s' rid role safe fresh roles members linked = record {
  links = λ j q r e h.
      let (old, there, a, b, c, d) = safe.links j q r (rw members at e) (rw linked at h) in
      (
        old,
        rw roles (
            rw (values-insert_new rid role s.roles fresh)
              (Elem-append_left old (values s.roles) (role ∷ []) there)),
        a,
        b,
        c,
        d,
      );
}

-- One call of a method that writes; calls that raise write nothing. `create_role` is given a new id.
pub data Step (s : InMemoryStore) : InMemoryStore → Type 0 where
  tenant_step : (id slug name status : String) → Step s (create_tenant id slug name status s).1
  application_step :
      (id slug name status : String) (managed_by : Option String)
      → Step s (create_application id slug name status managed_by s).1
  managed_step :
      (id : String) (managed_by : Option String)
      → Step s (set_application_managed_by s id managed_by)
  user_step :
      (user_id identity_id provider issuer subject : String) (email tenant name : Option String)
      → Step s
          (upsert_user_from_identity user_id identity_id provider issuer subject email tenant name
            s).1
  mapping_step :
      (id tenant provider issuer external : String)
      → Step s (create_tenant_identity_mapping id tenant provider issuer external s).1
  membership_step :
      (id tenant : String) (application : Option String) (user status : String)
      (roles : Option (List String))
      → Step s (create_membership id tenant application user status roles s).1
  membership_roles_step :
      (id : String) (names : List String) {s' : InMemoryStore}
      → set_membership_roles s id names ≡ ok s'
      → Step s s'
  role_step :
      (id name : String) (scope : RoleScope) (application tenant description : Option String)
      → lookup id s.roles ≡ none
      → Step s (create_role id name scope application tenant description s).1
  permission_step :
      (name : String) (application description : Option String) {p : Permission}
      {s' : InMemoryStore}
      → create_permission name application description s ≡ ok (p, s')
      → Step s s'
  role_permissions_step :
      (id : String) (names : List String) {s' : InMemoryStore}
      → set_role_permissions s id names ≡ ok s'
      → Step s s'
  agent_step :
      (id tenant application name role status : String) (created_by display_name : Option String)
      → Step s (create_agent id tenant application name role status created_by display_name s).1
  agent_roles_step :
      (id : String) (names : List String) {s' : InMemoryStore}
      → set_agent_roles s id names ≡ ok s'
      → Step s s'
  mask_step :
      (tenant application : String) (permissions : List String)
      → Step s (set_tenant_permission_mask s tenant application permissions)
  flag_step :
      (tenant : String) (application : Option String) (key : String) (value : Value)
      → Step s (set_tenant_feature_flag s tenant application key value)

pub data Reach : InMemoryStore → Type 0 where
  start : Reach empty
  next : {s s' : InMemoryStore} → Reach s → Step s s' → Reach s'
