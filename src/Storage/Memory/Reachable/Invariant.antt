-- ===== src/Storage/Memory/Reachable/Invariant.antt =====
-- authzkit/storage/memory.py: the memberships' links to roles, call by call.
use authz.Base.{
  String, true, ◌≡◌, refl, inl, inr, Option, some, List, [], ok, lookup, get_or, contains,
  string_eq, pair_eq, option_eq, arith, Option-cases,
}
use authz.Rbac.Models.{Permission}
use authz.Tenancy.Models.{Membership}
use authz.Storage.Memory.{
  InMemoryStore, create_tenant, create_application, set_application_managed_by,
  upsert_user_from_identity, create_tenant_identity_mapping,
}
use authz.Storage.Memory.Roles.{create_role, create_permission, set_role_permissions}
use authz.Storage.Memory.Members.{create_membership, set_membership_roles, names_or_none}
use authz.Storage.Memory.Agents.{create_agent, set_agent_roles}
use authz.Storage.Memory.Resolution.{set_tenant_permission_mask, set_tenant_feature_flag}
use authz.Storage.Memory.Reachable.{
  Linkable, IsSafe, Step, Reach, kept-IsSafe, role_added-IsSafe, written-IsSafe, empty-IsSafe,
  tenant_step, application_step, managed_step, user_step, mapping_step, membership_step,
  membership_roles_step, role_step, permission_step, role_permissions_step, agent_step,
  agent_roles_step, mask_step, flag_step, start, next,
}

managed_keeps :
    (s : InMemoryStore) (id : String) (managed_by : Option String)
    → ((set_application_managed_by s id managed_by).roles ≡ s.roles)
      × ((set_application_managed_by s id managed_by).memberships ≡ s.memberships)
      × ((set_application_managed_by s id managed_by).membership_roles ≡ s.membership_roles)
unfolding set_application_managed_by
managed_keeps s id managed_by = ground arith

user_keeps :
    (s : InMemoryStore) (user_id identity_id provider issuer subject : String)
    (email tenant name : Option String)
    → let s' =
        (upsert_user_from_identity user_id identity_id provider issuer subject email tenant name
          s).1 in
      (s'.roles ≡ s.roles)
      × (s'.memberships ≡ s.memberships)
      × (s'.membership_roles ≡ s.membership_roles)
unfolding upsert_user_from_identity
user_keeps s user_id identity_id provider issuer subject email tenant name = ground arith

membership_roles_kept :
    (s s' : InMemoryStore) (id : String) (names : List String)
    → IsSafe s
    → set_membership_roles s id names ≡ ok s'
    → IsSafe s'
unfolding set_membership_roles
membership_roles_kept s s' id names safe h = elim (Option-cases (lookup id s.memberships)) [
  | inl e ↦ absurd (ground arith)
  | inr (m, e) ↦
      let wrote = rw (e, set_membership_roles) at h in
      written-IsSafe s s' id (record m { roles = names }) names safe (ground arith) (ground arith)
        (ground arith)
]

permission_kept :
    (s s' : InMemoryStore) (name : String) (application description : Option String)
    (p : Permission)
    → create_permission name application description s ≡ ok (p, s')
    → (s'.roles ≡ s.roles)
      × (s'.memberships ≡ s.memberships)
      × (s'.membership_roles ≡ s.membership_roles)
unfolding create_permission
permission_kept s s' name application description p h = ground arith

role_permissions_kept :
    (s s' : InMemoryStore) (id : String) (names : List String)
    → set_role_permissions s id names ≡ ok s'
    → (s'.roles ≡ s.roles)
      × (s'.memberships ≡ s.memberships)
      × (s'.membership_roles ≡ s.membership_roles)
unfolding set_role_permissions
role_permissions_kept s s' id names h = ground arith

agent_roles_kept :
    (s s' : InMemoryStore) (id : String) (names : List String)
    → set_agent_roles s id names ≡ ok s'
    → (s'.roles ≡ s.roles)
      × (s'.memberships ≡ s.memberships)
      × (s'.membership_roles ≡ s.membership_roles)
unfolding set_agent_roles
agent_roles_kept s s' id names h = ground arith

kept :
    (s s' : InMemoryStore)
    → IsSafe s
    → (s'.roles ≡ s.roles)
      × (s'.memberships ≡ s.memberships)
      × (s'.membership_roles ≡ s.membership_roles)
    → IsSafe s'
kept s s' safe (roles, members, linked) = kept-IsSafe s s' safe roles members linked

-- Every call of a method that writes keeps the invariant.
Step-IsSafe : {s s' : InMemoryStore} → IsSafe s → Step s s' → IsSafe s'
unfolding create_tenant create_application create_tenant_identity_mapping create_membership
    create_role create_agent set_tenant_permission_mask set_tenant_feature_flag
Step-IsSafe {s} safe (tenant_step id slug name status) = kept s _ safe (refl, refl, refl)
Step-IsSafe {s} safe (application_step id slug name status managed_by) =
    kept s _ safe (refl, refl, refl)
Step-IsSafe {s} safe (managed_step id managed_by) = kept s _ safe (managed_keeps s id managed_by)
Step-IsSafe {s} safe (user_step user_id identity_id provider issuer subject email tenant name) =
    kept s _ safe (user_keeps s user_id identity_id provider issuer subject email tenant name)
Step-IsSafe {s} safe (mapping_step id tenant provider issuer external) =
    kept s _ safe (refl, refl, refl)
Step-IsSafe {s} safe (membership_step id tenant application user status roles) =
    written-IsSafe s _ id (create_membership id tenant application user status roles s).0
      (names_or_none roles) safe refl refl refl
Step-IsSafe {s} {s'} safe (membership_roles_step id names h) =
    membership_roles_kept s s' id names safe h
Step-IsSafe {s} safe (role_step id name scope application tenant description fresh) =
    role_added-IsSafe s _ id (create_role id name scope application tenant description s).0 safe
      fresh refl refl refl
Step-IsSafe {s} {s'} safe (permission_step name application description {p} h) =
    kept s s' safe (permission_kept s s' name application description p h)
Step-IsSafe {s} {s'} safe (role_permissions_step id names h) =
    kept s s' safe (role_permissions_kept s s' id names h)
Step-IsSafe {s} safe (agent_step id tenant application name role status created_by display_name) =
    kept s _ safe (refl, refl, refl)
Step-IsSafe {s} {s'} safe (agent_roles_step id names h) =
    kept s s' safe (agent_roles_kept s s' id names h)
Step-IsSafe {s} safe (mask_step tenant application permissions) = kept s _ safe (refl, refl, refl)
Step-IsSafe {s} safe (flag_step tenant application key value) = kept s _ safe (refl, refl, refl)

Reach-IsSafe : {s : InMemoryStore} → Reach s → IsSafe s
Reach-IsSafe start = empty-IsSafe
Reach-IsSafe (next r step) = Step-IsSafe (Reach-IsSafe r) step

-- In every store that is built from the empty one by any sequence of writing calls, each role that
-- a membership is linked to is a role of the store, is bound to the membership's tenant or to none,
-- belongs to the membership's application, and is no agent's internal role; provided that each new
-- role gets an unused id.
pub Reach-Linkable :
    {s : InMemoryStore}
    → Reach s
    → (mid : String) (m : Membership) (rid : String) → lookup mid s.memberships ≡ some m
    → contains rid (get_or mid [] s.membership_roles) ≡ true
    → Linkable s m rid
Reach-Linkable reach = (Reach-IsSafe reach).links
