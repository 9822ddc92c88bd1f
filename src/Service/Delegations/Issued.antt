-- ===== src/Service/Delegations/Issued.antt =====
-- authz_service/api/delegations.py: what a grant that `create_delegation` issues may contain.
use authz.Base.{
  ◌≤◌, String, true, false, Option, none, some, List, [], ◌∷◌, ok, Result-cases, Option-cases,
  Bool-cases, >>=-eq-ok, contains, contains-minus, minus, sorted_set, insert_text, is_nonempty,
  string_eq, option_eq, inl, inr, ◌≡◌, refl, arith, eq_iff,
}
use authz.Rbac.Checker.{AuthorizationEngine, effective_permissions}
use authz.Tenancy.Models.{Agent, Tenant}
use authz.Security.Principal.{Principal}
use authz.Service.Callers.Require.{enforce_tenant_scope_binding}
use authz.Service.References.{ReferenceStore, require_bound_tenant, require_application, id_or}
use authz.Service.Delegations.{
  DelegationSettings, DelegationIn, GrantPlan, agent_subject, requested_of, member, stored_agent,
  user_of, agent_of, plan_for, plan_in, planned,
}

-- What the engine gives the agent for the user now.
abbrev pub available : AuthorizationEngine → GrantPlan → List String
available engine p =
    effective_permissions engine p.tenant_id p.application_id (agent_subject p.user_id p.agent_id)
      none none

insert_text-nonempty : (x : String) (xs : List String) → is_nonempty (insert_text x xs) ≡ true
unfolding insert_text
insert_text-nonempty x [] = refl
insert_text-nonempty x (y ∷ ys) = ground arith

sorted_set-empty : (xs : List String) → is_nonempty (sorted_set xs) ≡ false → xs ≡ []
unfolding sorted_set
sorted_set-empty [] h = refl
sorted_set-empty (x ∷ xs) h = absurd (ground (arith, insert_text-nonempty x (sorted_set xs)))

contains-none : (name : String) → contains name [] ≡ false
unfolding contains
contains-none name = refl

pub requested-within :
    (offered requested : List String) (permissions : Option (List String)) (name : String)
    → requested_of offered permissions ≡ ok requested
    → contains name requested ≡ true
    → contains name offered ≡ true
unfolding requested_of
requested-within offered requested none name h there = ground arith
requested-within offered requested (some wanted) name h there =
    elim (Bool-cases (is_nonempty (sorted_set (minus wanted offered)))) [
      | inl more ↦ absurd (ground arith)
      | inr no_more ↦
          let same : wanted ≡ requested = ground arith in
          let nothing = sorted_set-empty (minus wanted offered) no_more in
          let split = contains-minus name wanted offered in
          let missing : contains name (minus wanted offered) ≡ false =
            rw nothing (contains-none name) in
          ground arith
    ]

module _ (engine : AuthorizationEngine) (settings : DelegationSettings) where
  plan_for-ok :
      (body : DelegationIn) (tenant_id application_id user_id agent_id : String) (agent : Agent)
      (p : GrantPlan)
      → plan_for engine settings body tenant_id application_id user_id agent_id agent ≡ ok p
      → (p.tenant_id ≡ tenant_id)
        × (p.application_id ≡ application_id)
        × (p.user_id ≡ user_id)
        × (p.agent_id ≡ agent_id)
        × (agent.status ≡ "active")
        × (p.ttl_seconds ≤ settings.delegation_max_ttl_seconds)
        × (requested_of
              (effective_permissions engine tenant_id application_id
                (agent_subject user_id agent_id)
                none
                none)
              body.permissions
            ≡ ok p.permissions)
  unfolding plan_for
  plan_for-ok body tenant_id application_id user_id agent_id agent p h =
      elim (Result-cases (
        requested_of
          (effective_permissions engine tenant_id application_id (agent_subject user_id agent_id)
            none none)
          body.permissions)) [
            | inr (e, refused) ↦ absurd (ground arith)
            | inl (permissions, asked) ↦ (
              ground arith,
              ground arith,
              ground arith,
              ground arith,
              ground (arith, eq_iff agent.status "active"),
              ground arith,
              ground arith,
            )
          ]

module _ (store : ReferenceStore) where
  require_bound_tenant-ok :
      (ref : String) (principal : Principal) (tenant : Tenant)
      → require_bound_tenant store ref principal ≡ ok tenant
      → enforce_tenant_scope_binding principal tenant.id ≡ ok tt
  unfolding require_bound_tenant
  require_bound_tenant-ok ref principal tenant h =
      let (checked, bound, rest) =
        >>=-eq-ok (enforce_tenant_scope_binding principal (id_or ref (store.find_tenant ref))) _
          h in
      elim (Option-cases (store.find_tenant ref)) [
        | inl missing ↦ absurd (ground arith)
        | inr (found, e) ↦
            let same : found ≡ tenant = ground arith in let here = rw e at bound in rw⁻¹ same here
      ]

  member-ok :
      (tenant_id application_id : String) (user : Option String) (user_id : String)
      → member store tenant_id application_id user ≡ ok user_id
      → store.is_user_membership_active tenant_id application_id user_id ≡ true
  member-ok tenant_id application_id none user_id h = absurd (ground arith)
  member-ok tenant_id application_id (some u) user_id h =
      elim (Bool-cases (store.is_user_membership_active tenant_id application_id u)) [
        | inl active ↦ let same : u ≡ user_id = ground arith in rw⁻¹ same active
        | inr idle ↦ absurd (ground arith)
      ]

  stored_agent-ok :
      (tenant_id application_id : String) (named : Option String) (agent_id : String)
      (agent : Agent)
      → stored_agent store tenant_id application_id named ≡ ok (agent_id, agent)
      → store.get_agent tenant_id application_id agent_id ≡ some agent
  stored_agent-ok tenant_id application_id none agent_id agent h = absurd (ground arith)
  stored_agent-ok tenant_id application_id (some a) agent_id agent h =
      elim (Option-cases (store.get_agent tenant_id application_id a)) [
        | inl missing ↦ absurd (ground arith)
        | inr (found, e) ↦
            let same : a ≡ agent_id = ground arith in
            let is_agent : found ≡ agent = ground arith in rw⁻¹ (same) (rw⁻¹ is_agent e)
      ]

module _ (store : ReferenceStore) (engine : AuthorizationEngine)
    (settings : DelegationSettings) where
  -- A plan is for an active member and an active agent; it gives no more than the agent may do for the
  -- user, for no longer than the settings let.
  abbrev pub IsAllowed : DelegationIn → GrantPlan → Type 0
  IsAllowed body p =
      (store.is_user_membership_active p.tenant_id p.application_id p.user_id ≡ true)
      × ((agent : Agent) × (store.get_agent p.tenant_id p.application_id p.agent_id ≡ some agent)
          × (agent.status ≡ "active"))
      × (p.ttl_seconds ≤ settings.delegation_max_ttl_seconds)
      × (requested_of (available engine p) body.permissions ≡ ok p.permissions)

  plan_for-IsAllowed :
      (body : DelegationIn) (tenant_id application_id user_id agent_id : String) (agent : Agent)
      (p : GrantPlan)
      → plan_for engine settings body tenant_id application_id user_id agent_id agent ≡ ok p
      → store.is_user_membership_active tenant_id application_id user_id ≡ true
      → store.get_agent tenant_id application_id agent_id ≡ some agent
      → (p.tenant_id ≡ tenant_id) × IsAllowed body p
  plan_for-IsAllowed body tenant_id application_id user_id agent_id agent p h there row =
      let (tenant, application, for_user, by_agent, active, in_time, asked) =
        plan_for-ok engine settings body tenant_id application_id user_id agent_id agent p h in
      (
        tenant,
        (
          rw (tenant, application, for_user) there,
          (agent, rw (tenant, application, by_agent) row, active),
          in_time,
          rw (tenant, application, for_user, by_agent) asked,
        ),
      )

  plan_in-IsAllowed :
      (body : DelegationIn) (tenant_id application_id : String) (p : GrantPlan)
      → plan_in store engine settings body tenant_id application_id ≡ ok p
      → (p.tenant_id ≡ tenant_id) × IsAllowed body p
  unfolding plan_in
  plan_in-IsAllowed body tenant_id application_id p h =
      let (user, user_found, h1) = >>=-eq-ok (user_of store body.user_id body.user_ref) _ h in
      let (named, agent_found, h2) =
        >>=-eq-ok (agent_of store tenant_id application_id body.agent_id body.agent_name) _ h1 in
      let ((agent_id, agent), agent_stored, h3) =
        >>=-eq-ok (stored_agent store tenant_id application_id named) _ h2 in
      let (user_id, is_member, h4) = >>=-eq-ok (member store tenant_id application_id user) _ h3 in
      plan_for-IsAllowed body tenant_id application_id user_id agent_id agent p h4
        (member-ok store tenant_id application_id user user_id is_member)
        (stored_agent-ok store tenant_id application_id named agent_id agent agent_stored)

  pub planned-IsAllowed :
      (body : DelegationIn) (principal : Principal) (p : GrantPlan)
      → planned store engine settings body principal ≡ ok p
      → (enforce_tenant_scope_binding principal p.tenant_id ≡ ok tt) × IsAllowed body p
  unfolding planned
  planned-IsAllowed body principal p h =
      let (tenant, found, h1) =
        >>=-eq-ok (require_bound_tenant store body.tenant_id principal) _ h in
      let (application, app_found, h2) =
        >>=-eq-ok (require_application store body.application_id) _ h1 in
      let (same, allowed) = plan_in-IsAllowed body tenant.id application.id p h2 in
      (rw same (require_bound_tenant-ok store body.tenant_id principal tenant found), allowed)
