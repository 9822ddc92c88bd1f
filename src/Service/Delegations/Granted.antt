-- ===== src/Service/Delegations/Granted.antt =====
-- authz_service/api/delegations.py: what a grant that `create_delegation` issues is for.
use authz.Base.{
  insert, lookup, lookup-insert, ℕ, ◌+◌, ◌*◌, ◌≤◌, String, true, none, some, List, [], ◌∷◌, Result,
  ok, Result-cases, >>=-eq-ok, contains, sorted_set, insert_text, string_eq, option_eq, ◌==◌, inl,
  inr, ◌≡◌, refl, sym, ◌∙◌, arith, eq_iff, ◌||◌, All, ==-refl,
}
use authz.Rbac.Checker.{AuthorizationEngine, effective_permissions}
use Prim.Native.Nat.{◌/◌}
use authz.Tenancy.Models.{Agent}
use authz.Security.Tokens.{Jwt, SigningKeys}
use authz.Security.Delegations.{
  DelegationGrant, Grants, DelegationService, issue, sign, claims_of, new_grant,
}
use authz.Security.SigningKeys.{KeyError}
use authz.Security.Principal.{Principal, principal_subject_label}
use authz.Service.Callers.Require.{enforce_tenant_scope_binding}
use authz.Service.References.{ReferenceStore}
use authz.Service.Delegations.{
  DelegationSettings, DelegationIn, DelegationOut, GrantPlan, agent_subject, member, planned,
  requested_of, create_delegation, out, issue_plan,
}
use authz.Service.Delegations.Issued.{available, requested-within, planned-IsAllowed}

contains-insert_text :
    (a x : String) (xs : List String) → contains a (insert_text x xs) ≡ (a == x || contains a xs)
unfolding contains insert_text
contains-insert_text a x [] = refl
contains-insert_text a x (y ∷ ys) =
    ground (arith, eq_iff x y, eq_iff a x, eq_iff a y, contains-insert_text a x ys)

contains-sorted_set : (a : String) (xs : List String) → contains a (sorted_set xs) ≡ contains a xs
unfolding contains sorted_set
contains-sorted_set a [] = refl
contains-sorted_set a (x ∷ xs) =
    ground (arith, contains-insert_text a x (sorted_set xs), contains-sorted_set a xs)

All-contains :
    (P : String → Type 0) (xs : List String)
    → ((a : String) → contains a xs ≡ true → P a)
    → All P xs
unfolding contains
All-contains P [] f = tt
All-contains P (x ∷ xs) f =
    (f x (ground (arith, ==-refl x)), All-contains P xs (λ a there. f a (ground arith)))

seconds_le : (now : ℕ) → now / 1000000 * 1000000 ≤ now
seconds_le now = omega arith

module _ (store : ReferenceStore) (engine : AuthorizationEngine) (settings : DelegationSettings)
    (jwt : Jwt) (keys : SigningKeys) where
  -- The row of a plan.
  abbrev planned_row :
      (id : String) → DelegationIn → Principal → (now : ℕ) → GrantPlan → DelegationGrant
  planned_row id body principal now p =
      new_grant id p.tenant_id p.application_id p.user_id p.agent_id p.permissions
        (p.ttl_seconds * 1000000) body.purpose (some (principal_subject_label principal)) now

  issue_plan-row :
      (used : SigningKeys) (service : DelegationService) (id : String) (body : DelegationIn)
      (principal : Principal) (now : ℕ) (grants after : Grants) (p : GrantPlan)
      (g : DelegationGrant) (token : (jwt).Token)
      → issue_plan store engine settings jwt keys used service id p body.purpose principal now
          grants
        ≡ ok ((g, token), after)
      → (g ≡ planned_row id body principal now p)
        × (after ≡ insert id (planned_row id body principal now p) grants)
  unfolding issue
  issue_plan-row used service id body principal now grants after p g token h =
      elim (Result-cases
        (sign jwt used (claims_of service now (planned_row id body principal now p)))) [
          | inr (e, failed) ↦ absurd (ground arith)
          | inl (signed, e) ↦ (ground arith, ground arith)
        ]

  -- The row is written as it was planned, whichever keys signed.
  created_row :
      (generated : Result KeyError SigningKeys) (service : DelegationService) (id : String)
      (body : DelegationIn) (principal : Principal) (now : ℕ) (grants after : Grants)
      (o : DelegationOut) (token : (jwt).Token)
      → create_delegation store engine settings jwt keys generated service id body principal now
          grants
        ≡ ok ((o, token), after)
      → (p : GrantPlan) × (planned store engine settings body principal ≡ ok p)
        × (o ≡ out now (planned_row id body principal now p))
        × (after ≡ insert id (planned_row id body principal now p) grants)
  unfolding create_delegation
  created_row generated service id body principal now grants after o token h =
      let (p, is_plan, rest) = >>=-eq-ok (planned store engine settings body principal) _ h in
      let first_try =
        issue_plan store engine settings jwt keys keys service id p body.purpose principal now
          grants in
      elim (Result-cases first_try) [
        | inl (((g, t), written), e) ↦
            let (row, grown) =
              issue_plan-row keys service id body principal now grants written p g t e in
            let shown : o ≡ out now g = ground arith in
            let same : after ≡ written = ground arith in (p, is_plan, rw⁻¹ row shown, same ∙ grown)
        | inr (raised, e) ↦ elim (Result-cases generated) [
          | inr (no_key, failed) ↦ absurd (ground arith)
          | inl (used, made) ↦
              elim (Result-cases (
                issue_plan store engine settings jwt keys used service id p body.purpose principal
                  now grants)) [
                    | inr (again, failed) ↦ absurd (ground arith)
                    | inl (((g, t), written), second) ↦
                        let (row, grown) =
                          issue_plan-row used service id body principal now grants written p g t
                            second in
                        let shown : o ≡ out now g = ground arith in
                        let same : after ≡ written = ground arith in
                        (p, is_plan, rw⁻¹ row shown, same ∙ grown)
                  ]
        ]
      ]

  -- What the agent may do for the user at this moment.
  abbrev pub CanDo : DelegationOut → String → Type 0
  CanDo o name =
      contains name (
        effective_permissions engine o.tenant_id o.application_id
          (agent_subject o.user_id o.agent_id) none none)
      ≡ true

  listed_CanDo :
      (body : DelegationIn) (principal : Principal) (id : String) (now : ℕ) (p : GrantPlan)
      (o : DelegationOut)
      → requested_of (available engine p) body.permissions ≡ ok p.permissions
      → o ≡ out now (planned_row id body principal now p)
      → All (CanDo o) o.permissions
  unfolding out
  listed_CanDo body principal id now p o asked shown =
      All-contains (CanDo o) o.permissions (λ name there.
        let sorted : contains name (sorted_set (sorted_set p.permissions)) ≡ true =
          rw shown at there in
        let once = contains-sorted_set name (sorted_set p.permissions) in
        let twice = contains-sorted_set name p.permissions in
        let wanted : contains name p.permissions ≡ true = sym twice ∙ sym once ∙ sorted in
        let held =
          requested-within (available engine p) p.permissions body.permissions name asked wanted in
        rw shown held)

  -- A grant that the endpoint issues, be its list of permissions empty or not, is for a tenant that the
  -- caller is bound to, for a user with an active membership and for an active agent; it lists only
  -- permissions that the agent has for the user at that moment; and it expires within the settings'
  -- longest time (moments are microseconds). It is stored under its id.
  pub create_delegation_sound :
      (generated : Result KeyError SigningKeys) (service : DelegationService) (id : String)
      (body : DelegationIn) (principal : Principal) (now : ℕ) (grants after : Grants)
      (o : DelegationOut) (token : (jwt).Token)
      → create_delegation store engine settings jwt keys generated service id body principal now
          grants
        ≡ ok ((o, token), after)
      → (enforce_tenant_scope_binding principal o.tenant_id ≡ ok tt)
        × (store.is_user_membership_active o.tenant_id o.application_id o.user_id ≡ true)
        × ((agent : Agent) × (store.get_agent o.tenant_id o.application_id o.agent_id ≡ some agent)
            × (agent.status ≡ "active"))
        × All (CanDo o) o.permissions
        × (o.expires_at ≤ now + settings.delegation_max_ttl_seconds * 1000000)
        × ((g : DelegationGrant) × (lookup o.id after ≡ some g) × (o ≡ out now g))
  unfolding out
  create_delegation_sound generated service id body principal now grants after o token h =
      let (p, is_plan, shown, grown) =
        created_row generated service id body principal now grants after o token h in
      let (bound, (member, agent, in_time, asked)) =
        planned-IsAllowed store engine settings body principal p is_plan in
      let listed = listed_CanDo body principal id now p o asked shown in
      let cut = seconds_le now in
      let row = planned_row id body principal now p in
      let written : lookup id after ≡ some row =
        rw (grown, lookup-insert id id row grants, ==-refl id) refl in
      (
        rw shown bound,
        rw shown member,
        rw shown agent,
        listed,
        rw shown (omega arith),
        (row, rw shown written, shown),
      )
