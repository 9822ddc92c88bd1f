-- ===== src/Rbac/Checker/Effective.antt =====
-- `effective_permissions` against the single decisions.
use authz.Base.{
  String, true, false, ◌≡◌, refl, ◌↔◌, inl, inr, Option, none, some, List, [], ok, contains, inter,
  contains-inter, string_eq, arith, ◌==◌, eq_iff, Option-cases, Bool-cases,
}
use authz.Policies.Engine.{evaluate}
use authz.Rbac.Requests.{AuthorizeRequest}
use authz.Rbac.Subjects.{required_of, inactive, membership_active, agent_missing}
use authz.Rbac.Checker.{AuthorizationEngine, masked, narrowed, effective_permissions, subject_set}
use authz.Rbac.Checker.Sets.{passes, granted, contains-masked, contains-narrowed}
use authz.Rbac.Checker.Permitted.{Holds, user_set, agent_set, inactive-none_iff}
use authz.Rbac.Checker.Allowed.{Allows, authorize-IsPermitted, Allows-IsPermitted}

-- The set that `effective_permissions` gives for the parties of a request.
abbrev pub effective_set : AuthorizationEngine → AuthorizeRequest → List String
effective_set engine r =
    effective_permissions engine r.tenant_id r.application_id r.subject r.delegated_permissions
      r.references

module _ (engine : AuthorizationEngine) (r : AuthorizeRequest) (name : String) where
  abbrev own_set : List String
  own_set = subject_set engine r.tenant_id r.application_id r.subject r.references

  own_set-Holds :
      agent_missing r.references ≡ false
      → contains name own_set ≡ true
      → Holds engine.repository r name
  unfolding membership_active contains
  own_set-Holds found h = elim (Option-cases r.subject.user_id) [
    | inl e ↦ absurd (ground arith)
    | inr (user, e) ↦ elim (Bool-cases (r.subject.type == "user")) [
      | inl u ↦ inl ((eq_iff _ _).0 u, found, (user, (e, ground arith, ground arith), ground arith))
      | inr v ↦ elim (Option-cases r.subject.agent_id) [
        | inl f ↦ absurd (ground arith)
        | inr (agent, f) ↦
            let t : (r.subject.type == "agent") ≡ true = ground arith in
            let both =
              contains-inter name (user_set engine.repository r user)
                (agent_set engine.repository r agent) in
            inr (
              (eq_iff _ _).0 t,
              (user, (e, ground arith, ground arith), ground (arith, both)),
              (agent, (f, ground arith), ground (arith, both)),
            )
      ]
    ]
  ]

  Holds-own_set : Holds engine.repository r name → contains name own_set ≡ true
  unfolding membership_active
  Holds-own_set (inl (t, found, (user, m, p))) = rw t (ground arith)
  Holds-own_set (inr (t, (user, m, p), (agent, a, q))) = rw t (
      ground (
        arith,
        contains-inter name (user_set engine.repository r user)
            (agent_set engine.repository r agent),
      ))

abbrev mask_of : AuthorizationEngine → AuthorizeRequest → List String
mask_of engine r = engine.repository.resolve_tenant_permissions r.tenant_id r.application_id

-- The three sets of an active tenant and application, from the subject's own.
Within : String → (own mask : List String) → Option (List String) → Type 0
Within name own mask grant =
    (contains name own ≡ true) × (passes name mask ≡ true) × (granted name grant ≡ true)

contains-narrowed-masked :
    (name : String) (own mask : List String) (grant : Option (List String))
    → (contains name (narrowed (masked own mask) grant) ≡ true) ↔ Within name own mask grant
unfolding Within
contains-narrowed-masked name own mask grant =
    ground (arith, contains-narrowed name (masked own mask) grant, contains-masked name own mask)

not-contains-narrowed-nil :
    (name : String) (grant : Option (List String)) → contains name (narrowed [] grant) ≡ false
unfolding contains narrowed inter
not-contains-narrowed-nil name none = refl
not-contains-narrowed-nil name (some grant) = refl

effective_set-Within :
    (engine : AuthorizationEngine) (r : AuthorizeRequest) (name : String)
    → (contains name (effective_set engine r) ≡ true) ↔ (
        (inactive engine.repository r.tenant_id r.application_id r.references ≡ none)
        × Within name (own_set engine r name) (mask_of engine r) r.delegated_permissions)
unfolding effective_permissions
effective_set-Within engine r name =
    elim (Option-cases (inactive engine.repository r.tenant_id r.application_id r.references)) [
      | inl active ↦
          let (to, from) =
            contains-narrowed-masked name (own_set engine r name) (mask_of engine r)
              r.delegated_permissions in
          (
            λ h. (active, to (rw (active, effective_permissions) at h)),
            λ (_, w). rw (active, effective_permissions) (from w),
          )
      | inr (reason, shut) ↦ (
        λ h. absurd (
            cc (
              not-contains-narrowed-nil name r.delegated_permissions,
              rw (shut, effective_permissions) at h,
            )),
        λ (active, _). absurd (cc),
      )
    ]

-- A permission is in the effective set of a request's parties exactly when `authorize` allows the
-- request for it, provided that the policy rules pass the request and no agent reference is
-- unknown.
pub effective_permissions-Allows :
    (engine : AuthorizationEngine) (r : AuthorizeRequest)
    → agent_missing r.references ≡ false
    → evaluate engine.policy_engine r ≡ ok true
    → (contains (required_of r) (effective_set engine r) ≡ true) ↔ Allows engine r
unfolding Within
effective_permissions-Allows engine r found judged =
    let (to, from) = effective_set-Within engine r (required_of r) in
    (
      λ h.
          let (active, within) = to h in
          let (own, unmasked, delegated) = within in
          Allows-IsPermitted engine r (record {
            is_open =
                (inactive-none_iff engine.repository r.tenant_id r.application_id r.references).0
                  active;
            held = own_set-Holds engine r (required_of r) found own;
            unmasked = unmasked;
            delegated = delegated;
            judged = judged;
          }),
      λ a.
          let p = (authorize-IsPermitted engine r).0 a in
          from (
            (inactive-none_iff engine.repository r.tenant_id r.application_id r.references).1
                p.is_open,
            (Holds-own_set engine r (required_of r) p.held, p.unmasked, p.delegated),
          ),
    )
