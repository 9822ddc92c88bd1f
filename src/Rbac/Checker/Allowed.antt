-- ===== src/Rbac/Checker/Allowed.antt =====
-- authzkit/rbac/checker.py: `authorize` against the permitted requests.
use authz.Base.{
  String, true, ◌≡◌, refl, ◌↔◌, inl, inr, List, [], ◌∷◌, ok, string_eq, option_eq, contains,
  Option-cases, Result-cases, arith,
}
use authz.Policies.Engine.{evaluate}
use authz.Rbac.Requests.{AuthorizeRequest, AuthorizeDecision, allow, deny}
use authz.Rbac.Subjects.{inactive, subject_permissions, required_of}
use authz.Rbac.Checker.{AuthorizationEngine, masked, refusal, check, authorize}
use authz.Rbac.Checker.Sets.{passes, granted, contains-masked, contains-narrowed}
use authz.Rbac.Checker.Permitted.{
  IsPermitted, inactive-none_iff, subject-Holds, subject-Answers, subject_denies,
}

-- Some decision is returned, and it allows.
abbrev pub Allows : AuthorizationEngine → AuthorizeRequest → Type 0
Allows engine r = (d : AuthorizeDecision) × (authorize engine r ≡ ok d) × (d.allowed ≡ true)

module _ (engine : AuthorizationEngine) (r : AuthorizeRequest) where
  abbrev mask_of : List String
  mask_of = engine.repository.resolve_tenant_permissions r.tenant_id r.application_id

  abbrev Checked : List String → Type 0
  Checked permissions =
      (contains (required_of r) permissions ≡ true)
      × (passes (required_of r) mask_of ≡ true)
      × (granted (required_of r) r.delegated_permissions ≡ true)
      × (evaluate engine.policy_engine r ≡ ok true)

  check_allowed :
      (permissions : List String) (d : AuthorizeDecision)
      → check engine permissions mask_of r.delegated_permissions r ≡ ok d
      → d.allowed ≡ true
      → Checked permissions
  unfolding check allow deny refusal
  check_allowed permissions d h a =
      let masks = contains-masked (required_of r) permissions mask_of in
      let narrows =
        contains-narrowed (required_of r) (masked permissions mask_of) r.delegated_permissions in
      ground (arith, masks, narrows)

  check_allows :
      (permissions : List String)
      → Checked permissions
      → check engine permissions mask_of r.delegated_permissions r
        ≡ ok (allow (required_of r) (required_of r ∷ []))
  unfolding check
  check_allows permissions (held, unmasked, delegated, judged) =
      let masks = contains-masked (required_of r) permissions mask_of in
      let narrows =
        contains-narrowed (required_of r) (masked permissions mask_of) r.delegated_permissions in
      ground (arith, masks, narrows)

Allows-IsPermitted' :
    (engine : AuthorizationEngine) (r : AuthorizeRequest) → Allows engine r → IsPermitted engine r
unfolding authorize
Allows-IsPermitted' engine r (d, h, a) =
    elim (Option-cases (inactive engine.repository r.tenant_id r.application_id r.references)) [
      | inr (reason, shut) ↦ absurd (unfold deny in ground arith)
      | inl active ↦ elim (Result-cases (subject_permissions engine.repository r)) [
        | inr (denied, e) ↦
            absurd (ground (arith, subject_denies engine.repository r (required_of r) denied e))
        | inl (permissions, e) ↦
            let (held, unmasked, delegated, judged) =
              check_allowed engine r permissions d (ground arith) a in
            record {
              is_open =
                  (inactive-none_iff engine.repository r.tenant_id r.application_id r.references).0
                    active;
              held = subject-Holds _ r _ (rw e held);
              unmasked = unmasked;
              delegated = delegated;
              judged = judged;
            }
      ]
    ]

permitted_allows :
    (engine : AuthorizationEngine) (r : AuthorizeRequest)
    → IsPermitted engine r
    → authorize engine r ≡ ok (allow (required_of r) (required_of r ∷ []))
unfolding authorize
permitted_allows engine r p =
    let active =
      (inactive-none_iff engine.repository r.tenant_id r.application_id r.references).1 p.is_open in
    let answers = subject-Answers engine.repository r (required_of r) p.held in
    elim (Result-cases (subject_permissions engine.repository r)) [
      | inr (denied, e) ↦ absurd (rw e at answers)
      | inl (permissions, e) ↦
          rw (active, authorize)
            (rw e (
              check_allows engine r permissions
                (rw e at answers, p.unmasked, p.delegated, p.judged)))
    ]

pub Allows-IsPermitted :
    (engine : AuthorizationEngine) (r : AuthorizeRequest) → IsPermitted engine r → Allows engine r
unfolding allow
Allows-IsPermitted engine r p =
    (allow (required_of r) (required_of r ∷ []), permitted_allows engine r p, refl)

-- A request is permitted when its tenant and application are active, its subject has the required
-- permission (a user by an active membership; an agent if the user it acts for and the agent
-- itself both have it), the tenant's mask is empty or has it, the grant (if any) has it, and the
-- policy rules pass. `authorize` returns a decision that allows exactly if the request is
-- permitted.
pub authorize-IsPermitted :
    (engine : AuthorizationEngine) (r : AuthorizeRequest) → Allows engine r ↔ IsPermitted engine r
authorize-IsPermitted engine r = (Allows-IsPermitted' engine r, Allows-IsPermitted engine r)
