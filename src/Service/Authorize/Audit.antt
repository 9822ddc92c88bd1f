-- ===== src/Service/Authorize/Audit.antt =====
-- authz_service/api/authorize.py: which decisions are written to the audit log.
use authz.Base.{
  ℕ, String, Bool, false, Option, none, some, List, [], ◌∷◌, ◌++◌, ok, err, Result-cases,
  Option-cases, string_eq, option_eq, inl, inr, ◌≡◌, refl, ◌∙◌, arith, if◌then◌else◌,
}
use authz.Rbac.Requests.{ResolvedReferences, AuthorizeRequest, AuthorizeDecision, allow, deny}
use authz.Rbac.Subjects.{inactive, subject_permissions, resolve_user, resolve_agent}
use authz.Rbac.Checker.{AuthorizationEngine, authorize as engine_authorize, check, refusal}
use authz.Security.Tokens.{Jwt, SigningKeys}
use authz.Security.Delegations.{Grants, DelegationService}
use authz.Security.Principal.{Principal}
use authz.Service.References.{ReferenceStore}
use authz.Service.Delegations.{DelegationSettings}
use authz.Service.Delegations.Applied.{DelegationOutcome}
use authz.Service.Authorize.{
  AuthorizeBody, AuthorizeResponse, AuditEntry, response_of, write, delegation_deny,
}
use authz.Service.Authorize.Handlers.{
  authorize, decide_one, engine_request, audit_entry, request_id_or,
}
use authz.Service.Authorize.Asked.{refs_of, outcome_of}
use authz.Service.Authorize.Decisions.{answered}

-- A decision that does not allow says that it denies.
abbrev Says : AuthorizeDecision → Type 0
Says d = d.decision ≡ (if d.allowed then "allow" else "deny")

subject-Says :
    (engine : AuthorizationEngine) (r : AuthorizeRequest) (d : AuthorizeDecision)
    → subject_permissions engine.repository r ≡ err d
    → Says d
unfolding subject_permissions resolve_user resolve_agent deny
subject-Says engine r d h = ground arith

check-Says :
    (engine : AuthorizationEngine) (permissions mask : List String) (grant : Option (List String))
    (r : AuthorizeRequest) (d : AuthorizeDecision)
    → check engine permissions mask grant r ≡ ok d
    → Says d
unfolding check refusal allow deny
check-Says engine permissions mask grant r d h = ground arith

authorize-Says :
    (engine : AuthorizationEngine) (r : AuthorizeRequest) (d : AuthorizeDecision)
    → engine_authorize engine r ≡ ok d
    → Says d
unfolding engine_authorize
authorize-Says engine r d h =
    elim (Option-cases (inactive engine.repository r.tenant_id r.application_id r.references)) [
      | inr (reason, shut) ↦ unfold deny in ground arith
      | inl active ↦ elim (Result-cases (subject_permissions engine.repository r)) [
        | inr (denied, e) ↦
            let same : d ≡ denied = ground arith in rw same (subject-Says engine r denied e)
        | inl (permissions, e) ↦
            check-Says engine permissions
              (engine.repository.resolve_tenant_permissions r.tenant_id r.application_id)
              r.delegated_permissions r d (ground arith)
      ]
    ]

decide_one-Says :
    (engine : AuthorizationEngine) (body : AuthorizeBody) (refs : ResolvedReferences)
    (delegation : DelegationOutcome) (reason : Option String) (d : AuthorizeDecision)
    → decide_one engine body refs delegation reason ≡ ok d
    → Says d
decide_one-Says engine body refs delegation (some reason) d h = unfold deny in ground arith
decide_one-Says engine body refs delegation none d h =
    elim (Result-cases (engine_authorize engine (engine_request body refs delegation))) [
      | inr (e, raised) ↦ absurd (ground arith)
      | inl (found, decision) ↦
          authorize-Says engine (engine_request body refs delegation) d (ground arith)
    ]

write-deny :
    (audit_all : Bool) (entry : AuditEntry) (log : List AuditEntry)
    → entry.decision ≡ "deny"
    → write audit_all entry log ≡ log ++ (entry ∷ [])
unfolding write
write-deny audit_all entry log denied = rw denied refl

module _ (store : ReferenceStore) (engine : AuthorizationEngine) (jwt : Jwt) (keys : SigningKeys)
    (service : DelegationService) (settings : DelegationSettings) (audit_all : Bool) where
  -- Each refusal of the endpoint is put at the end of the audit log, whatever the setting: one entry, with
  -- the refusal's reason, the resource and the action, the tenant that was resolved, the subject and the
  -- grant of the delegation token.
  pub authorize-audited :
      (body : AuthorizeBody) (principal : Principal) (grants : Grants) (now : ℕ)
      (token : Option ((jwt).Token)) (request_id : Option String) (fresh : String)
      (log after : List AuditEntry) (r : AuthorizeResponse)
      → authorize store engine jwt keys service settings audit_all body principal grants now token
          request_id fresh log
        ≡ ok (r, after)
      → r.allowed ≡ false
      → let delegation =
          outcome_of store engine jwt keys service settings audit_all body grants now token in
        (e : AuditEntry) × (after ≡ log ++ (e ∷ []))
        × (e.decision ≡ "deny")
        × (e.reason ≡ r.reason)
        × (e.resource ≡ body.resource)
        × (e.action ≡ body.action)
        × (e.tenant_id ≡ (refs_of store body).tenant_id)
        × (e.user_id ≡ delegation.subject.user_id)
        × (e.agent_id ≡ delegation.subject.agent_id)
        × (e.delegation_id ≡ delegation.grant_id)
  unfolding response_of
  authorize-audited body principal grants now token request_id fresh log after r h refused =
      let (d, bound, decision, is_r, logged) =
        answered store engine jwt keys service settings audit_all body principal grants now token
          request_id fresh log after r h in
      let refs = refs_of store body in
      let delegation =
        outcome_of store engine jwt keys service settings audit_all body grants now token in
      let says =
        decide_one-Says engine body refs delegation (delegation_deny refs delegation) d decision in
      let denied : d.decision ≡ "deny" = ground arith in
      let entry =
        audit_entry body.resource body.action d refs delegation
          (some (request_id_or request_id fresh)) in
      (
        entry,
        logged ∙ write-deny audit_all entry log denied,
        denied,
        ground arith,
        refl,
        refl,
        refl,
        refl,
        refl,
        refl,
      )
