-- ===== src/Service/Authorize/Decisions.antt =====
-- authz_service/api/authorize.py: what an answer of the decision endpoint rests on.
use authz.Base.{
  ℕ, String, Bool, true, Option, none, some, List, ok, Result-cases, >>=-eq-ok, contains, string_eq,
  option_eq, inl, inr, ◌≡◌, refl, arith,
}
use authz.Rbac.Models.{permission_name}
use authz.Rbac.Requests.{ResolvedReferences, AuthorizeRequest, AuthorizeDecision, deny, complete}
use authz.Rbac.Subjects.{agent_active}
use authz.Rbac.Checker.{AuthorizationEngine, authorize as engine_authorize}
use authz.Rbac.Checker.Permitted.{IsPermitted}
use authz.Rbac.Checker.Allowed.{authorize-IsPermitted}
use authz.Security.Tokens.{Jwt, SigningKeys}
use authz.Security.Delegations.{DelegationGrant, Grants, DelegationService, verify}
use authz.Security.Principal.{Principal}
use authz.Service.Callers.Require.{enforce_tenant_scope_binding}
use authz.Service.References.{ReferenceStore, resolve_decision_refs}
use authz.Service.Delegations.{DelegationSettings}
use authz.Service.Delegations.Applied.{DelegationOutcome, IsOrNone}
use authz.Service.Authorize.Asked.{
  refs_of, rows_of, outcome_of, asked, IsRequestOf, outcome_of-AppliesAs, asked-IsRequestOf,
}
use authz.Service.Authorize.{
  AuthorizeBody, AuthorizeResponse, AuditEntry, response_of, write, delegation_deny,
}
use authz.Service.Authorize.Handlers.{
  authorize, decide_one, engine_request, audit_entry, request_id_or,
}

-- Only a request whose references all matched a row is permitted.
permitted-complete :
    (engine : AuthorizationEngine) (r : AuthorizeRequest) (refs : ResolvedReferences)
    → r.references ≡ some refs
    → IsPermitted engine r
    → complete refs ≡ true
unfolding complete agent_active
permitted-complete engine r refs with_refs p =
    let (tenant, application) = rw with_refs at p.is_open in
    elim p.held [
      | inl (typed, found, (user, (named, there, member), holds)) ↦
          rw (tenant, application, rw with_refs at there, rw with_refs at found) refl
      | inr (typed, (user, (named, there, member), holds), (agent, (acting, active), held)) ↦
          let running = rw with_refs at active in
          rw (tenant, application, rw with_refs at there) (ground arith)
    ]

module _ (store : ReferenceStore) (engine : AuthorizationEngine) (jwt : Jwt) (keys : SigningKeys)
    (service : DelegationService) (settings : DelegationSettings) (audit_all : Bool) where
  -- What an answer is made of: the binding, and a decision.
  pub answered :
      (body : AuthorizeBody) (principal : Principal) (grants : Grants) (now : ℕ)
      (token : Option ((jwt).Token)) (request_id : Option String) (fresh : String)
      (log after : List AuditEntry) (r : AuthorizeResponse)
      → authorize store engine jwt keys service settings audit_all body principal grants now token
          request_id fresh log
        ≡ ok (r, after)
      → let refs = refs_of store body in
        let delegation =
          outcome_of store engine jwt keys service settings audit_all body grants now token in
        (d : AuthorizeDecision) × (enforce_tenant_scope_binding principal refs.tenant_id ≡ ok tt)
        × (decide_one engine body refs delegation (delegation_deny refs delegation) ≡ ok d)
        × (r ≡ response_of d)
        × (after
            ≡ write audit_all
                (audit_entry body.resource body.action d refs delegation
                  (some (request_id_or request_id fresh)))
                log)
  unfolding authorize
  answered body principal grants now token request_id fresh log after r h =
      let (checked, bound, rest) = >>=-eq-ok _ _ h in
      let (d, decision, result) = >>=-eq-ok _ _ rest in
      (d, bound, decision, ground arith, ground arith)

  permitted :
      (body : AuthorizeBody) (refs : ResolvedReferences) (delegation : DelegationOutcome)
      (reason : Option String) (d : AuthorizeDecision)
      → decide_one engine body refs delegation reason ≡ ok d
      → d.allowed ≡ true
      → (reason ≡ none) × IsPermitted engine (engine_request body refs delegation)
  unfolding deny
  permitted body refs delegation (some reason) d h allowed = absurd (ground arith)
  permitted body refs delegation none d h allowed =
      let request = engine_request body refs delegation in
      elim (Result-cases (engine_authorize engine request)) [
        | inr (e, raised) ↦ absurd (ground arith)
        | inl (found, decision) ↦
            (refl, (authorize-IsPermitted engine request).0 (found, decision, ground arith))
      ]

  -- A request that the endpoint allows: the delegation was not refused, and the engine permits it.
  allowed_request :
      (body : AuthorizeBody) (principal : Principal) (grants : Grants) (now : ℕ)
      (token : Option ((jwt).Token)) (request_id : Option String) (fresh : String)
      (log after : List AuditEntry) (r : AuthorizeResponse)
      → authorize store engine jwt keys service settings audit_all body principal grants now token
          request_id fresh log
        ≡ ok (r, after)
      → r.allowed ≡ true
      → (enforce_tenant_scope_binding principal (rows_of store body).tenant_id ≡ ok tt)
        × (complete (rows_of store body) ≡ true)
        × ((outcome_of store engine jwt keys service settings audit_all body grants now
              token).deny_reason
            ≡ none)
        × IsPermitted engine
            (asked store engine jwt keys service settings audit_all body grants now token)
  unfolding delegation_deny response_of resolve_decision_refs
  allowed_request body principal grants now token request_id fresh log after r h allowed =
      let (d, bound, decision, is_r, logged) =
        answered body principal grants now token request_id fresh log after r h in
      let refs = refs_of store body in
      let delegation =
        outcome_of store engine jwt keys service settings audit_all body grants now token in
      let (no_reason, p) =
        permitted body refs delegation (delegation_deny refs delegation) d decision
          (ground arith) in
      let whole =
        permitted-complete engine
          (asked store engine jwt keys service settings audit_all body grants now token) refs refl
          p in
      (bound, whole, ground arith, p)

  -- The endpoint allows a request only if the caller is bound to the tenant, and the request that the
  -- body and the delegation token stand for is permitted: tenant and application active, the subject's
  -- roles (of both the user and the agent, where an agent acts), the tenant's mask, the grant of the
  -- token and the policy rules. That request is on the rows that the store finds for what the body names,
  -- for the body's resource, action and context, and under the permissions, the user and the agent of the
  -- verified grant; without a token, which an agent then must not need, it is under no grant.
  pub authorize_sound :
      (body : AuthorizeBody) (principal : Principal) (grants : Grants) (now : ℕ)
      (token : Option ((jwt).Token)) (request_id : Option String) (fresh : String)
      (log after : List AuditEntry) (r : AuthorizeResponse)
      → authorize store engine jwt keys service settings audit_all body principal grants now token
          request_id fresh log
        ≡ ok (r, after)
      → r.allowed ≡ true
      → (enforce_tenant_scope_binding principal (rows_of store body).tenant_id ≡ ok tt)
        × ((request : AuthorizeRequest) × IsRequestOf store engine jwt keys service settings
              audit_all body grants now token request
            × IsPermitted engine request)
  authorize_sound body principal grants now token request_id fresh log after r h allowed =
      let (bound, whole, accepted, p) =
        allowed_request body principal grants now token request_id fresh log after r h allowed in
      (
        bound,
        (
          asked store engine jwt keys service settings audit_all body grants now token,
          asked-IsRequestOf store engine jwt keys service settings audit_all body grants now token
              accepted,
          p,
        ),
      )

  -- With a delegation token the endpoint allows a request only if all that its body names was found, and
  -- only under a stored grant that `verify` accepts now, that is for the tenant, the application, the
  -- user and the agent that the body names (where it names a user or an agent at all), and that lists
  -- the permission of the body's resource and action.
  pub authorize-delegated :
      (body : AuthorizeBody) (principal : Principal) (grants : Grants) (now : ℕ)
      (token : (jwt).Token) (request_id : Option String) (fresh : String)
      (log after : List AuditEntry) (r : AuthorizeResponse)
      → authorize store engine jwt keys service settings audit_all body principal grants now
          (some token)
          request_id
          fresh
          log
        ≡ ok (r, after)
      → r.allowed ≡ true
      → let rows = rows_of store body in
        (complete rows ≡ true)
        × ((grant : DelegationGrant) × (verify jwt keys service grants now token ≡ ok grant)
            × (grant.tenant_id ≡ rows.tenant_id)
            × (grant.application_id ≡ rows.application_id)
            × (body.subject.type ≡ "agent")
            × IsOrNone rows.user_id grant.user_id
            × IsOrNone rows.agent_id grant.agent_id
            × (contains (permission_name body.resource body.action) grant.permissions ≡ true))
  authorize-delegated body principal grants now token request_id fresh log after r h allowed =
      let (bound, whole, accepted, p) =
        allowed_request body principal grants now (some token) request_id fresh log after r h
          allowed in
      elim (outcome_of-AppliesAs store engine jwt keys service settings audit_all body grants now
        (some token) accepted) [
          | inl (no_token, free, unlimited, same) ↦ absurd (cc)
          | inr (t, grant, is_t, verified, listed, is_for, filled) ↦ (
            whole,
            (
              grant,
              let same : t ≡ token = cc in rw⁻¹ same verified,
              is_for.of_tenant,
              is_for.of_application,
              is_for.typed,
              is_for.of_user,
              is_for.of_agent,
              rw listed at p.delegated,
            ),
          )
        ]
