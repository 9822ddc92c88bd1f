-- ===== src/Service/Authorize/Asked.antt =====
-- authz_service/api/authorize.py: the request that a call of the decision endpoint stands for.
use authz.Base.{
  ℕ, Bool, false, ◌&&◌, ◌==◌, ◌⊎◌, Option, none, some, ok, string_eq, option_eq, inl, inr, ◌≡◌,
  refl, arith,
}
use authz.Rbac.Requests.{ResolvedReferences, AuthorizeRequest}
use authz.Rbac.Checker.{AuthorizationEngine}
use authz.Security.Tokens.{Jwt, SigningKeys}
use authz.Security.Delegations.{DelegationGrant, Grants, DelegationService, verify}
use authz.Service.References.{ReferenceStore, SubjectSchema, resolve_decision_refs}
use authz.Service.Delegations.{DelegationSettings}
use authz.Service.Delegations.Applied.{
  DelegationOutcome, IsFor, AppliesAs, apply_delegation, apply_delegation-AppliesAs,
}
use authz.Service.Authorize.{AuthorizeBody, to_subject}
use authz.Service.Authorize.Handlers.{engine_request}

-- What the store makes of the references of a request.
abbrev pub refs_of : ReferenceStore → AuthorizeBody → ResolvedReferences
refs_of store body = (resolve_decision_refs store body.tenant_id body.application_id body.subject).0

-- The rows that the store finds for what the body names.
abbrev pub rows_of : ReferenceStore → AuthorizeBody → ResolvedReferences
rows_of store body =
    store.resolve_references body.tenant_id body.application_id body.subject.user_id
      body.subject.user_ref body.subject.agent_id body.subject.agent_name

-- The body's subject, by the ids of these rows.
abbrev pub subject_of : ReferenceStore → AuthorizeBody → SubjectSchema
subject_of store body =
    let rows = rows_of store body in
    record body.subject {
      user_id = rows.user_id;
      agent_id = rows.agent_id;
      user_ref = none;
      agent_name = none;
    }

module _ (store : ReferenceStore) (engine : AuthorizationEngine) (jwt : Jwt) (keys : SigningKeys)
    (service : DelegationService) (settings : DelegationSettings) (audit_all : Bool) where
  -- What the delegation token, if any, makes of a request.
  abbrev pub outcome_of : AuthorizeBody → Grants → ℕ → Option ((jwt).Token) → DelegationOutcome
  outcome_of body grants now token =
      apply_delegation jwt keys token (refs_of store body).tenant_id
        (refs_of store body).application_id
        (resolve_decision_refs store body.tenant_id body.application_id body.subject).1 service
        settings grants now

  -- The request that the engine answers.
  abbrev pub asked : AuthorizeBody → Grants → ℕ → Option ((jwt).Token) → AuthorizeRequest
  asked body grants now token =
      engine_request body (refs_of store body) (outcome_of body grants now token)

  -- What delegation makes of a request: nothing, without a token, where none is needed; or, with one,
  -- the request is made under a stored grant that is verified now and is for the tenant, the application
  -- and the agent and user that the body names, in whose name it is answered.
  abbrev pub IsDelegated :
      AuthorizeBody → Grants → (now : ℕ) → Option ((jwt).Token) → AuthorizeRequest → Type 0
  IsDelegated body grants now token request =
      let rows = rows_of store body in
      ((token ≡ none)
        × ((settings.delegation_required && body.subject.type == "agent") ≡ false)
        × (request.delegated_permissions ≡ none)
        × (request.subject.user_id ≡ rows.user_id)
        × (request.subject.agent_id ≡ rows.agent_id))
      ⊎ ((t : (jwt).Token) × (grant : DelegationGrant) × (token ≡ some t)
          × (verify jwt keys service grants now t ≡ ok grant)
          × (request.delegated_permissions ≡ some grant.permissions)
          × IsFor rows.tenant_id rows.application_id (subject_of store body) grant
          × (request.subject.user_id ≡ some grant.user_id)
          × (request.subject.agent_id ≡ some grant.agent_id))

  -- The request that a body stands for: on the rows that the store finds, for the body's resource,
  -- action and context, and under the token's grant.
  pub record IsRequestOf (body : AuthorizeBody) (grants : Grants) (now : ℕ)
      (token : Option ((jwt).Token)) (request : AuthorizeRequest) : Type 0 where
    pub on_tenant : request.tenant_id ≡ (rows_of store body).tenant_id
    pub on_application : request.application_id ≡ (rows_of store body).application_id
    pub references : request.references ≡ some (rows_of store body)
    pub subject_type : request.subject.type ≡ body.subject.type
    pub service_account : request.subject.service_account_id ≡ body.subject.service_account_id
    pub resource : request.resource ≡ body.resource
    pub action : request.action ≡ body.action
    pub context : request.context ≡ body.context
    pub delegated : IsDelegated body grants now token request

  pub outcome_of-AppliesAs :
      (body : AuthorizeBody) (grants : Grants) (now : ℕ) (token : Option ((jwt).Token))
      → (outcome_of body grants now token).deny_reason ≡ none
      → AppliesAs jwt keys
          (rows_of store body).tenant_id
          (rows_of store body).application_id
          (subject_of store body)
          service
          settings
          grants
          now
          token
          (outcome_of body grants now token)
  unfolding resolve_decision_refs
  outcome_of-AppliesAs body grants now token h =
      apply_delegation-AppliesAs jwt keys (rows_of store body).tenant_id
        (rows_of store body).application_id (subject_of store body) service settings grants now
        token h

  asked-IsDelegated :
      (body : AuthorizeBody) (grants : Grants) (now : ℕ) (token : Option ((jwt).Token))
      → AppliesAs jwt keys
          (rows_of store body).tenant_id
          (rows_of store body).application_id
          (subject_of store body)
          service
          settings
          grants
          now
          token
          (outcome_of body grants now token)
      → let request = asked body grants now token in
        (request.subject.type ≡ body.subject.type)
        × (request.subject.service_account_id ≡ body.subject.service_account_id)
        × IsDelegated body grants now token request
  unfolding to_subject
  asked-IsDelegated body grants now token (inl (no_token, free, unlimited, same)) = (
    ground (arith, same),
    ground (arith, same),
    inl (no_token, free, unlimited, ground (arith, same), ground (arith, same)),
  )
  asked-IsDelegated body grants now token (inr (t, grant, is_t, accepted, listed, is_for, same)) = (
    ground (arith, same),
    ground (arith, same),
    inr (t, grant, is_t, accepted, listed, is_for, ground (arith, same), ground (arith, same)),
  )

  pub asked-IsRequestOf :
      (body : AuthorizeBody) (grants : Grants) (now : ℕ) (token : Option ((jwt).Token))
      → (outcome_of body grants now token).deny_reason ≡ none
      → IsRequestOf body grants now token (asked body grants now token)
  unfolding resolve_decision_refs to_subject
  asked-IsRequestOf body grants now token h =
      let (typed, served, delegated) =
        asked-IsDelegated body grants now token (outcome_of-AppliesAs body grants now token h) in
      record {
        on_tenant = refl;
        on_application = refl;
        references = refl;
        subject_type = typed;
        service_account = served;
        resource = refl;
        action = refl;
        context = refl;
        delegated = delegated;
      }
