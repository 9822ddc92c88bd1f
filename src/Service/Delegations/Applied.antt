-- ===== src/Service/Delegations/Applied.antt =====
-- authz_service/api/delegations.py: `apply_delegation`, and what a token that it accepts stands for.
use authz.Base.{
  ℕ, String, Bool, true, ◌&&◌, Option, none, some, List, Result, ok, err, Result-cases, Bool-cases,
  ◌⊎◌, inl, inr, false, ◌≡◌, refl, arith, eq_iff, ◌==◌, string_eq, option_eq, if◌then◌else◌,
}
use authz.Security.Tokens.{Jwt, SigningKeys}
use authz.Security.Delegations.{DelegationGrant, Grants, DelegationService, DelegationError, verify}
use authz.Service.References.{SubjectSchema}
use authz.Service.Delegations.{DelegationSettings}

pub record DelegationOutcome : Type 0 where
  pub permissions : Option (List String)
  pub grant_id : Option String
  pub deny_reason : Option String
  pub subject : SubjectSchema

-- `x or y`
abbrev or_else : Option String → String → String
or_else none y = y
or_else (some x) y = if x == "" then y else x

abbrev pub filled : SubjectSchema → DelegationGrant → SubjectSchema
filled subject grant = record subject {
  user_id = some (or_else subject.user_id grant.user_id);
  agent_id = some (or_else subject.agent_id grant.agent_id);
}

-- The grant is for this tenant, application, user and agent.
unfoldable pub matches :
    (tenant_id application_id : String) → SubjectSchema → DelegationGrant → Bool
matches tenant_id application_id subject grant =
    tenant_id == grant.tenant_id
    && application_id == grant.application_id
    && subject.user_id == some grant.user_id
    && subject.agent_id == some grant.agent_id

abbrev denied : Option String → String → SubjectSchema → DelegationOutcome
denied grant_id reason subject = record {
  permissions = none;
  grant_id = grant_id;
  deny_reason = some reason;
  subject = subject;
}

abbrev pub no_delegation : SubjectSchema → DelegationOutcome
no_delegation subject = record {
  permissions = none;
  grant_id = none;
  deny_reason = none;
  subject = subject;
}

abbrev verified :
    (tenant_id application_id : String)
    → SubjectSchema
    → Result DelegationError DelegationGrant
    → DelegationOutcome
verified tenant_id application_id subject (err e) = denied none e.reason subject
verified tenant_id application_id subject (ok grant) =
    if subject.type == "agent"
    then (if matches tenant_id application_id (filled subject grant) grant
        then record {
          permissions = some grant.permissions;
          grant_id = some grant.id;
          deny_reason = none;
          subject = filled subject grant;
        }
        else denied (some grant.id) "delegation_mismatch" (filled subject grant))
    else denied (some grant.id) "delegation_mismatch" subject

module _ (jwt : Jwt) (keys : SigningKeys) where
  -- `apply_delegation`; a token that is missing or empty is none.
  unfoldable pub apply_delegation :
      Option ((jwt).Token)
      → (tenant_id application_id : String) → SubjectSchema
      → DelegationService
      → DelegationSettings
      → Grants
      → (now : ℕ) → DelegationOutcome
  apply_delegation none tenant_id application_id subject service settings grants now =
      if settings.delegation_required && subject.type == "agent"
      then denied none "delegation_required" subject
      else no_delegation subject
  apply_delegation (some token) tenant_id application_id subject service settings grants now =
      verified tenant_id application_id subject (verify jwt keys service grants now token)

-- The one of the grant is named, or none is.
abbrev pub IsOrNone : (named : Option String) → (granted : String) → Type 0
IsOrNone named granted = (named ≡ none) ⊎ (named ≡ some "") ⊎ (named ≡ some granted)

-- A grant that is for the tenant and the application, for an agent, and for the user and the agent that
-- the subject names, where it names them.
pub record IsFor (tenant_id application_id : String) (subject : SubjectSchema)
    (grant : DelegationGrant) : Type 0 where
  pub of_tenant : grant.tenant_id ≡ tenant_id
  pub of_application : grant.application_id ≡ application_id
  pub typed : subject.type ≡ "agent"
  pub of_user : IsOrNone subject.user_id grant.user_id
  pub of_agent : IsOrNone subject.agent_id grant.agent_id

or_else-IsOrNone :
    (named : Option String) (granted : String)
    → (some (or_else named granted) == some granted) ≡ true
    → IsOrNone named granted
or_else-IsOrNone none granted h = inl refl
or_else-IsOrNone (some x) granted h = elim (Bool-cases (x == "")) [
  | inl empty ↦ inr (inl (ground (arith, eq_iff x "")))
  | inr given ↦ inr (inr (ground (arith, eq_iff x granted)))
]

filled-IsFor :
    (tenant_id application_id : String) (subject : SubjectSchema) (grant : DelegationGrant)
    → subject.type ≡ "agent"
    → matches tenant_id application_id (filled subject grant) grant ≡ true
    → IsFor tenant_id application_id subject grant
unfolding matches
filled-IsFor tenant_id application_id subject grant agent h = record {
  of_tenant = ground (arith, eq_iff tenant_id grant.tenant_id);
  of_application = ground (arith, eq_iff application_id grant.application_id);
  typed = agent;
  of_user = or_else-IsOrNone subject.user_id grant.user_id (ground arith);
  of_agent = or_else-IsOrNone subject.agent_id grant.agent_id (ground arith);
}

filled-named :
    (tenant_id application_id : String) (subject : SubjectSchema) (grant : DelegationGrant)
    → matches tenant_id application_id (filled subject grant) grant ≡ true
    → ((filled subject grant).user_id ≡ some grant.user_id)
      × ((filled subject grant).agent_id ≡ some grant.agent_id)
unfolding matches
filled-named tenant_id application_id subject grant h =
    let full = filled subject grant in
    (
      ((option_eq {A = String}).beq_iff full.user_id (some grant.user_id)).0 (ground arith),
      ((option_eq {A = String}).beq_iff full.agent_id (some grant.agent_id)).0 (ground arith),
    )

module _ (jwt : Jwt) (keys : SigningKeys) (tenant_id application_id : String)
    (subject : SubjectSchema) (service : DelegationService) (settings : DelegationSettings)
    (grants : Grants) (now : ℕ) where
  -- What a request asks under, for which nothing is refused: nothing, where there is no token and none
  -- is needed; or a stored grant that is verified now and is for this request.
  abbrev pub AppliesAs : Option ((jwt).Token) → (outcome : DelegationOutcome) → Type 0
  AppliesAs token outcome =
      ((token ≡ none)
        × ((settings.delegation_required && subject.type == "agent") ≡ false)
        × (outcome.permissions ≡ none)
        × (outcome.subject ≡ subject))
      ⊎ ((t : (jwt).Token) × (grant : DelegationGrant) × (token ≡ some t)
          × (verify jwt keys service grants now t ≡ ok grant)
          × (outcome.permissions ≡ some grant.permissions)
          × IsFor tenant_id application_id subject grant
          × (outcome.subject
              ≡ record subject { user_id = some grant.user_id; agent_id = some grant.agent_id }))

  pub apply_delegation-AppliesAs :
      (token : Option ((jwt).Token))
      → let outcome =
          apply_delegation jwt keys token tenant_id application_id subject service settings grants
            now in
        outcome.deny_reason ≡ none → AppliesAs token outcome
  unfolding apply_delegation
  apply_delegation-AppliesAs none h =
      elim (Bool-cases (settings.delegation_required && subject.type == "agent")) [
        | inl needed ↦ absurd (ground arith)
        | inr free ↦ inl (refl, free, ground arith, ground arith)
      ]
  apply_delegation-AppliesAs (some token) h =
      elim (Result-cases (verify jwt keys service grants now token)) [
        | inr (e, refused) ↦ absurd (ground arith)
        | inl (grant, accepted) ↦
            let agent : subject.type ≡ "agent" = ground (arith, eq_iff subject.type "agent") in
            let is_agent : (subject.type == "agent") ≡ true = rw agent refl in
            let hit : matches tenant_id application_id (filled subject grant) grant ≡ true =
              ground arith in
            let (user, acting) = filled-named tenant_id application_id subject grant hit in
            inr (
              token,
              grant,
              refl,
              accepted,
              ground arith,
              filled-IsFor tenant_id application_id subject grant agent hit,
              rw (accepted, is_agent, hit) (rw (user, acting) refl),
            )
      ]
