-- ===== src/Service/Delegations.antt =====
-- authz_service/api/delegations.py: the handlers of delegation grants. PyJWT, the signing keys and the
-- SQL store are parameters as in their own modules.
pub mod Handlers
pub mod Applied
pub mod Issued
pub mod Granted
use authz.Base.{
  ℕ, ◌*◌, String, Bool, true, false, not, ◌&&◌, ◌||◌, Option, none, some, List, [], ◌∷◌, Result, ok,
  err, guard, ◌>>=◌, ◌>>◌, sorted_set, minus, leb, is_nonempty, is_blank, ltb, starts_with, lookup,
  ◌==◌, string_eq, option_eq, if◌then◌else◌,
}
use authz.Policies.Value.{Value, str, num, pos, arr, nil, cons, Items, Fields, end, field}
use authz.Rbac.Requests.{Subject, ResolvedReferences}
use authz.Rbac.Checker.{AuthorizationEngine, effective_permissions}
use authz.Tenancy.Models.{Tenant, Application, Agent}
use authz.Security.Tokens.{Jwt, SigningKeys}
use authz.Security.Delegations.{
  DelegationGrant, Grants, DelegationService, DelegationError, is_active, issue, verify, revoke,
  revoke_matching,
}
use authz.Security.Principal.{Principal, principal_subject_label}
use authz.Security.SigningKeys.{KeyError}
use authz.Service.Http.{Raised, no_key, not_signed, http_error, one_field}
use authz.Service.Callers.Require.{enforce_tenant_scope_binding}
use authz.Service.References.{
  UserRef, SubjectSchema, ReferenceStore, require_bound_tenant, require_application,
  require_user_id, require_agent_id,
}

-- What the handlers read of authz_service/config.py.
pub record DelegationSettings : Type 0 where
  pub delegation_default_ttl_seconds : ℕ
  pub delegation_max_ttl_seconds : ℕ
  pub delegation_required : Bool
  pub database_url : String

pub record DelegationIn : Type 0 where
  pub tenant_id : String
  pub application_id : String
  pub user_id : Option String
  pub user_ref : Option UserRef
  pub agent_id : Option String
  pub agent_name : Option String
  pub permissions : Option (List String)
  pub ttl_seconds : Option ℕ
  pub purpose : Option String

pub record DelegationOut : Type 0 where
  pub id : String
  pub tenant_id : String
  pub application_id : String
  pub user_id : String
  pub agent_id : String
  pub permissions : List String
  pub purpose : Option String
  pub issued_by : Option String
  pub status : String
  pub active : Bool
  pub expires_at : ℕ
  pub revoked_at : Option ℕ
  pub created_at : Option ℕ

pub record RevokeIn : Type 0 where
  pub tenant_id : String
  pub application_id : Option String
  pub user_id : Option String
  pub user_ref : Option UserRef
  pub agent_id : Option String
  pub agent_name : Option String

-- `_out`
unfoldable pub out : (now : ℕ) → DelegationGrant → DelegationOut
out now grant = record {
  id = grant.id;
  tenant_id = grant.tenant_id;
  application_id = grant.application_id;
  user_id = grant.user_id;
  agent_id = grant.agent_id;
  permissions = sorted_set grant.permissions;
  purpose = grant.purpose;
  issued_by = grant.issued_by;
  status = grant.status;
  active = is_active now grant;
  expires_at = grant.expires_at;
  revoked_at = grant.revoked_at;
  created_at = grant.created_at;
}

-- ---- References of a body

module _ (store : ReferenceStore) where
  abbrev pub user_of : Option String → Option UserRef → Result Raised (Option String)
  user_of user_id none = ok user_id
  user_of user_id (some ref) = require_user_id store ref >>= λ id. ok (some id)

  abbrev pub agent_of :
      (tenant_id application_id : String)
      → Option String
      → (agent_name : Option String) → Result Raised (Option String)
  agent_of tenant_id application_id agent_id none = ok agent_id
  agent_of tenant_id application_id agent_id (some name) =
      require_agent_id store tenant_id application_id name >>= λ id. ok (some id)

  abbrev pub stored_agent :
      (tenant_id application_id : String) → Option String → Result Raised (String × Agent)
  stored_agent tenant_id application_id none =
      err (http_error 404 (one_field "reason" "agent_not_found"))
  stored_agent tenant_id application_id (some agent_id) =
      elim (store.get_agent tenant_id application_id agent_id) [
        | none ↦ err (http_error 404 (one_field "reason" "agent_not_found"))
        | some agent ↦ ok (agent_id, agent)
      ]

  abbrev pub member : (tenant_id application_id : String) → Option String → Result Raised String
  member tenant_id application_id none =
      err (http_error 409 (one_field "error" "no_active_user_membership"))
  member tenant_id application_id (some user_id) =
      if store.is_user_membership_active tenant_id application_id user_id
      then ok user_id
      else err (http_error 409 (one_field "error" "no_active_user_membership"))

-- `body.ttl_seconds or settings.delegation_default_ttl_seconds`
abbrev pub ttl_of : DelegationSettings → Option ℕ → ℕ
ttl_of settings none = settings.delegation_default_ttl_seconds
ttl_of settings (some n) = if leb 1 n then n else settings.delegation_default_ttl_seconds

unfoldable pub texts : List String → Items
texts [] = nil
texts (x ∷ xs) = cons (str x) (texts xs)

-- `set(available)`, or what is asked for if the agent may do it all
unfoldable pub requested_of :
    (available : List String) → Option (List String) → Result Raised (List String)
requested_of available none = ok available
requested_of available (some requested) =
    let not_delegable = sorted_set (minus requested available) in
    if is_nonempty not_delegable
    then err (
        http_error 403 (
          field "error" (str "permissions_not_delegable")
            (field "permissions" (arr (texts not_delegable)) end)))
    else ok requested

abbrev ttl_too_long : DelegationSettings → Raised
ttl_too_long settings = http_error 400 (
    field "error" (str "ttl_too_long")
      (field "max_ttl_seconds" (num (pos settings.delegation_max_ttl_seconds)) end))

abbrev key_unavailable : Raised
key_unavailable = http_error 503 (
    field "error" (str "signing_key_unavailable") (
      field "hint" (str "set AUTHZ_OAUTH_SIGNING_KEY_PEM or run `authz oauth signing-key generate`")
        end))

-- An agent that acts for a user.
abbrev pub agent_subject : (user_id agent_id : String) → Subject
agent_subject user_id agent_id = record {
  type = "agent";
  user_id = some user_id;
  agent_id = some agent_id;
  service_account_id = none;
}

-- What a new grant is made of, once the request has been checked.
pub record GrantPlan : Type 0 where
  pub tenant_id : String
  pub application_id : String
  pub user_id : String
  pub agent_id : String
  pub permissions : List String
  pub ttl_seconds : ℕ

module _ (engine : AuthorizationEngine) (settings : DelegationSettings) where
  -- `create_delegation`: the agent's state, the time and the permissions
  unfoldable pub plan_for :
      DelegationIn
      → (tenant_id application_id user_id agent_id : String) → Agent
      → Result Raised GrantPlan
  plan_for body tenant_id application_id user_id agent_id agent =
      let ttl = ttl_of settings body.ttl_seconds in
      if not (agent.status == "active")
      then err (http_error 409 (one_field "error" "agent_not_active"))
      else if ltb settings.delegation_max_ttl_seconds ttl
      then err (ttl_too_long settings)
      else (requested_of
            (effective_permissions engine tenant_id application_id (agent_subject user_id agent_id)
              none none)
            body.permissions
          >>= λ permissions. ok (record {
            tenant_id = tenant_id;
            application_id = application_id;
            user_id = user_id;
            agent_id = agent_id;
            permissions = permissions;
            ttl_seconds = ttl;
          }))

module _ (store : ReferenceStore) (engine : AuthorizationEngine)
    (settings : DelegationSettings) where
  -- `create_delegation`, from the application on
  unfoldable pub plan_in :
      DelegationIn → (tenant_id application_id : String) → Result Raised GrantPlan
  plan_in body tenant_id application_id = do
    user_or_none ← user_of store body.user_id body.user_ref
    agent_or_none ← agent_of store tenant_id application_id body.agent_id body.agent_name
    (agent_id, agent) ← stored_agent store tenant_id application_id agent_or_none
    user_id ← member store tenant_id application_id user_or_none
    plan_for engine settings body tenant_id application_id user_id agent_id agent

  -- `create_delegation`, up to the call of `issue`
  unfoldable pub planned : DelegationIn → Principal → Result Raised GrantPlan
  planned body principal = do
    tenant ← require_bound_tenant store body.tenant_id principal
    application ← require_application store body.application_id
    plan_in body tenant.id application.id

module _ (store : ReferenceStore) (engine : AuthorizationEngine) (settings : DelegationSettings)
    (jwt : Jwt) (keys : SigningKeys) where
  abbrev issue_plan :
      SigningKeys
      → DelegationService
      → (id : String) → GrantPlan
      → (purpose : Option String) → Principal
      → (now : ℕ) → Grants
      → Result String ((DelegationGrant × (jwt).Token) × Grants)
  issue_plan used service id p purpose principal now grants =
      issue jwt used service id p.tenant_id p.application_id p.user_id p.agent_id p.permissions
        (p.ttl_seconds * 1000000) purpose (some (principal_subject_label principal)) now grants

  abbrev created :
      (now : ℕ)
      → Result String ((DelegationGrant × (jwt).Token) × Grants)
      → Result Raised ((DelegationOut × (jwt).Token) × Grants)
  created now (ok ((g, token), grants)) = ok ((out now g, token), grants)
  created now (err e) = err (not_signed e)

  -- The keys after `generate_if_missing`, and the second call of `issue`.
  abbrev retried :
      (now : ℕ)
      → (SigningKeys → Result String ((DelegationGrant × (jwt).Token) × Grants))
      → Result KeyError SigningKeys
      → Result Raised ((DelegationOut × (jwt).Token) × Grants)
  retried now again (err e) = err (no_key e)
  retried now again (ok generated) = created now (again generated)

  abbrev issued :
      (now : ℕ)
      → (SigningKeys → Result String ((DelegationGrant × (jwt).Token) × Grants))
      → Result KeyError SigningKeys
      → Result String ((DelegationGrant × (jwt).Token) × Grants)
      → Result Raised ((DelegationOut × (jwt).Token) × Grants)
  issued now again generated (ok r) = created now (ok r)
  issued now again generated (err e) =
      if starts_with "sqlite" settings.database_url
      then retried now again generated
      else err key_unavailable

  -- `create_delegation`. `generated` is what `generate_if_missing` leaves where it is called.
  unfoldable pub create_delegation :
      (generated : Result KeyError SigningKeys)
      → DelegationService
      → (id : String) → DelegationIn
      → Principal
      → (now : ℕ) → Grants
      → Result Raised ((DelegationOut × (jwt).Token) × Grants)
  create_delegation generated service id body principal now grants = do
    p ← planned store engine settings body principal
    issued now (λ used. issue_plan used service id p body.purpose principal now grants) generated
        (issue_plan keys service id p body.purpose principal now grants)
