-- ===== src/Service/Delegations/Handlers.antt =====
-- authz_service/api/delegations.py: listing, introspecting and revoking grants, and the check of a
-- delegation token by the decision endpoints.
use authz.Base.{
  ℕ, String, Bool, true, false, not, ◌||◌, Option, none, some, List, [], map, Result, ok, err,
  ◌>>=◌, ◌>>◌, is_blank, string_eq, option_eq, if◌then◌else◌,
}
use authz.Policies.Value.{type_error, str, field, end}
use authz.Tenancy.Models.{Tenant}
use authz.Security.Tokens.{Jwt, SigningKeys}
use authz.Security.Delegations.{
  DelegationGrant, Grants, DelegationService, DelegationError, verify, revoke, revoke_matching,
}
use authz.Security.Delegations.Listing.{get, list, paginate_params}
use authz.Security.Principal.{Principal}
use authz.Service.Http.{Raised, python, http_error, one_field}
use authz.Service.Callers.Require.{enforce_tenant_scope_binding}
use authz.Service.References.{
  UserRef, ReferenceStore, require_tenant, require_bound_tenant, require_application,
  require_agent_id, find_user_id, find_agent_id,
}
use authz.Service.Delegations.{DelegationOut, RevokeIn, out, user_of}

-- ---- Revoking

module _ (store : ReferenceStore) where
  abbrev revoke_agent : (tenant_id : String) → RevokeIn → Result Raised (Option String)
  revoke_agent tenant_id body = elim (body.agent_name) [
    | none ↦ ok body.agent_id
    | some name ↦ elim (body.application_id) [
      | none ↦ err (python type_error)
      | some ref ↦ do
        application ← require_application store ref
        agent_id ← require_agent_id store tenant_id application.id name
        ok (some agent_id)
    ]
  ]

  -- `revoke_delegations`: the number of grants revoked. The body has an application where it names an
  -- agent.
  unfoldable pub revoke_delegations :
      (now : ℕ) → RevokeIn → Principal → Grants → Result Raised (ℕ × Grants)
  revoke_delegations now body principal grants = do
    tenant ← require_bound_tenant store body.tenant_id principal
    user_id ← user_of store body.user_id body.user_ref
    agent_id ← revoke_agent tenant.id body
    ok (revoke_matching now tenant.id user_id agent_id grants)

-- `_grant_for_caller`
unfoldable pub grant_for_caller : String → Principal → Grants → Result Raised DelegationGrant
grant_for_caller grant_id principal grants = elim (get grant_id grants) [
  | none ↦ err (http_error 404 (one_field "reason" "delegation_not_found"))
  | some grant ↦ enforce_tenant_scope_binding principal grant.tenant_id >> ok grant
]

unfoldable pub get_delegation :
    (now : ℕ) → String → Principal → Grants → Result Raised DelegationOut
get_delegation now grant_id principal grants =
    grant_for_caller grant_id principal grants >>= λ grant. ok (out now grant)

unfoldable pub revoke_delegation : (now : ℕ) → String → Principal → Grants → Result Raised Grants
revoke_delegation now grant_id principal grants =
    grant_for_caller grant_id principal grants >>= λ grant. ok (revoke now grant_id grants).1

-- The answer of `introspect_delegation`.
pub data Introspection : Type 0 where
  inactive : (reason : String) → Introspection
  active : DelegationOut → Introspection

module _ (jwt : Jwt) (keys : SigningKeys) where
  abbrev introspected :
      (now : ℕ) → Principal → Result DelegationError DelegationGrant → Result Raised Introspection
  introspected now principal (err e) = ok (inactive e.reason)
  introspected now principal (ok grant) =
      enforce_tenant_scope_binding principal grant.tenant_id >> ok (active (out now grant))

  unfoldable pub introspect_delegation :
      DelegationService → Grants → (now : ℕ) → (jwt).Token → Principal → Result Raised Introspection
  introspect_delegation service grants now token principal =
      introspected now principal (verify jwt keys service grants now token)

-- ---- Listing

-- The filters of `list_delegations`.
pub record Filters : Type 0 where
  pub tenant_id : Option String
  pub user_id : Option String
  pub user_provider : Option String
  pub user_issuer : Option String
  pub user_subject : Option String
  pub application_id : Option String
  pub agent_id : Option String
  pub agent_name : Option String
  pub active_only : Bool

abbrev is_given : Option String → Bool
is_given none = false
is_given (some x) = true

abbrev whole_ref : Option String → Option String → Option String → Option UserRef
whole_ref (some provider) (some issuer) (some subject) =
    some (record { provider = provider; issuer = issuer; subject = subject })
whole_ref provider issuer subject = none

abbrev invalid_user_ref : Raised
invalid_user_ref = http_error 422 (
    field "error" (str "invalid_user_ref")
      (field "hint" (str "user_id or all of user_provider, user_issuer, user_subject") end))

-- The user's identity, if its parts are given, and all.
unfoldable pub user_filter : Filters → Result Raised (Option UserRef)
user_filter f =
    if is_given f.user_provider || is_given f.user_issuer || is_given f.user_subject
    then (elim (whole_ref f.user_provider f.user_issuer f.user_subject) [
      | none ↦ err invalid_user_ref
      | some ref ↦ if is_given f.user_id then err invalid_user_ref else ok (some ref)
    ])
    else ok none

abbrev invalid_agent_ref : Raised
invalid_agent_ref = http_error 422 (
    field "error" (str "invalid_agent_ref") (
      field "hint" (str "agent_name needs tenant_id and application_id, and excludes agent_id")
        end))

-- The application and the agent's name.
unfoldable pub agent_filter : Filters → Result Raised (Option (String × String))
agent_filter f = elim (f.agent_name) [
  | none ↦ ok none
  | some name ↦ elim (f.application_id) [
    | none ↦ err invalid_agent_ref
    | some application ↦
        if is_given f.agent_id || not (is_given f.tenant_id)
        then err invalid_agent_ref
        else ok (some (application, name))
  ]
]

module _ (store : ReferenceStore) where
  unfoldable pub tenant_filter : Option String → Result Raised (Option Tenant)
  tenant_filter none = ok none
  tenant_filter (some ref) =
      if is_blank ref then ok none else (require_tenant store ref >>= λ tenant. ok (some tenant))

  -- A filter, or that nothing can match.
  abbrev user_filtered : Filters → Option UserRef → Option (Option String)
  user_filtered f none = some f.user_id
  user_filtered f (some ref) = elim (find_user_id store ref) [
    | none ↦ none
    | some user_id ↦ some (some user_id)
  ]

  abbrev agent_filtered :
      Filters → Option Tenant → Option (String × String) → Option (Option String)
  agent_filtered f tenant none = some f.agent_id
  agent_filtered f none (some (application, name)) = none
  agent_filtered f (some tenant) (some (application, name)) =
      elim (store.find_application application) [
        | none ↦ none
        | some app ↦ elim (find_agent_id store tenant.id app.id name) [
          | none ↦ none
          | some agent_id ↦ some (some agent_id)
        ]
      ]

  abbrev tenant_id_of : Option Tenant → Option String
  tenant_id_of none = none
  tenant_id_of (some tenant) = some tenant.id

  abbrev listed :
      (now page page_size : ℕ)
      → Filters
      → Option Tenant
      → Option (Option String)
      → Option (Option String)
      → Grants
      → List DelegationOut
  listed now page page_size f tenant none agent grants = []
  listed now page page_size f tenant (some user_id) none grants = []
  listed now page page_size f tenant (some user_id) (some agent_id) grants =
      let (offset, limit) = paginate_params page page_size in
      map (out now)
        (list (tenant_id_of tenant) user_id agent_id f.active_only now offset limit grants)

  unfoldable pub list_delegations :
      (now page page_size : ℕ) → Filters → Grants → Result Raised (List DelegationOut)
  list_delegations now page page_size f grants = do
    user_ref ← user_filter f
    agent_ref ← agent_filter f
    tenant ← tenant_filter f.tenant_id
    ok (
        listed now page page_size f tenant (user_filtered f user_ref)
          (agent_filtered f tenant agent_ref) grants)
