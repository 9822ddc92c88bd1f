-- ===== src/Service/References.antt =====
-- authz_service/references.py: tenants, applications, users and agents that a caller names. What the
-- handlers ask of the SQL store is a record.
use authz.Base.{String, Bool, Option, none, some, Result, ok, err, ◌>>◌}
use authz.Rbac.Requests.{ResolvedReferences}
use authz.Tenancy.Models.{Tenant, Application, User, Agent}
use authz.Security.Principal.{Principal}
use authz.Service.Http.{Raised, http_error, one_field}
use authz.Service.Callers.Require.{enforce_tenant_scope_binding}

pub record UserRef : Type 0 where
  pub provider : String
  pub issuer : String
  pub subject : String

-- `SubjectSchema` (authzkit/service/schemas.py)
pub record SubjectSchema : Type 0 where
  pub type : String
  pub user_id : Option String
  pub user_ref : Option UserRef
  pub agent_id : Option String
  pub agent_name : Option String
  pub service_account_id : Option String

pub record ReferenceStore : Type 0 where
  pub find_tenant : String → Option Tenant
  pub find_application : String → Option Application
  pub find_user_by_external_identity : (provider issuer subject : String) → Option User
  pub find_agent_by_name : (tenant_id application_id name : String) → Option Agent
  pub get_agent : (tenant_id application_id agent_id : String) → Option Agent
  pub is_user_membership_active : (tenant_id application_id user_id : String) → Bool
  pub resolve_references :
      (tenant application : String)
      → (user_id : Option String) → (user_ref : Option UserRef)
      → (agent_id agent_name : Option String) → ResolvedReferences

abbrev user_id_of : Option User → Option String
user_id_of none = none
user_id_of (some user) = some user.id

abbrev agent_id_of : Option Agent → Option String
agent_id_of none = none
agent_id_of (some agent) = some agent.id

-- The row, or a 404.
abbrev found : {A : Type 0} → (reason : String) → Option A → Result Raised A
found reason none = err (http_error 404 (one_field "reason" reason))
found reason (some a) = ok a

-- The tenant's id, or the reference itself.
abbrev pub id_or : String → Option Tenant → String
id_or ref none = ref
id_or ref (some tenant) = tenant.id

module _ (store : ReferenceStore) where
  unfoldable pub find_user_id : UserRef → Option String
  find_user_id ref =
      user_id_of (store.find_user_by_external_identity ref.provider ref.issuer ref.subject)

  unfoldable pub find_agent_id : (tenant_id application_id name : String) → Option String
  find_agent_id tenant_id application_id name =
      agent_id_of (store.find_agent_by_name tenant_id application_id name)

  -- `resolve_decision_refs`: the references, and the subject by its ids
  unfoldable pub resolve_decision_refs :
      (tenant application : String) → SubjectSchema → ResolvedReferences × SubjectSchema
  resolve_decision_refs tenant application subject =
      let refs =
        store.resolve_references tenant application subject.user_id subject.user_ref
          subject.agent_id subject.agent_name in
      (
        refs,
        record subject {
          user_id = refs.user_id;
          agent_id = refs.agent_id;
          user_ref = none;
          agent_name = none;
        },
      )

  unfoldable pub require_tenant : String → Result Raised Tenant
  require_tenant ref = found "tenant_not_found" (store.find_tenant ref)

  -- `require_bound_tenant`: the caller's binding comes before the test of existence.
  unfoldable pub require_bound_tenant : String → Principal → Result Raised Tenant
  require_bound_tenant ref principal =
      enforce_tenant_scope_binding principal (id_or ref (store.find_tenant ref))
      >> found "tenant_not_found" (store.find_tenant ref)

  unfoldable pub require_application : String → Result Raised Application
  require_application ref = found "application_not_found" (store.find_application ref)

  unfoldable pub require_user_id : UserRef → Result Raised String
  require_user_id ref = found "user_not_found" (find_user_id ref)

  unfoldable pub require_agent_id : (tenant_id application_id name : String) → Result Raised String
  require_agent_id tenant_id application_id name =
      found "agent_not_found" (find_agent_id tenant_id application_id name)
