-- ===== src/Service/Management.antt =====
-- authz_service/management.py: who may write to an application. What the guard asks of the SQL store is a
-- record.
pub mod Managers
use Prim.Native.String.{◌++◌}
use authz.Base.{
  String, Bool, true, false, not, ◌&&◌, Option, none, some, Result, ok, err, ◌>>=◌, ◌>>◌, is_blank,
  ◌==◌, string_eq, if◌then◌else◌,
}
use authz.Policies.Value.{str, field, end}
use authz.Rbac.Models.{Role}
use authz.Tenancy.Models.{Application, Agent, Membership}
use authz.Security.Principal.{Principal, api_key, token, session, TokenPrincipal}
use authz.Service.Http.{Raised, http_error, one_field}

pub record ManagementStore : Type 0 where
  pub find_application : String → Option Application
  pub get_application : String → Option Application
  pub get_role : String → Option Role
  pub get_agent_by_id : String → Option Agent
  pub get_membership_by_id : String → Option Membership

-- `client_id or subject`
abbrev pub client_or_subject : Option String → String → String
client_or_subject none subject = subject
client_or_subject (some client_id) subject = if is_blank client_id then subject else client_id

-- Issued by this service, to a client.
abbrev pub is_own_client : (oauth_issuer : String) → TokenPrincipal → Option String → Bool
is_own_client oauth_issuer t none = false
is_own_client oauth_issuer t (some client_id) =
    not (is_blank client_id) && not (is_blank oauth_issuer) && t.issuer == oauth_issuer

unfoldable pub caller_label : Principal → (oauth_issuer : String) → String
caller_label (api_key k) oauth_issuer = "apikey:" ++ k.id
caller_label (session s) oauth_issuer = "session:" ++ s.subject
caller_label (token t) oauth_issuer =
    if is_own_client oauth_issuer t t.client_id
    then "client:" ++ client_or_subject t.client_id t.subject
    else "token:" ++ (t.issuer ++ ("#" ++ client_or_subject t.client_id t.subject))

unfoldable pub managed_externally : (managed_by : String) → Raised
managed_externally managed_by =
    http_error 403 (
      field "error" (str "application_managed_externally")
        (field "managed_by" (str managed_by) end))

pub record ManagementGuard : Type 0 where
  pub store : ManagementStore
  pub caller : String

-- `ManagementGuard.__init__`
unfoldable pub management_guard :
    Principal → ManagementStore → (oauth_issuer : String) → ManagementGuard
management_guard principal store oauth_issuer = record {
  store = store;
  caller = caller_label principal oauth_issuer;
}

abbrev is_other : Option String → String → Bool
is_other none caller = false
is_other (some managed_by) caller = not (managed_by == caller)

abbrev manager_or : Option String → String
manager_or none = ""
manager_or (some managed_by) = managed_by

abbrev found : {A : Type 0} → (reason : String) → Option A → Result Raised A
found reason none = err (http_error 404 (one_field "reason" reason))
found reason (some a) = ok a

module _ (guard : ManagementGuard) where
  unfoldable pub check : Application → Result Raised Application
  check app =
      if is_other app.managed_by guard.caller
      then err (managed_externally (manager_or app.managed_by))
      else ok app

  unfoldable pub application : String → Result Raised Application
  application ref = found "application_not_found" (guard.store.find_application ref) >>= check

  abbrev checked : Option Application → Result Raised Unit
  checked none = ok tt
  checked (some app) = check app >>= λ a. ok tt

  -- `application_id`: a platform row, or one whose application is gone, passes.
  unfoldable pub application_id : Option String → Result Raised Unit
  application_id none = ok tt
  application_id (some id) = if is_blank id then ok tt else checked (guard.store.get_application id)

  abbrev only_managed : Application → Option String → Result Raised Application
  only_managed app none = err (http_error 403 (one_field "error" "application_not_managed"))
  only_managed app (some managed_by) = check app

  unfoldable pub manager_only : String → Result Raised Application
  manager_only ref = found "application_not_found" (guard.store.find_application ref) >>= λ app.
      only_managed app app.managed_by

  unfoldable pub catalog_application : String → Result Raised (Option Application)
  catalog_application app_slug = elim (guard.store.find_application app_slug) [
    | none ↦ ok none
    | some app ↦ check app >>= λ a. ok (some a)
  ]

  unfoldable pub managed_role : String → Result Raised Role
  managed_role role_id = found "role_not_found" (guard.store.get_role role_id) >>= λ role.
      (application_id role.application_id >> ok role)

  unfoldable pub managed_agent : String → Result Raised Agent
  managed_agent agent_id =
      found "agent_not_found" (guard.store.get_agent_by_id agent_id) >>= λ agent.
      (application_id (some agent.application_id) >> ok agent)

  unfoldable pub managed_membership : String → Result Raised Membership
  managed_membership membership_id =
      found "membership_not_found" (guard.store.get_membership_by_id membership_id)
      >>= λ membership. (application_id membership.application_id >> ok membership)
