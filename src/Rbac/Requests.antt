-- ===== src/Rbac/Requests.antt =====
-- authzkit/rbac/checker.py, the data of a decision: subject, references, requests, decision.
use authz.Base.{
  String, Bool, true, false, not, ◌&&◌, Option, none, some, List, [], ◌∷◌, is_nonempty,
  if◌then◌else◌,
}
use authz.Policies.Value.{Fields}

pub record Subject : Type 0 where
  pub type : String
  pub user_id : Option String
  pub agent_id : Option String
  pub service_account_id : Option String

-- References resolved by the store before the decision.
pub record ResolvedReferences : Type 0 where
  pub tenant_id : String
  pub application_id : String
  pub tenant_status : Option String
  pub application_status : Option String
  pub user_id : Option String
  pub user_missing : Bool
  pub agent_id : Option String
  pub agent_status : Option String
  pub agent_missing : Bool

abbrev pub is_some {ℓ} : {A : Type ℓ} → Option A → Bool
is_some none = false
is_some (some a) = true

-- `ResolvedReferences.complete`: every reference matched a row.
unfoldable pub complete : ResolvedReferences → Bool
complete r =
    is_some r.tenant_status
    && is_some r.application_status
    && not r.user_missing
    && not r.agent_missing

pub record AuthorizeRequest : Type 0 where
  pub tenant_id : String
  pub application_id : String
  pub subject : Subject
  pub resource : String
  pub action : String
  pub context : Fields
  pub delegated_permissions : Option (List String)
  pub references : Option ResolvedReferences

pub record BulkAuthorizeRequest : Type 0 where
  pub tenant_id : String
  pub application_id : String
  pub subject : Subject
  pub checks : List (String × String)
  pub context : Fields
  pub delegated_permissions : Option (List String)
  pub references : Option ResolvedReferences

pub record AuthorizeDecision : Type 0 where
  pub allowed : Bool
  pub decision : String
  pub reason : String
  pub required_permission : String
  pub matched_permissions : List String

-- `AuthorizeDecision.allow`: no matched permission, or none at all, means the required one.
unfoldable pub allow : String → List String → AuthorizeDecision
allow required matched = record {
  allowed = true;
  decision = "allow";
  reason = "permission_granted";
  required_permission = required;
  matched_permissions = if is_nonempty matched then matched else required ∷ [];
}

-- `AuthorizeDecision.deny`
unfoldable pub deny : String → String → AuthorizeDecision
deny reason required = record {
  allowed = false;
  decision = "deny";
  reason = reason;
  required_permission = required;
  matched_permissions = [];
}
