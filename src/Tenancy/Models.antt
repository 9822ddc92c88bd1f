-- ===== src/Tenancy/Models.antt =====
-- authzkit/tenancy/models.py and authzkit/agents/models.py: the rows that the stores keep. A status
-- is a text, as in the source.
use authz.Base.{String, Option, List}

pub record Tenant : Type 0 where
  pub id : String
  pub slug : String
  pub name : String
  pub status : String

pub record Application : Type 0 where
  pub id : String
  pub slug : String
  pub name : String
  pub status : String
  pub managed_by : Option String

pub record User : Type 0 where
  pub id : String
  pub display_name : Option String
  pub email : Option String
  pub status : String

pub record ExternalIdentity : Type 0 where
  pub id : String
  pub user_id : String
  pub provider : String
  pub issuer : String
  pub subject : String
  pub external_tenant_id : Option String
  pub email : Option String

pub record Membership : Type 0 where
  pub id : String
  pub tenant_id : String
  pub user_id : String
  pub application_id : Option String
  pub roles : List String
  pub status : String

pub record TenantIdentityMapping : Type 0 where
  pub id : String
  pub tenant_id : String
  pub provider : String
  pub issuer : String
  pub external_tenant_id : String

pub record Agent : Type 0 where
  pub id : String
  pub tenant_id : String
  pub application_id : String
  pub name : String
  pub role : String
  pub status : String
  pub created_by_user_id : Option String
  pub display_name : Option String
