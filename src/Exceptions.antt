-- ===== src/Exceptions.antt =====
-- authzkit/exceptions.py: the exceptions that the library's guards and resolvers raise, with their
-- message.
use authz.Base.{String}

pub data AuthzError : Type 0 where
  invalid_request : String → AuthzError
  tenant_not_active : String → AuthzError
  no_active_membership : String → AuthzError
  agent_not_found : String → AuthzError
  agent_not_active : String → AuthzError
  -- The permission, and the message.
  permission_denied : String → String → AuthzError

-- `reason`, the machine-readable code
unfoldable pub reason : AuthzError → String
reason (invalid_request m) = "invalid_request"
reason (tenant_not_active m) = "tenant_not_active"
reason (no_active_membership m) = "no_active_membership"
reason (agent_not_found m) = "agent_not_found"
reason (agent_not_active m) = "agent_not_active"
reason (permission_denied p m) = "missing_permission"
