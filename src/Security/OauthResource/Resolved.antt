-- ===== src/Security/OauthResource/Resolved.antt =====
-- authzkit/security/oauth_resource.py: what a token that resolves stands for.
use authz.Base.{String, true, string_eq, option_eq, ◌≡◌}
use authz.Policies.Value.{Value}
use authz.Security.OauthResource.{is_internal}

abbrev pub IsInternal : String → Type 0
IsInternal scope = is_internal scope ≡ true
