-- ===== src/Tests/Tokens.antt =====
-- OAuth tokens on examples: one issuer, whose validator accepts every token.
use authz.Base.{String, none, some, [], ◌∷◌, ok, string_eq, option_eq}
use authz.Policies.Value.{Value, str, Fields, end, field}
use authz.Security.Principal.{TokenPrincipal}
use authz.Security.OauthResource.{IssuerConfig, JwtResolver, Verifier}

abbrev text_of : Value → String
text_of (str s) = s
text_of v = ""

abbrev config : IssuerConfig
config = record {
  issuer = "https://idp";
  audiences = "authz" ∷ [];
  algorithms = "RS256" ∷ [];
  leeway_seconds = 30;
  scope_claim = "scope";
  scope_separator = some 32;
  scope_map = ("AuthZ.Admin", "admin") ∷ [];
  tenant_claim = some "tid";
  tenant_prefix = "";
}

abbrev resolver : JwtResolver
resolver = record { configs = ("https://idp", config) ∷ []; self_issuer = none; self_jwks = none }

abbrev claims : Fields
claims =
    field "iss" (str "https://idp") (
      field "sub" (str "u1")
        (field "scope" (str "openid AuthZ.Admin") (field "tid" (str "t1") end)))

abbrev verifier : Verifier
verifier = record {
  get_unverified_header = λ token. ok (record { typ = none; kid = none });
  decode_unverified = λ token. ok claims;
  decode = λ token key algorithms audiences issuer leeway now. ok claims;
  validate = λ token expected_issuer now. ok claims;
}

abbrev caller : TokenPrincipal
caller = record {
  issuer = "https://idp";
  subject = "u1";
  client_id = none;
  scopes = "admin" ∷ [];
  tenant_id = some "t1";
  claims = claims;
}
