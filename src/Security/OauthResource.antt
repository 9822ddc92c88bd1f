-- ===== src/Security/OauthResource.antt =====
-- authzkit/security/oauth_resource.py: `JwtResolver`, from a verified token to a caller. PyJWT, the
-- validator of authzkit/identity/jwt_validation.py and Python's `str` are parameters; a claim set is a
-- mapping as in the policies, in which `iss`, `sub`, `client_id` and `azp` are texts where they are
-- given; a separator is one character, by its code. `decode` checks no audience when it is given none.
pub mod Resolved
use Prim.Native.Char.{Char, code}
use Prim.Native.String.{◌++◌}
use authz.Base.{
  ℕ, String, Bool, true, false, not, ◌&&◌, ◌||◌, Option, none, some, List, [], ◌∷◌, ◌++◌ as ◌++ᴸ◌,
  map, contains, any, keep, first, Result, ok, err, guard, ◌>>=◌, ◌>>◌, Dict, lookup, get_or,
  values, strip, split, starts_with, is_blank, is_nonempty, leb, ◌==◌, nat_eq, string_eq, option_eq,
  if◌then◌else◌,
}
use authz.Policies.Value.{Value, null, str, num, bool, arr, Items, nil, cons, Fields, get_or_null}
use authz.Security.Principal.{TokenPrincipal}

-- `IssuerConfig`, but for what only the validator reads.
pub record IssuerConfig : Type 0 where
  pub issuer : String
  pub audiences : List String
  pub algorithms : List String
  pub leeway_seconds : ℕ
  pub scope_claim : String
  pub scope_separator : Option ℕ
  pub scope_map : Dict String String
  pub tenant_claim : Option String
  pub tenant_prefix : String

-- A public key, by its `kid`.
pub record PublicKey : Type 0 where
  pub kid : Option String
  pub key : String

pub record TokenHeader : Type 0 where
  pub typ : Option String
  pub kid : Option String

-- What is asked of PyJWT and of the validator; an error is its text.
pub record Verifier : Type 0 where
  pub get_unverified_header : String → Result String TokenHeader
  pub decode_unverified : String → Result String Fields
  pub decode :
      String
      → (key : String) → (algorithms audiences : List String) → (issuer : String) → (leeway : ℕ)
      → (now : ℕ) → Result String Fields
  pub validate : String → (expected_issuer : String) → (now : ℕ) → Result String Fields

pub record JwtResolver : Type 0 where
  pub configs : Dict String IssuerConfig
  pub self_issuer : Option String
  pub self_jwks : Option (List PublicKey)

-- ---- Scopes and tenant

abbrev is_id_char : Char → Bool
is_id_char c =
    let n = code c in
    (leb b'A' n && leb n b'Z')
    || (leb b'a' n && leb n b'z')
    || (leb b'0' n && leb n b'9')
    || n == b'_'
    || n == b'-'
    || n == b':'

unfoldable pub all_id : String → Bool
all_id String.[] = true
all_id (String.◌∷◌ c s) = let rest = all_id s in is_id_char c && rest

-- What follows `tenant:`.
unfoldable pub after_prefix : (prefix text : String) → String
after_prefix String.[] text = text
after_prefix (String.◌∷◌ c s) String.[] = ""
after_prefix (String.◌∷◌ c s) (String.◌∷◌ d t) = after_prefix s t

-- `_TENANT_SCOPE_RE`, for a text without a line break at its end
unfoldable pub is_tenant_scope : String → Bool
is_tenant_scope text =
    starts_with "tenant:" text
    && not (is_blank (after_prefix "tenant:" text))
    && all_id (after_prefix "tenant:" text)

unfoldable pub is_internal : String → Bool
is_internal scope = scope == "admin" || scope == "runtime" || is_tenant_scope scope

module _ (text_of : Value → String) where
  unfoldable pub texts_of : Items → List String
  texts_of nil = []
  texts_of (cons v vs) = text_of v ∷ texts_of vs

  abbrev separated : Option ℕ → String → List String
  separated none raw = raw ∷ []
  separated (some separator) raw = split separator raw

  -- The parts of the scope claim.
  unfoldable pub tokens_of : Option ℕ → Value → List String
  tokens_of separator null = []
  tokens_of separator (str raw) = separated separator raw
  tokens_of separator (arr vs) = texts_of vs
  tokens_of separator v = text_of v ∷ []

-- The loop of `_map_scopes`, with what it has seen.
unfoldable pub mapped : Dict String String → (seen tokens : List String) → List String
mapped scope_map seen [] = []
mapped scope_map seen (t ∷ tokens) =
    let scope = get_or (strip t) (strip t) scope_map in
    let skipped = mapped scope_map seen tokens in
    let rest = mapped scope_map (scope ∷ seen) tokens in
    if is_blank (strip t)
    then skipped
    else if contains scope seen
    then skipped
    else if is_internal scope
    then scope ∷ rest
    else skipped

module _ (text_of : Value → String) where
  -- `_map_scopes`
  unfoldable pub map_scopes : Fields → IssuerConfig → List String
  map_scopes claims config =
      mapped config.scope_map []
        (tokens_of text_of config.scope_separator (get_or_null config.scope_claim claims))

  abbrev tenant_of : (prefix : String) → Value → Option String
  tenant_of prefix (str s) = some (prefix ++ s)
  tenant_of prefix (num n) = some (prefix ++ text_of (num n))
  tenant_of prefix (bool b) = some (prefix ++ text_of (bool b))
  tenant_of prefix v = none

  -- `_extract_tenant`: a text or a number (of which Python's truth values are some)
  unfoldable pub extract_tenant : Fields → IssuerConfig → Option String
  extract_tenant claims config = elim (config.tenant_claim) [
    | none ↦ none
    | some name ↦ tenant_of config.tenant_prefix (get_or_null name claims)
  ]

-- ---- Resolving

abbrev text_claim : Value → Option String
text_claim (str s) = some s
text_claim v = none

-- `x or y`
abbrev or_other : Option String → Option String → Option String
or_other none y = y
or_other (some x) y = if is_blank x then y else some x

abbrev or_empty : Option String → String
or_empty none = ""
or_empty (some x) = x

abbrev malformed : {A : Type 0} → Result String A → Result String A
malformed (ok a) = ok a
malformed (err e) = err ("malformed token: " ++ e)

abbrev invalid : {A : Type 0} → Result String A → Result String A
invalid (ok a) = ok a
invalid (err e) = err ("invalid self-issued token: " ++ e)

abbrev kid_text : Option String → String
kid_text none = "None"
kid_text (some kid) = kid

abbrev config_of : Option IssuerConfig → (issuer : String) → Result String IssuerConfig
config_of none issuer = err ("unknown issuer: " ++ issuer)
config_of (some config) issuer = ok config

-- An implicit scope for a caller that has a tenant and no other scope.
unfoldable pub with_tenant : Option String → List String → List String
with_tenant none scopes = scopes
with_tenant (some tenant_id) scopes =
    if is_nonempty scopes then scopes else ("tenant:" ++ tenant_id) ∷ []

module _ (verifier : Verifier) where
  -- `_reject_delegation_token`
  unfoldable pub reject_delegation_token : String → Result String Unit
  reject_delegation_token token = malformed (verifier.get_unverified_header token) >>= λ header.
      guard (not (header.typ == some "authz-delegation+jwt"))
        "delegation grants are not access tokens"

  -- `_peek_issuer`; no issuer is the empty text.
  unfoldable pub peek_issuer : String → Result String String
  peek_issuer token = malformed (verifier.decode_unverified token) >>= λ payload.
      ok (or_empty (text_claim (get_or_null "iss" payload)))

  abbrev with_key :
      (now : ℕ)
      → String
      → (kid : Option String) → IssuerConfig
      → Option PublicKey
      → Result String Fields
  with_key now token kid config none = err ("no self-issued key matches kid=" ++ kid_text kid)
  with_key now token kid config (some jwk) = invalid (
      verifier.decode token jwk.key config.algorithms config.audiences config.issuer
        config.leeway_seconds now)

  abbrev with_keys :
      (now : ℕ) → String → IssuerConfig → Option (List PublicKey) → Result String Fields
  with_keys now token config none = err "self-issuer configured without JWKS provider"
  with_keys now token config (some keys) =
      malformed (verifier.get_unverified_header token) >>= λ header.
      with_key now token header.kid config (first (λ (k : PublicKey). k.kid == header.kid) keys)

  -- `_validate_self_issued`
  unfoldable pub validate_self_issued :
      (now : ℕ) → JwtResolver → String → IssuerConfig → Result String Fields
  validate_self_issued now resolver token config = with_keys now token config resolver.self_jwks

  -- Signature, audience, issuer and time.
  unfoldable pub verified_claims :
      (now : ℕ) → JwtResolver → String → (issuer : String) → IssuerConfig → Result String Fields
  verified_claims now resolver token issuer config =
      if some issuer == resolver.self_issuer
      then validate_self_issued now resolver token config
      else verifier.validate token config.issuer now

  module _ (text_of : Value → String) where
    unfoldable pub principal_of : IssuerConfig → Fields → TokenPrincipal
    principal_of config claims =
        let tenant_id = extract_tenant text_of claims config in
        record {
          issuer = config.issuer;
          subject = or_empty (text_claim (get_or_null "sub" claims));
          client_id =
              or_other (text_claim (get_or_null "client_id" claims))
                (text_claim (get_or_null "azp" claims));
          scopes = with_tenant tenant_id (map_scopes text_of claims config);
          tenant_id = tenant_id;
          claims = claims;
        }

    -- `JwtResolver.resolve`
    unfoldable pub resolve : (now : ℕ) → JwtResolver → String → Result String TokenPrincipal
    resolve now resolver token = do
      checked ← reject_delegation_token token
      issuer ← peek_issuer token
      config ← config_of (lookup issuer resolver.configs) issuer
      claims ← verified_claims now resolver token issuer config
      ok (principal_of config claims)
