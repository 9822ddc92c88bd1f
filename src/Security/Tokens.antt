-- ===== src/Security/Tokens.antt =====
-- What authzkit/security/delegations.py asks of PyJWT and of the service of signing keys.
use authz.Base.{ℕ, String, Option, List, Result}

-- The claims that the service writes and reads. PyJWT has made sure of those it was told to
-- require; the others may be missing.
pub record Claims : Type 0 where
  pub iss : String
  pub aud : String
  pub sub : Option String
  pub act_sub : Option String
  pub jti : String
  pub iat : ℕ
  pub nbf : ℕ
  pub exp : ℕ
  pub tenant_id : Option String
  pub application_id : Option String
  pub permissions : Option (List String)
  pub purpose : Option String

pub record Header : Type 0 where
  pub typ : Option String
  pub kid : Option String

pub record SigningKey : Type 0 where
  pub kid : String
  pub private_pem : String
  pub alg : String

pub record Jwk : Type 0 where
  pub kid : Option String
  pub key : String

pub data JwtError : Type 0 where
  expired_signature : JwtError
  other : String → JwtError

-- PyJWT. `decode` reads the key, the algorithms, the audience, the issuer, the leeway, the required
-- claims, and the time.
pub record Jwt : Type 1 where
  pub Token : Type 0
  pub encode : Claims → SigningKey → Header → Token
  pub get_unverified_header : Token → Result String Header
  pub decode :
      Token
      → (key : String) → (algorithms : List String) → (audience issuer : String) → (leeway : ℕ)
      → (require : List String) → (now : ℕ) → Result JwtError Claims

pub record SigningKeys : Type 0 where
  pub active_signing_key : Result String SigningKey
  pub all_public_jwks : List Jwk
