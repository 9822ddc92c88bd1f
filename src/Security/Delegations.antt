-- ===== src/Security/Delegations.antt =====
-- authzkit/security/delegations.py: time-boxed grants of a user's permissions to an agent.
-- A moment is a number of microseconds since the epoch; the table `delegation_grants` is a
-- dictionary by the grant's id. PyJWT is a parameter, and so is the service of signing keys.
pub mod Laws
pub mod Listing
pub mod Issue
pub mod Accepted
use Prim.Native.Nat.{◌/◌}
use Prim.Native.String.{◌++◌, compare as compare_text}
use Prim.Native.Nat.{Ordering}
use authz.Base.{
  sorted_set, ℕ, ◌+◌, ◌-◌, ◌*◌, String, Bool, true, false, not, ◌&&◌, ◌||◌, Option, none, some,
  List, [], ◌∷◌, map, Result, ok, err, ◌>>=◌, ◌>>◌, guard, Dict, lookup, insert, first, keep, ltb,
  leb, ◌==◌, string_eq, option_eq, same_set, if◌then◌else◌, values,
}
use authz.Security.Tokens.{
  Claims, Header, SigningKey, Jwk, JwtError, expired_signature, other, Jwt, SigningKeys,
}

pub record DelegationGrant : Type 0 where
  pub id : String
  pub tenant_id : String
  pub application_id : String
  pub user_id : String
  pub agent_id : String
  pub permissions : List String
  pub purpose : Option String
  pub issued_by : Option String
  pub status : String
  pub expires_at : ℕ
  pub revoked_at : Option ℕ
  pub created_at : Option ℕ

abbrev pub Grants : Type 0
Grants = Dict String DelegationGrant

pub record DelegationError : Type 0 where
  pub reason : String
  pub detail : String

pub record DelegationService : Type 0 where
  pub issuer : String
  pub leeway_seconds : ℕ

-- `DelegationService.__init__`
unfoldable pub service : (issuer : String) → (leeway_seconds : ℕ) → DelegationService
service issuer leeway_seconds = record {
  issuer = if issuer == "" then "urn:authz" else issuer;
  leeway_seconds = leeway_seconds;
}

-- `DelegationGrant.active`
unfoldable pub is_active : (now : ℕ) → DelegationGrant → Bool
is_active now g = g.status == "active" && ltb now g.expires_at

abbrev seconds : ℕ → ℕ
seconds t = t / 1000000

-- `if purpose`
abbrev unless_empty : Option String → Option String
unless_empty purpose = if purpose == some "" then none else purpose

abbrev pub claims_of : DelegationService → (now : ℕ) → DelegationGrant → Claims
claims_of service now g = record {
  iss = service.issuer;
  aud = "urn:authz:delegation";
  sub = some (g.user_id);
  act_sub = some (g.agent_id);
  jti = g.id;
  iat = seconds now;
  nbf = seconds now;
  exp = seconds (g.expires_at);
  tenant_id = some (g.tenant_id);
  application_id = some (g.application_id);
  permissions = some (g.permissions);
  purpose = unless_empty g.purpose;
}

-- The row that `issue` writes; `now` is cut to the second.
abbrev pub new_grant :
    (id tenant_id application_id user_id agent_id : String)
    → List String
    → (ttl : ℕ) → (purpose issued_by : Option String) → (now : ℕ) → DelegationGrant
new_grant id tenant_id application_id user_id agent_id permissions ttl purpose issued_by now =
    record {
      id = id;
      tenant_id = tenant_id;
      application_id = application_id;
      user_id = user_id;
      agent_id = agent_id;
      permissions = sorted_set permissions;
      purpose = purpose;
      issued_by = issued_by;
      status = "active";
      expires_at = seconds now * 1000000 + ttl;
      revoked_at = none;
      created_at = some (seconds now * 1000000);
    }

abbrev pub invalid : String → DelegationError
invalid detail = record { reason = "delegation_invalid"; detail = detail }

abbrev pub revoked : DelegationError
revoked = record { reason = "delegation_revoked"; detail = "grant revoked" }

abbrev expired : DelegationError
expired = record { reason = "delegation_expired"; detail = "grant expired" }

abbrev pub header_of : Result String Header → Result DelegationError Header
header_of (ok h) = ok h
header_of (err e) = err (invalid ("malformed token: " ++ e))

abbrev pub public_key : Option Jwk → Result DelegationError Jwk
public_key none = err (invalid "unknown signing key")
public_key (some jwk) = ok jwk

abbrev pub claims_read : Result JwtError Claims → Result DelegationError Claims
claims_read (ok c) = ok c
claims_read (err expired_signature) = err expired
claims_read (err (other e)) = err (invalid e)

abbrev pub permissions_or_none : Option (List String) → List String
permissions_or_none none = []
permissions_or_none (some permissions) = permissions

-- Whether the signed claims agree with the stored row.
unfoldable pub agrees : Claims → DelegationGrant → Bool
agrees c g =
    c.sub == some (g.user_id)
    && c.act_sub == some (g.agent_id)
    && c.tenant_id == some (g.tenant_id)
    && c.application_id == some (g.application_id)
    && same_set (permissions_or_none c.permissions) g.permissions

-- The second part of `verify`: the stored grant that the claims name.
unfoldable pub stored :
    (now : ℕ) → Claims → Option DelegationGrant → Result DelegationError DelegationGrant
stored now c none = err (invalid "unknown grant")
stored now c (some g) =
    if g.status == "revoked"
    then err revoked
    else if leb g.expires_at now
    then err expired
    else if agrees c g
    then ok g
    else err (invalid "token does not match stored grant")

module _ (jwt : Jwt) (keys : SigningKeys) where
  -- `_sign`
  unfoldable pub sign : Claims → Result String ((jwt).Token)
  sign claims = do
    key ← (keys).active_signing_key
    ok (
        (jwt).encode claims key
          (record { typ = some "authz-delegation+jwt"; kid = some (key.kid) }))

  -- `issue`, with the new id; the token is signed before the row is added.
  unfoldable pub issue :
      DelegationService
      → (id tenant_id application_id user_id agent_id : String) → List String
      → (ttl : ℕ) → (purpose issued_by : Option String) → (now : ℕ) → Grants
      → Result String ((DelegationGrant × (jwt).Token) × Grants)
  issue service id tenant_id application_id user_id agent_id permissions ttl purpose issued_by now
        grants =
      let g =
        new_grant id tenant_id application_id user_id agent_id permissions ttl purpose issued_by
          now in
      do token ← sign (claims_of service now g); ok ((g, token), insert id g grants)

  -- The first part of `verify`: the token's claims, by type, key and signature.
  unfoldable pub decoded :
      DelegationService → (now : ℕ) → (jwt).Token → Result DelegationError Claims
  decoded service now token = do
    header ← header_of ((jwt).get_unverified_header token)
    guard (header.typ == some "authz-delegation+jwt") (invalid "not a delegation token")
    jwk ← public_key (first (λ (k : Jwk). k.kid == header.kid) (keys).all_public_jwks)
    claims_read (
        (jwt).decode token (jwk.key) ("RS256" ∷ []) "urn:authz:delegation" (service.issuer)
          (service.leeway_seconds) ("exp" ∷ "jti" ∷ "sub" ∷ "aud" ∷ "iss" ∷ []) now)

  unfoldable pub verify :
      DelegationService → Grants → (now : ℕ) → (jwt).Token → Result DelegationError DelegationGrant
  verify service grants now token = do
    c ← decoded service now token
    stored now c (lookup (c.jti) grants)

unfoldable pub revoke_grant : (now : ℕ) → DelegationGrant → DelegationGrant
revoke_grant now g = record g { status = "revoked"; revoked_at = some now }

-- `revoke`: the grant as it is now, and the table.
unfoldable pub revoke : (now : ℕ) → String → Grants → Option DelegationGrant × Grants
revoke now id grants = elim (lookup id grants) [
  | none ↦ (none, grants)
  | some g ↦
      if g.status == "revoked"
      then (some g, grants)
      else (some (revoke_grant now g), insert id (revoke_grant now g) grants)
]

-- `if x: stmt = stmt.where(column == x)`
abbrev is_selected : Option String → String → Bool
is_selected none column = true
is_selected (some x) column = x == "" || column == x

-- The rows of `revoke_matching`: the tenant's active grants, of the user and the agent if given.
unfoldable pub is_matching :
    (tenant_id : String) → (user_id agent_id : Option String) → DelegationGrant → Bool
is_matching tenant_id user_id agent_id g =
    g.tenant_id == tenant_id
    && g.status == "active"
    && is_selected user_id g.user_id
    && is_selected agent_id g.agent_id

-- `revoke_matching`: the number of rows, and the table.
unfoldable pub revoke_matching :
    (now : ℕ) → (tenant_id : String) → (user_id agent_id : Option String) → Grants → ℕ × Grants
revoke_matching now tenant_id user_id agent_id [] = (0, [])
revoke_matching now tenant_id user_id agent_id ((id, g) ∷ grants) =
    let (n, rest) = revoke_matching now tenant_id user_id agent_id grants in
    if is_matching tenant_id user_id agent_id g
    then (1 + n, (id, revoke_grant now g) ∷ rest)
    else (n, (id, g) ∷ rest)
