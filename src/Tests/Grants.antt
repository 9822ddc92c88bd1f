-- ===== src/Tests/Grants.antt =====
-- Delegation grants, with a PyJWT whose tokens are the claims and the header themselves; it checks what
-- PyJWT checks of the claims, and its only key pair is "pem" and "public".
use authz.Base.{
  insert, String, ◌&&◌, none, some, [], ◌∷◌, ok, err, ◌≡◌, refl, lookup, ◌==◌, string_eq,
  if◌then◌else◌, leb, first, same_set, subset, all, contains, arith, option_eq, ltb, ◌+◌, ℕ, Bool,
  ◌↔◌, ==-refl,
}
use authz.Rbac.Requests.{is_some}
use authz.Security.Delegations.Issue.{IsFaithful, grant_header, verify-issue}
use authz.Security.Tokens.{SigningKey, Jwk, Claims, Header, Jwt, SigningKeys, other}
use authz.Security.Delegations.{
  new_grant, issue, sign, DelegationGrant, Grants, DelegationService, claims_of, decoded, agrees,
  stored, verify, revoked, revoke, is_matching, revoke_matching,
}
use authz.Security.Delegations.Laws.{verify-revoke, verify-revoke_matching}
use authz.Security.Delegations.Accepted.{IsSigned, IsOf, verify_iff}
use Prim.Native.Nat.{◌/◌}

-- The claims are whole and in force.
abbrev holds : Claims → (audience issuer : String) → (leeway seconds : ℕ) → Bool
holds c audience issuer leeway seconds =
    c.aud == audience
    && c.iss == issuer
    && is_some c.sub
    && leb c.iat (seconds + leeway)
    && leb c.nbf (seconds + leeway)
    && ltb seconds (c.exp + leeway)

abbrev pub plain_jwt : Jwt
plain_jwt = record {
  Token = Claims × Header;
  encode = λ claims key header. (claims, header);
  get_unverified_header = λ token. ok (token.1);
  decode = λ token key algorithms audience issuer leeway require now.
      if key == "public" && holds (token.0) audience issuer leeway (now / 1000000)
      then ok (token.0)
      else err (other "invalid token");
}

abbrev pub keys : SigningKeys
keys = record {
  active_signing_key = ok (record { kid = "k1"; private_pem = "pem"; alg = "RS256" });
  all_public_jwks = record { kid = some "k1"; key = "public" } ∷ [];
}

abbrev pub grant : DelegationGrant
grant = record {
  id = "g1";
  tenant_id = "acme";
  application_id = "crm";
  user_id = "ann";
  agent_id = "bot";
  permissions = "doc.read" ∷ [];
  purpose = none;
  issued_by = none;
  status = "active";
  expires_at = 100;
  revoked_at = none;
  created_at = some 0;
}

abbrev pub grants : Grants
grants = ("g1", grant) ∷ []

abbrev pub authority : DelegationService
authority = record { issuer = "urn:authz"; leeway_seconds = 30 }

abbrev pub token : Claims × Header
token = (claims_of authority 0 grant, record { typ = some "authz-delegation+jwt"; kid = some "k1" })

token-decoded : decoded plain_jwt keys authority 50 token ≡ ok ((token).0)
unfolding decoded first
token-decoded = refl

grant-lookup : lookup "g1" grants ≡ some grant
unfolding lookup
grant-lookup = refl

token-verify : verify plain_jwt keys authority grants 50 token ≡ ok grant
unfolding verify decoded first lookup stored agrees same_set subset all contains
token-verify = refl

-- At the moment of its expiry a grant is refused.
token-expired :
    verify plain_jwt keys authority grants 100 token
    ≡ err (record { reason = "delegation_expired"; detail = "grant expired" })
unfolding verify decoded first lookup stored agrees same_set subset all contains
token-expired = refl

verify_iff_example : (verify plain_jwt keys authority grants 50 token ≡ ok grant) ↔ (
    (c : Claims) × IsSigned plain_jwt keys authority grants 50 token c
    × IsOf plain_jwt keys authority grants 50 token c grant)
verify_iff_example = verify_iff plain_jwt keys authority grants 50 token grant

verify-revoke_example : verify plain_jwt keys authority (revoke 40 "g1" grants).1 50 token ≡ (
    if ◌==◌ {A = String} "g1" "g1" && is_some (lookup "g1" grants)
    then err revoked
    else verify plain_jwt keys authority grants 50 token)
verify-revoke_example =
    verify-revoke plain_jwt keys authority grants 50 token "g1" 40 (token).0 token-decoded

verify-revoke_matching_example :
    verify plain_jwt keys authority (revoke_matching 40 "acme" none (some "bot") grants).1 50 token
    ≡ (if is_matching "acme" none (some "bot") grant
        then err revoked
        else verify plain_jwt keys authority grants 50 token)
verify-revoke_matching_example =
    verify-revoke_matching plain_jwt keys authority grants 50 token "acme" none (some "bot") 40
      (token).0 grant token-decoded grant-lookup

abbrev pub signer : SigningKey
signer = record { kid = "k1"; private_pem = "pem"; alg = "RS256" }

abbrev published_key : Jwk
published_key = record { kid = some "k1"; key = "public" }

abbrev new_row : DelegationGrant
new_row = new_grant "g2" "acme" "crm" "ann" "bot" ("doc.read" ∷ []) 60000000 none none 1000000

abbrev new_token : Claims × Header
new_token = (claims_of authority 1000000 new_row, grant_header signer)

plain_jwt-IsFaithful : IsFaithful plain_jwt keys authority signer published_key
plain_jwt-IsFaithful = record {
  header = λ c. refl;
  claims = λ c subject now rs256 known issued_then started running.
      rw (known, ==-refl c.aud, ==-refl c.iss) (ground arith);
}

issued :
    issue plain_jwt keys authority "g2" "acme" "crm" "ann" "bot"
      ("doc.read" ∷ [])
      60000000
      none
      none
      1000000
      grants
    ≡ ok ((new_row, new_token), insert "g2" new_row grants)
unfolding issue sign
issued = refl

published : first (λ (k : Jwk). k.kid == some "k1") ((keys).all_public_jwks) ≡ some published_key
unfolding first
published = refl

verify-issue_example :
    verify plain_jwt keys authority (insert "g2" new_row grants) 2000000 new_token ≡ ok new_row
verify-issue_example =
    verify-issue plain_jwt keys authority signer published_key "g2" "acme" "crm" "ann" "bot"
      ("doc.read" ∷ []) 60000000 none none 1000000 2000000 grants (insert "g2" new_row grants)
      new_row new_token refl published plain_jwt-IsFaithful refl (omega arith) issued (omega arith)
      (omega arith)
