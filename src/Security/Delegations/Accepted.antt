-- ===== src/Security/Delegations/Accepted.antt =====
-- authzkit/security/delegations.py: which tokens `verify` accepts, and as which grant.
use authz.Base.{
  ℕ, ◌<◌, leb, String, Bool, true, false, Option, none, some, List, [], ◌∷◌, Result, ok, err, guard,
  >>=-eq-ok, Bool-cases, inl, inr, lookup, first, ◌==◌, string_eq, option_eq, ==-refl, contains,
  all, subset, subset-mem, same_set, ◌≡◌, ◌↔◌, refl, arith,
}
use authz.Security.Tokens.{
  Claims, Header, Jwk, JwtError, expired_signature, other, Jwt, SigningKeys,
}
use authz.Security.Delegations.{
  DelegationGrant, Grants, DelegationService, DelegationError, header_of, public_key, claims_read,
  invalid, permissions_or_none, agrees, stored, decoded, verify,
}

-- ---- Sets of permissions

all_holds :
    (p : String → Bool) (xs : List String)
    → ((a : String) → contains a xs ≡ true → p a ≡ true)
    → all p xs ≡ true
unfolding all contains
all_holds p [] f = refl
all_holds p (x ∷ xs) f =
    ground (arith, f x (ground (arith, ==-refl x)), all_holds p xs (λ a there. f a (ground arith)))

same_set-contains :
    (xs ys : List String) (a : String) → same_set xs ys ≡ true → contains a xs ≡ contains a ys
unfolding same_set
same_set-contains xs ys a h =
    let there = subset-mem xs ys a (ground arith) in
    let back = subset-mem ys xs a (ground arith) in
    elim (Bool-cases (contains a xs)) [
      | inl e ↦ ground (arith, there e)
      | inr e ↦ elim (Bool-cases (contains a ys)) [
        | inl e' ↦ ground (arith, back e')
        | inr e' ↦ ground arith
      ]
    ]

contains-same_set :
    (xs ys : List String) → ((a : String) → contains a xs ≡ contains a ys) → same_set xs ys ≡ true
unfolding same_set subset
contains-same_set xs ys f = ground (
  arith,
  all_holds (λ a. contains a ys) xs (λ a h. ground (arith, f a)),
  all_holds (λ a. contains a xs) ys (λ a h. ground (arith, f a)),
)

-- ---- The steps of `verify`

header_of-ok :
    (r : Result String Header) (header : Header) → header_of r ≡ ok header → r ≡ ok header
header_of-ok (ok h) header e = ground arith
header_of-ok (err s) header e = absurd (ground arith)

guard-ok : (b : Bool) (e : DelegationError) → guard b e ≡ ok tt → b ≡ true
guard-ok true e h = refl
guard-ok false e h = absurd (ground arith)

public_key-ok : (o : Option Jwk) (jwk : Jwk) → public_key o ≡ ok jwk → o ≡ some jwk
public_key-ok (some k) jwk e = ground arith
public_key-ok none jwk e = absurd (ground arith)

claims_read-ok :
    (r : Result JwtError Claims) (claims : Claims) → claims_read r ≡ ok claims → r ≡ ok claims
claims_read-ok (ok c) claims e = ground arith
claims_read-ok (err expired_signature) claims e = absurd (ground arith)
claims_read-ok (err (other s)) claims e = absurd (ground arith)

accepted :
    (now : ℕ) (c : Claims) (o : Option DelegationGrant) (g : DelegationGrant)
    → stored now c o ≡ ok g
    → (o ≡ some g)
      × ((g.status == "revoked") ≡ false)
      × (leb g.expires_at now ≡ false)
      × (agrees c g ≡ true)
unfolding stored
accepted now c none g h = cc
accepted now c (some k) g h = ground arith

option_iff : (o : Option String) (x : String) → ((o == some x) ≡ true) ↔ (o ≡ some x)
option_iff o x = (option_eq {A = String}).beq_iff o (some x)

-- What `agrees` compares.
abbrev Agree : Claims → DelegationGrant → Type 0
Agree c g =
    (c.sub ≡ some g.user_id)
    × (c.act_sub ≡ some g.agent_id)
    × (c.tenant_id ≡ some g.tenant_id)
    × (c.application_id ≡ some g.application_id)
    × (same_set (permissions_or_none c.permissions) g.permissions ≡ true)

agrees-Agree : (c : Claims) (g : DelegationGrant) → agrees c g ≡ true → Agree c g
unfolding agrees
agrees-Agree c g h = (
  (option_iff c.sub g.user_id).0 (ground arith),
  (option_iff c.act_sub g.agent_id).0 (ground arith),
  (option_iff c.tenant_id g.tenant_id).0 (ground arith),
  (option_iff c.application_id g.application_id).0 (ground arith),
  ground arith,
)

Agree-agrees : (c : Claims) (g : DelegationGrant) → Agree c g → agrees c g ≡ true
unfolding agrees
Agree-agrees c g (user, agent, tenant, application, permissions) =
    rw
      (
        (option_iff c.sub g.user_id).1 user,
        (option_iff c.act_sub g.agent_id).1 agent,
        (option_iff c.tenant_id g.tenant_id).1 tenant,
        (option_iff c.application_id g.application_id).1 application,
        permissions,
      )
      refl

module _ (jwt : Jwt) (keys : SigningKeys) (service : DelegationService) (grants : Grants) (now : ℕ)
    (token : (jwt).Token) where
  -- What the signature says of a token: its header has the type of a grant and names a published key,
  -- under which PyJWT reads the claims.
  pub record IsSigned (claims : Claims) : Type 0 where
    pub header : Header
    pub header_read : (jwt).get_unverified_header token ≡ ok header
    pub typed : header.typ ≡ some "authz-delegation+jwt"
    pub jwk : Jwk
    pub published : first (λ (k : Jwk). k.kid == header.kid) (keys).all_public_jwks ≡ some jwk
    pub claims_read :
        (jwt).decode token jwk.key
          ("RS256" ∷ [])
          "urn:authz:delegation"
          (service).issuer
          (service).leeway_seconds
          ("exp" ∷ "jti" ∷ "sub" ∷ "aud" ∷ "iss" ∷ [])
          now
        ≡ ok claims

  -- The claims name the stored grant, which is in force, and say of it what the row says.
  pub record IsOf (claims : Claims) (g : DelegationGrant) : Type 0 where
    pub found : lookup claims.jti grants ≡ some g
    pub live : (g.status == "revoked") ≡ false
    pub in_time : now < g.expires_at
    pub of_user : claims.sub ≡ some g.user_id
    pub of_agent : claims.act_sub ≡ some g.agent_id
    pub of_tenant : claims.tenant_id ≡ some g.tenant_id
    pub of_application : claims.application_id ≡ some g.application_id
    pub same_permissions :
        (name : String)
        → contains name (permissions_or_none claims.permissions) ≡ contains name g.permissions

  decoded-IsSigned : (c : Claims) → decoded jwt keys service now token ≡ ok c → IsSigned c
  unfolding decoded
  decoded-IsSigned c h =
      let (header, e1, h1) = >>=-eq-ok (header_of ((jwt).get_unverified_header token)) _ h in
      let (checked, e2, h2) =
        >>=-eq-ok
          (guard (header.typ == some "authz-delegation+jwt") (invalid "not a delegation token")) _
          h1 in
      let (jwk, e3, h3) =
        >>=-eq-ok (public_key (first (λ (k : Jwk). k.kid == header.kid) (keys).all_public_jwks)) _
          h2 in
      record {
        header = header;
        header_read = header_of-ok ((jwt).get_unverified_header token) header e1;
        typed = (option_iff header.typ "authz-delegation+jwt").0 (
            guard-ok (header.typ == some "authz-delegation+jwt") (invalid "not a delegation token")
              e2);
        jwk = jwk;
        published =
            public_key-ok (first (λ (k : Jwk). k.kid == header.kid) (keys).all_public_jwks) jwk e3;
        claims_read =
            claims_read-ok
              ((jwt).decode token jwk.key ("RS256" ∷ []) "urn:authz:delegation" (service).issuer
                (service).leeway_seconds ("exp" ∷ "jti" ∷ "sub" ∷ "aud" ∷ "iss" ∷ []) now)
              c h3;
      }

  IsSigned-decoded : (c : Claims) → IsSigned c → decoded jwt keys service now token ≡ ok c
  unfolding decoded
  IsSigned-decoded c signed =
      rw (signed.header_read, signed.published) (rw (signed.typed, signed.claims_read) refl)

  stored-IsOf :
      (c : Claims) (g : DelegationGrant) → stored now c (lookup c.jti grants) ≡ ok g → IsOf c g
  stored-IsOf c g h =
      let (found, live, later, a) = accepted now c (lookup c.jti grants) g h in
      let (user, agent, tenant, application, permissions) = agrees-Agree c g a in
      record {
        found = found;
        live = live;
        in_time = ground arith;
        of_user = user;
        of_agent = agent;
        of_tenant = tenant;
        of_application = application;
        same_permissions = λ name.
            same_set-contains (permissions_or_none c.permissions) g.permissions name permissions;
      }

  IsOf-stored :
      (c : Claims) (g : DelegationGrant) → IsOf c g → stored now c (lookup c.jti grants) ≡ ok g
  unfolding stored
  IsOf-stored c g is_of =
      let same =
        contains-same_set (permissions_or_none c.permissions) g.permissions
          is_of.same_permissions in
      let agree =
        Agree-agrees c g
          (is_of.of_user, is_of.of_agent, is_of.of_tenant, is_of.of_application, same) in
      let alive : leb g.expires_at now ≡ false = let later = is_of.in_time in ground arith in
      rw (is_of.found, is_of.live, alive, agree) refl

  -- `verify` accepts a token as a grant exactly if the token is a grant's by its header, signed by the key
  -- that is published under its key id, and its claims name a stored row that is this grant, is not
  -- revoked and has not expired, and agree with it on the user, the agent, the tenant, the application
  -- and the set of permissions.
  pub verify_iff :
      (g : DelegationGrant)
      → (verify jwt keys service grants now token ≡ ok g) ↔ ((c : Claims) × IsSigned c × IsOf c g)
  unfolding verify
  verify_iff g = (
    (λ h.
        let (c, d, s) =
          >>=-eq-ok (decoded jwt keys service now token) (λ c. stored now c (lookup c.jti grants))
            h in
        (c, decoded-IsSigned c d, stored-IsOf c g s)),
    (λ h. let (c, signed, is_of) = h in rw (IsSigned-decoded c signed) (IsOf-stored c g is_of)),
  )
