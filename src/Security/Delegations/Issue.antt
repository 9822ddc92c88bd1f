-- ===== src/Security/Delegations/Issue.antt =====
-- authzkit/security/delegations.py: issuing a grant, then verifying its token.
use Prim.Native.Nat.{◌/◌}
use mathlib.Core.Path.{subst}
use authz.Base.{
  ℕ, ◌+◌, ◌<◌, ◌≤◌, String, Bool, true, false, ◌||◌, Option, some, List, [], ◌∷◌, Result, ok,
  insert, lookup-insert, first, ◌==◌, string_eq, option_eq, eq_iff, ==-refl, ◌≡◌, refl, sym, arith,
  same_set, subset, all, contains,
}
use authz.Security.Tokens.{Claims, Header, SigningKey, Jwk, Jwt, SigningKeys}
use authz.Security.Delegations.{
  DelegationGrant, Grants, DelegationService, sign, claims_of, new_grant, issue, decoded, agrees,
  stored, verify,
}

all_grows :
    (p q : String → Bool) (xs : List String)
    → ((a : String) → p a ≡ true → q a ≡ true)
    → all p xs ≡ true
    → all q xs ≡ true
unfolding all
all_grows p q [] f h = refl
all_grows p q (y ∷ xs) f h = ground (arith, f y, all_grows p q xs f)

subset_refl : (xs : List String) → subset xs xs ≡ true
unfolding subset all contains
subset_refl [] = refl
subset_refl (x ∷ xs) = ground (
  arith,
  eq_iff x x,
  all_grows (λ a. contains a xs) (λ a. a == x || contains a xs) xs (λ a h. ground arith)
      (subset_refl xs),
)

same_set_refl : (xs : List String) → same_set xs xs ≡ true
unfolding same_set
same_set_refl xs = ground (arith, subset_refl xs)

agrees-claims_of :
    (service : DelegationService) (now : ℕ) (g : DelegationGrant)
    → agrees (claims_of service now g) g ≡ true
unfolding agrees
agrees-claims_of service now g = ground (
  arith,
  eq_iff g.user_id g.user_id,
  eq_iff g.agent_id g.agent_id,
  eq_iff g.tenant_id g.tenant_id,
  eq_iff g.application_id g.application_id,
  same_set_refl g.permissions,
)

div_le : (a b : ℕ) → a ≤ b → a / 1000000 ≤ b / 1000000
div_le a b h = omega arith

abbrev pub grant_header : SigningKey → Header
grant_header key = record { typ = some "authz-delegation+jwt"; kid = some (key.kid) }

stored-fresh :
    (service : DelegationService) (issued now : ℕ) (g : DelegationGrant)
    → (g.status == "revoked") ≡ false
    → now < g.expires_at
    → stored now (claims_of service issued g) (some g) ≡ ok g
unfolding stored
stored-fresh service issued now g live alive = ground (arith, agrees-claims_of service issued g)

abbrev done : {A : Type 0} → A → Result String A
done a = ok a

ok_inj : {A : Type 0} {x y : A} → done x ≡ done y → x ≡ y
ok_inj h = cc

module _ (jwt : Jwt) (keys : SigningKeys) (service : DelegationService) (key : SigningKey)
    (jwk : Jwk) where
  -- PyJWT reads the header that it wrote, and the claims under the key's public half, for an RS256 key
  -- and claims with a subject, if audience and issuer are those asked for, the claims were not issued
  -- later and are in force, and they have not expired; the leeway is granted at both ends. Claims count
  -- in seconds.
  pub record IsFaithful : Type 0 where
    pub header :
        (c : Claims)
        → (jwt).get_unverified_header ((jwt).encode c key (grant_header key))
          ≡ ok (grant_header key)
    pub claims :
        (c : Claims) (subject : String) (now : ℕ)
        → (key).alg ≡ "RS256"
        → c.sub ≡ some subject
        → c.iat ≤ now / 1000000 + (service).leeway_seconds
        → c.nbf ≤ now / 1000000 + (service).leeway_seconds
        → now / 1000000 < c.exp + (service).leeway_seconds
        → (jwt).decode
            ((jwt).encode c key (grant_header key))
            ((jwk).key)
            ("RS256" ∷ [])
            (c.aud)
            (c.iss)
            ((service).leeway_seconds)
            ("exp" ∷ "jti" ∷ "sub" ∷ "aud" ∷ "iss" ∷ [])
            now
          ≡ ok c

  decoded-claims_of :
      (g : DelegationGrant) (issued now : ℕ)
      → first (λ (k : Jwk). k.kid == some (key.kid)) (keys).all_public_jwks ≡ some jwk
      → IsFaithful
      → (key).alg ≡ "RS256"
      → 0 < (service).leeway_seconds
      → issued ≤ now
      → now < g.expires_at
      → decoded jwt keys service now
          ((jwt).encode (claims_of service issued g) key (grant_header key))
        ≡ ok (claims_of service issued g)
  unfolding decoded
  decoded-claims_of g issued now published faithful signs slack order_ alive =
      rw (faithful.header (claims_of service issued g), published)
        (rw
          (faithful.claims (claims_of service issued g) g.user_id now signs refl (omega arith)
            (omega arith) (omega arith))
          refl)

  verify-fresh :
      (g : DelegationGrant) (issued now : ℕ) (grants : Grants)
      → decoded jwt keys service now
          ((jwt).encode (claims_of service issued g) key (grant_header key))
        ≡ ok (claims_of service issued g)
      → (g.status == "revoked") ≡ false
      → now < g.expires_at
      → verify jwt keys service
          (insert g.id g grants)
          now
          ((jwt).encode (claims_of service issued g) key (grant_header key))
        ≡ ok g
  unfolding verify
  verify-fresh g issued now grants d live alive =
      rw (d, lookup-insert g.id g.id g grants, ==-refl g.id)
        (stored-fresh service issued now g live alive)

-- A grant that `issue` returns, with the key that signs now, verifies from then on until it expires:
-- `verify` returns the grant, whatever other grants are stored, provided that the key is an RS256 key
-- whose public half is the one published under its id, that PyJWT reads what it wrote, and that some
-- leeway is granted.
pub verify-issue :
    (jwt : Jwt) (keys : SigningKeys) (service : DelegationService) (key : SigningKey) (jwk : Jwk)
    (id tenant application user agent : String) (permissions : List String) (ttl : ℕ)
    (purpose issued_by : Option String) (issued now : ℕ) (grants grants' : Grants)
    (g : DelegationGrant) (token : (jwt).Token)
    → (keys).active_signing_key ≡ ok key
    → first (λ (k : Jwk). k.kid == some (key.kid)) (keys).all_public_jwks ≡ some jwk
    → IsFaithful jwt keys service key jwk
    → key.alg ≡ "RS256"
    → 0 < (service).leeway_seconds
    → issue jwt keys service id tenant application user agent permissions ttl purpose issued_by
        issued grants
      ≡ ok ((g, token), grants')
    → issued ≤ now
    → now < g.expires_at
    → verify jwt keys service grants' now token ≡ ok g
unfolding issue sign
verify-issue jwt keys service key jwk id tenant application user agent permissions ttl purpose
      issued_by issued now grants grants' g token active published faithful signs slack made order_
      alive =
    let row = new_grant id tenant application user agent permissions ttl purpose issued_by issued in
    let same = ok_inj (rw active at made) in
    let living =
      subst (λ (x : (DelegationGrant × (jwt).Token) × Grants). now < x.0.0.expires_at) (sym same)
        alive in
    subst
      (λ (x : (DelegationGrant × (jwt).Token) × Grants).
        verify jwt keys service (x.1) now (x.0.1) ≡ ok (x.0.0))
      same
      (verify-fresh jwt keys service key jwk row issued now grants
        (decoded-claims_of jwt keys service key jwk row issued now published faithful signs slack
          order_ living)
        refl living)
