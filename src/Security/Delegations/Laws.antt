-- ===== src/Security/Delegations/Laws.antt =====
-- authzkit/security/delegations.py: what revocation does to what `verify` accepts.
use authz.Base.{
  ℕ, String, ◌&&◌, Option, none, some, [], ◌∷◌, ok, err, Bool-cases, Option-cases, inl, inr, lookup,
  lookup-insert, ◌==◌, string_eq, eq_iff, ◌≡◌, refl, arith, if◌then◌else◌,
}
use authz.Rbac.Requests.{is_some}
use authz.Security.Tokens.{Claims, Jwt, SigningKeys}
use authz.Security.Delegations.{
  DelegationGrant, Grants, DelegationService, decoded, stored, verify, revoked, revoke_grant,
  revoke, is_matching, revoke_matching,
}

lookup-revoke :
    (now : ℕ) (id j : String) (grants : Grants)
    → lookup j (revoke now id grants).1 ≡ (
        if id == j
        then elim (lookup id grants) [
          | none ↦ none
          | some g ↦ some (if g.status == "revoked" then g else revoke_grant now g)
        ]
        else lookup j grants)
unfolding revoke
lookup-revoke now id j grants = elim (Option-cases (lookup id grants)) [
  | inl e ↦ ground (arith, eq_iff id j, e)
  | inr (g, e) ↦ ground (arith, eq_iff id j, e, lookup-insert id j (revoke_grant now g) grants)
]

-- A grant as `revoke_matching` leaves it.
abbrev after :
    (now : ℕ)
    → String
    → (user_id agent_id : Option String) → Option DelegationGrant
    → Option DelegationGrant
after now tenant user agent none = none
after now tenant user agent (some g) =
    some (if is_matching tenant user agent g then revoke_grant now g else g)

lookup-revoke_matching :
    (now : ℕ) (tenant : String) (user agent : Option String) (j : String) (grants : Grants)
    → lookup j (revoke_matching now tenant user agent grants).1
      ≡ after now tenant user agent (lookup j grants)
unfolding revoke_matching lookup
lookup-revoke_matching now tenant user agent j [] = refl
lookup-revoke_matching now tenant user agent j ((i, g) ∷ grants) =
    ground (arith, lookup-revoke_matching now tenant user agent j grants)

stored-revoked :
    (now then_ : ℕ) (c : Claims) (g : DelegationGrant)
    → stored now c (some (if g.status == "revoked" then g else revoke_grant then_ g)) ≡ err revoked
unfolding stored revoke_grant
stored-revoked now then_ c g = elim (Bool-cases (g.status == "revoked")) [
  | inl h ↦ rw (h, h) refl
  | inr h ↦ rw h refl
]

stored-revoke_grant :
    (now then_ : ℕ) (c : Claims) (g : DelegationGrant)
    → stored now c (some (revoke_grant then_ g)) ≡ err revoked
unfolding stored revoke_grant
stored-revoke_grant now then_ c g = refl

module _ (jwt : Jwt) (keys : SigningKeys) (service : DelegationService) (grants : Grants) (now : ℕ)
    (token : (jwt).Token) where
  verify-decoded :
      (c : Claims)
      → decoded jwt keys service now token ≡ ok c
      → verify jwt keys service grants now token ≡ stored now c (lookup (c.jti) grants)
  unfolding verify
  verify-decoded c d = rw d refl

module _ (jwt : Jwt) (keys : SigningKeys) (service : DelegationService) (grants : Grants) (now : ℕ)
    (token : (jwt).Token) where
  -- After `revoke`, a token that decodes to the revoked grant's id is refused as revoked, and every
  -- other token is treated as before.
  pub verify-revoke :
      (id : String) (then_ : ℕ) (c : Claims)
      → decoded jwt keys service now token ≡ ok c
      → verify jwt keys service (revoke then_ id grants).1 now token ≡ (
          if id == c.jti && is_some (lookup id grants)
          then err revoked
          else verify jwt keys service grants now token)
  verify-revoke id then_ c d =
      rw
        (
          verify-decoded jwt keys service grants now token c d,
          verify-decoded jwt keys service (revoke then_ id grants).1 now token c d,
          lookup-revoke then_ id (c.jti) grants,
        )
        (elim (Option-cases (lookup id grants)) [
          | inl e ↦ ground (arith, eq_iff id (c.jti))
          | inr (g, e) ↦ ground (arith, eq_iff id (c.jti), stored-revoked now then_ c g)
        ])

  -- The kill switch: after `revoke_matching`, a token that decodes to a stored grant is refused as
  -- revoked if the grant was an active one of the tenant, and of the user and the agent where they
  -- are given; otherwise it is treated as before.
  pub verify-revoke_matching :
      (tenant : String) (user agent : Option String) (then_ : ℕ) (c : Claims) (g : DelegationGrant)
      → decoded jwt keys service now token ≡ ok c
      → lookup (c.jti) grants ≡ some g
      → verify jwt keys service (revoke_matching then_ tenant user agent grants).1 now token ≡ (
          if is_matching tenant user agent g
          then err revoked
          else verify jwt keys service grants now token)
  verify-revoke_matching tenant user agent then_ c g d l =
      rw
        (
          verify-decoded jwt keys service grants now token c d,
          verify-decoded jwt keys service (revoke_matching then_ tenant user agent grants).1 now
              token c d,
          lookup-revoke_matching then_ tenant user agent (c.jti) grants,
          l,
        )
        (elim (Bool-cases (is_matching tenant user agent g)) [
          | inl m ↦ rw m (stored-revoke_grant now then_ c g)
          | inr m ↦ rw m refl
        ])
