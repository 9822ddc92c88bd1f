-- ===== src/Security/SigningKeys.antt =====
-- authzkit/security/signing_keys.py: `SigningKeyService` over the table `oauth_signing_keys`, whose
-- key is `kid`. SHA-256 and `cryptography` are parameters; a generated key, from its PEM and its
-- public numbers, and the time are arguments.
pub mod Published
pub mod Active
pub mod Rotation
use authz.Base.{
  ℕ, ◌+◌, ◌*◌, String, Bool, true, false, ◌&&◌, ◌||◌, Option, none, some, List, [], ◌∷◌, Result, ok,
  err, ◌>>=◌, Dict, contains, starts_with, leb, ltb, ◌==◌, string_eq, if◌then◌else◌,
}
use authz.Storage.Tables.{DbError, add, update_where}

pub record PublicJwk : Type 0 where
  pub kid : String
  pub numbers : String

-- A row of `oauth_signing_keys`, but for its `kid`.
pub record KeyRow : Type 0 where
  pub alg : String
  pub public_jwk : PublicJwk
  pub private_pem : String
  pub status : String
  pub created_at : ℕ
  pub rotated_at : Option ℕ

pub record SigningKey : Type 0 where
  pub kid : String
  pub alg : String
  pub status : String
  pub private_pem : String
  pub public_jwk : PublicJwk
  pub created_at : Option ℕ

pub record SigningKeyService : Type 0 where
  pub store : Dict String KeyRow
  pub env_pem : String
  pub dev_mode : Bool
  pub database_url : String
  pub cached : Option SigningKey

-- A `SigningKeyError`, or what `cryptography` and the database raise.
pub data KeyError : Type 0 where
  no_signing_key : KeyError
  not_rsa : KeyError
  key_of_environment : KeyError
  malformed : KeyError
  not_stored : DbError → KeyError

abbrev pub is_signing_key_error : KeyError → Bool
is_signing_key_error no_signing_key = true
is_signing_key_error not_rsa = true
is_signing_key_error key_of_environment = true
is_signing_key_error malformed = false
is_signing_key_error (not_stored e) = false

abbrev pub is_active : KeyRow → Bool
is_active row = row.status == "active"

-- `_row_to_signing_key`
abbrev pub row_to_signing_key : String → KeyRow → SigningKey
row_to_signing_key kid row = record {
  kid = kid;
  alg = row.alg;
  status = row.status;
  private_pem = row.private_pem;
  public_jwk = row.public_jwk;
  created_at = some row.created_at;
}

-- `order_by(created_at.desc())` and the first
abbrev newer : String × KeyRow → Option (String × KeyRow) → Option (String × KeyRow)
newer this none = some this
newer this (some other) =
    if ltb (this.1).created_at (other.1).created_at then some other else some this

unfoldable pub newest_active : Dict String KeyRow → Option (String × KeyRow)
newest_active [] = none
newest_active ((kid, row) ∷ store) =
    let rest = newest_active store in if is_active row then newer (kid, row) rest else rest

abbrev pub demoted : (now : ℕ) → KeyRow → KeyRow
demoted now row = record row { status = "retiring"; rotated_at = some now }

unfoldable pub demote : (now : ℕ) → String → Dict String KeyRow → Dict String KeyRow
demote now kid [] = []
demote now kid ((k, row) ∷ store) =
    let rest = demote now kid store in
    if k == kid then (k, demoted now row) ∷ rest else (k, row) ∷ rest

unfoldable pub list_entries : Dict String KeyRow → List SigningKey
list_entries [] = []
list_entries ((kid, row) ∷ store) = row_to_signing_key kid row ∷ list_entries store

-- `list_keys`
abbrev pub list_keys : SigningKeyService → List SigningKey
unfolding list_entries
list_keys st = list_entries st.store

-- The loop of `all_public_jwks` over the stored keys.
unfoldable pub publish : (seen_kids : List String) → Dict String KeyRow → List PublicJwk
publish seen_kids [] = []
publish seen_kids ((kid, row) ∷ store) =
    let skipped = publish seen_kids store in
    let rest = publish (kid ∷ seen_kids) store in
    if is_active row || row.status == "retiring"
    then (if contains kid seen_kids then skipped else row.public_jwk ∷ rest)
    else skipped

-- `_load_db_active`
abbrev loaded : Option (String × KeyRow) → Option SigningKey
loaded none = none
loaded (some (kid, row)) = some (row_to_signing_key kid row)

unfoldable pub load_db_active : SigningKeyService → Option SigningKey
load_db_active st = loaded (newest_active st.store)

-- `rotated_at is not None and rotated_at <= cutoff`, for a key that retires
abbrev pub elapsed : (max_token_ttl_seconds now : ℕ) → Option ℕ → Bool
elapsed max_token_ttl_seconds now none = false
elapsed max_token_ttl_seconds now (some rotated) = leb (rotated + 2 * max_token_ttl_seconds) now

abbrev pub is_due : (max_token_ttl_seconds now : ℕ) → KeyRow → Bool
is_due max_token_ttl_seconds now row =
    row.status == "retiring" && elapsed max_token_ttl_seconds now row.rotated_at

abbrev pub revoked : KeyRow → KeyRow
revoked row = record row { status = "revoked" }

-- `prune_retiring`: the number of keys revoked
unfoldable pub prune_retiring :
    (max_token_ttl_seconds now : ℕ) → SigningKeyService → ℕ × SigningKeyService
prune_retiring max_token_ttl_seconds now st =
    let (n, store) = update_where (is_due max_token_ttl_seconds now) revoked st.store in
    (n, record st { store = store })

abbrev pub without_active :
    (now : ℕ) → Dict String KeyRow → Option (String × KeyRow) → Dict String KeyRow
without_active now store none = store
without_active now store (some (kid, row)) = demote now kid store

-- `_derive_kid`, and the public numbers of a private RSA key in PEM.
module _ (derive_kid : String → String) (load_rsa : String → Result KeyError String) where
  -- `_public_jwk_from_pem`
  abbrev pub public_jwk_from_pem : (pem kid : String) → Result KeyError PublicJwk
  public_jwk_from_pem pem kid =
      load_rsa pem >>= λ numbers. ok (record { kid = kid; numbers = numbers })

  -- `_load_env_key`
  unfoldable pub load_env_key : SigningKeyService → Result KeyError SigningKey
  load_env_key st =
      let kid = derive_kid st.env_pem in
      public_jwk_from_pem st.env_pem kid >>= λ jwk. ok (record {
        kid = kid;
        alg = "RS256";
        status = "active";
        private_pem = st.env_pem;
        public_jwk = jwk;
        created_at = none;
      })

  -- The row that a generated key is stored as.
  abbrev pub new_row : (pem numbers : String) → (now : ℕ) → KeyRow
  new_row pem numbers now = record {
    alg = "RS256";
    public_jwk = record { kid = derive_kid pem; numbers = numbers };
    private_pem = pem;
    status = "active";
    created_at = now;
    rotated_at = none;
  }

  -- `_generate_and_persist`: a partial unique index lets one row be active.
  unfoldable pub generate_and_persist :
      (pem numbers : String)
      → (now : ℕ) → SigningKeyService
      → Result KeyError (SigningKey × SigningKeyService)
  generate_and_persist pem numbers now st =
      let row = new_row pem numbers now in
      elim (add is_active (derive_kid pem) row st.store) [
        | err e ↦ err (not_stored e)
        | ok store ↦ ok (row_to_signing_key (derive_kid pem) row, record st { store = store })
      ]

  abbrev cache : SigningKey × SigningKeyService → SigningKey × SigningKeyService
  cache (key, st) = (key, record st { cached = some key })

  abbrev cache_ok :
      Result KeyError (SigningKey × SigningKeyService)
      → Result KeyError (SigningKey × SigningKeyService)
  cache_ok (ok r) = ok (cache r)
  cache_ok (err e) = err e

  abbrev bootstrap :
      (pem numbers : String)
      → (now : ℕ) → SigningKeyService
      → Option SigningKey
      → Result KeyError (SigningKey × SigningKeyService)
  bootstrap pem numbers now st (some key) = ok (cache (key, st))
  bootstrap pem numbers now st none =
      if st.dev_mode && starts_with "sqlite" st.database_url
      then cache_ok (generate_and_persist pem numbers now st)
      else err no_signing_key

  abbrev from_environment :
      SigningKeyService
      → Result KeyError SigningKey
      → Result KeyError (SigningKey × SigningKeyService)
  from_environment st (ok key) = ok (cache (key, st))
  from_environment st (err e) = err e

  -- `active_signing_key`; the generated key is used where the code generates one.
  unfoldable pub active_signing_key :
      (pem numbers : String)
      → (now : ℕ) → SigningKeyService
      → Result KeyError (SigningKey × SigningKeyService)
  active_signing_key pem numbers now st = elim (st.cached) [
    | some key ↦ ok (key, st)
    | none ↦
        if st.env_pem == ""
        then bootstrap pem numbers now st (load_db_active st)
        else from_environment st (load_env_key st)
  ]

  -- `generate_if_missing`
  unfoldable pub generate_if_missing :
      (pem numbers : String)
      → (now : ℕ) → SigningKeyService
      → Result KeyError (SigningKey × SigningKeyService)
  generate_if_missing pem numbers now st = elim (active_signing_key pem numbers now st) [
    | ok r ↦ ok r
    | err e ↦
        if is_signing_key_error e then cache_ok (generate_and_persist pem numbers now st) else err e
  ]

  -- `all_public_jwks`
  unfoldable pub all_public_jwks : SigningKeyService → Result KeyError (List PublicJwk)
  all_public_jwks st =
      if st.env_pem == ""
      then ok (publish [] st.store)
      else (load_env_key st >>= λ env_key.
          ok (env_key.public_jwk ∷ publish (env_key.kid ∷ []) st.store))

  -- `rotate`: one transaction
  unfoldable pub rotate :
      (pem numbers : String)
      → (now : ℕ) → SigningKeyService
      → Result KeyError (SigningKey × SigningKeyService)
  rotate pem numbers now st =
      let row = new_row pem numbers now in
      let freed = without_active now st.store (newest_active st.store) in
      if st.env_pem == ""
      then (elim (add is_active (derive_kid pem) row freed) [
        | err e ↦ err (not_stored e)
        | ok store ↦
            ok (row_to_signing_key (derive_kid pem) row, record st { store = store; cached = none })
      ])
      else err key_of_environment

  -- `sign`: the claims, the PEM, the algorithm and the `kid` go to PyJWT.
  unfoldable pub sign :
      {Claims Token : Type 0}
      → (encode : Claims → (private_pem alg kid : String) → Token) → (pem numbers : String)
      → (now : ℕ) → Claims
      → SigningKeyService
      → Result KeyError (Token × SigningKeyService)
  sign encode pem numbers now claims st = active_signing_key pem numbers now st >>= λ (key, after).
      ok (encode claims key.private_pem key.alg key.kid, after)
