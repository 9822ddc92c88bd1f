-- ===== src/Security/SigningKeys/Active.antt =====
-- authzkit/security/signing_keys.py: one active key, over any sequence of calls.
use authz.Base.{
  ℕ, String, Bool, true, false, not, none, some, [], ◌∷◌, Result, ok, Dict, lookup, insert, values,
  any, Option-cases, Result-cases, Bool-cases, inl, inr, and-true, ◌==◌, string_eq, ==-refl, eq_iff,
  ◌≡◌, refl, arith, if◌then◌else◌,
}
use authz.Storage.Tables.{add, add-ok, update_where}
use authz.Security.SigningKeys.{
  KeyRow, SigningKey, SigningKeyService, KeyError, is_active, newest_active, demote, prune_retiring,
  is_due, elapsed, revoked, without_active, new_row, generate_and_persist, active_signing_key,
  generate_if_missing, rotate,
}

abbrev pub none_active : Dict String KeyRow → Bool
none_active store = not (any is_active (values store))

unfoldable pub one_active : Dict String KeyRow → Bool
one_active [] = true
one_active ((kid, row) ∷ store) =
    let rest = one_active store in if is_active row then none_active store else rest

none_active-one : (store : Dict String KeyRow) → none_active store ≡ true → one_active store ≡ true
unfolding one_active any values
none_active-one [] h = refl
none_active-one ((kid, row) ∷ store) h = ground (arith, none_active-one store)

one_active-insert :
    (kid : String) (row : KeyRow) (store : Dict String KeyRow)
    → lookup kid store ≡ none
    → none_active store ≡ true
    → one_active (insert kid row store) ≡ true
unfolding one_active any values insert lookup
one_active-insert kid row [] fresh h = ground arith
one_active-insert kid row ((k, old) ∷ store) fresh h =
    ground (arith, one_active-insert kid row store)

newest_active-none :
    (store : Dict String KeyRow) → none_active store ≡ true → newest_active store ≡ none
unfolding newest_active any values
newest_active-none [] h = refl
newest_active-none ((kid, row) ∷ store) h = ground (arith, newest_active-none store)

none_active-demote :
    (now : ℕ) (kid : String) (store : Dict String KeyRow)
    → none_active store ≡ true
    → none_active (demote now kid store) ≡ true
unfolding demote any values
none_active-demote now kid [] h = refl
none_active-demote now kid ((k, row) ∷ store) h = ground (arith, none_active-demote now kid store)

pub newest-demoted :
    (now : ℕ) (kid : String) (row : KeyRow) (store : Dict String KeyRow)
    → one_active store ≡ true
    → newest_active store ≡ some (kid, row)
    → none_active (demote now kid store) ≡ true
unfolding demote any values newest_active one_active
newest-demoted now kid row [] one h = ground arith
newest-demoted now kid row ((k, v) ∷ store) one h = elim (Bool-cases (is_active v)) [
  | inl active ↦
      ground (arith, newest_active-none store, none_active-demote now kid store, ==-refl kid)
  | inr idle ↦ ground (arith, newest-demoted now kid row store)
]

pub newest_active-some :
    (store : Dict String KeyRow) → newest_active store ≡ none → none_active store ≡ true
unfolding newest_active any values
newest_active-some [] h = refl
newest_active-some ((kid, row) ∷ store) h = elim (Option-cases (newest_active store)) [
  | inl missing ↦ ground (arith, newest_active-some store)
  | inr (other, found) ↦ ground arith
]

is_due-idle : (ttl now : ℕ) (row : KeyRow) → is_due ttl now row ≡ true → is_active row ≡ false
is_due-idle ttl now row due =
    let (retiring, gone) =
      and-true (row.status == "retiring") (elapsed ttl now row.rotated_at) due in
    let same : row.status ≡ "retiring" = ground (arith, eq_iff row.status "retiring") in
    rw same refl

none_active-prune :
    (ttl now : ℕ) (store : Dict String KeyRow)
    → none_active (update_where (is_due ttl now) revoked store).1 ≡ none_active store
unfolding update_where any values
none_active-prune ttl now [] = refl
none_active-prune ttl now ((kid, row) ∷ store) = elim (Bool-cases (is_due ttl now row)) [
  | inl due ↦ rw (due, is_due-idle ttl now row due, none_active-prune ttl now store) refl
  | inr kept ↦ rw (kept) (ground (arith, none_active-prune ttl now store))
]

one_active-prune :
    (ttl now : ℕ) (store : Dict String KeyRow)
    → one_active store ≡ true
    → one_active (update_where (is_due ttl now) revoked store).1 ≡ true
unfolding update_where one_active any values
one_active-prune ttl now [] one = refl
one_active-prune ttl now ((kid, row) ∷ store) one = elim (Bool-cases (is_due ttl now row)) [
  | inl due ↦
      let idle = is_due-idle ttl now row due in
      let rest = rw idle at one in rw due (one_active-prune ttl now store rest)
  | inr kept ↦
      rw (kept) (ground (arith, none_active-prune ttl now store, one_active-prune ttl now store))
]

-- ---- Calls, and what they reach

-- A service as it starts, before any key is stored.
abbrev pub fresh_service :
    (env_pem : String) → (dev_mode : Bool) → (database_url : String) → SigningKeyService
fresh_service env_pem dev_mode database_url = record {
  store = [];
  env_pem = env_pem;
  dev_mode = dev_mode;
  database_url = database_url;
  cached = none;
}

module _ (derive_kid : String → String) (load_rsa : String → Result KeyError String) where
  -- A call that ends without an exception; one that raises is rolled back.
  pub data Step : (ttl now : ℕ) → SigningKeyService → SigningKeyService → Type 0 where
    signs :
        (pem numbers : String)
        → (key : SigningKey) → {ttl now : ℕ} → {st after : SigningKeyService}
        → active_signing_key derive_kid load_rsa pem numbers now st ≡ ok (key, after)
        → Step ttl now st after
    generates :
        (pem numbers : String)
        → (key : SigningKey) → {ttl now : ℕ} → {st after : SigningKeyService}
        → generate_if_missing derive_kid load_rsa pem numbers now st ≡ ok (key, after)
        → Step ttl now st after
    rotates :
        (pem numbers : String)
        → (key : SigningKey) → {ttl now : ℕ} → {st after : SigningKeyService}
        → rotate derive_kid load_rsa pem numbers now st ≡ ok (key, after)
        → Step ttl now st after
    prunes :
        {ttl now : ℕ} → {st : SigningKeyService} → Step ttl now st (prune_retiring ttl now st).1

  pub data Reach : SigningKeyService → Type 0 where
    starts :
        {env_pem : String}
        → {dev_mode : Bool} → {database_url : String}
        → Reach (fresh_service env_pem dev_mode database_url)
    then_step :
        (ttl now : ℕ)
        → {st after : SigningKeyService} → Reach st
        → Step ttl now st after
        → Reach after

  add-one :
      (row : KeyRow) (kid : String) (store after : Dict String KeyRow)
      → add is_active kid row store ≡ ok after
      → one_active after ≡ true
  unfolding add
  add-one row kid store after h =
      let (fresh, free, same) = add-ok is_active kid row store after h in
      elim (Bool-cases (any is_active (values store))) [
        | inl clash ↦ ground arith
        | inr idle ↦ rw same (one_active-insert kid row store fresh (rw idle refl))
      ]

  generate-one :
      (pem numbers : String) (now : ℕ) (key : SigningKey) (st after : SigningKeyService)
      → generate_and_persist derive_kid load_rsa pem numbers now st ≡ ok (key, after)
      → one_active after.store ≡ true
  unfolding generate_and_persist
  generate-one pem numbers now key st after h =
      elim (Result-cases
        (add is_active (derive_kid pem) (new_row derive_kid load_rsa pem numbers now) st.store)) [
          | inr (e, failed) ↦ ground arith
          | inl (store, stored) ↦ ground (
            arith,
            add-one (new_row derive_kid load_rsa pem numbers now) (derive_kid pem) st.store store,
          )
        ]

  active-one :
      (pem numbers : String) (now : ℕ) (key : SigningKey) (st after : SigningKeyService)
      → one_active st.store ≡ true
      → active_signing_key derive_kid load_rsa pem numbers now st ≡ ok (key, after)
      → one_active after.store ≡ true
  unfolding active_signing_key
  active-one pem numbers now key st after one h =
      elim (Result-cases (generate_and_persist derive_kid load_rsa pem numbers now st)) [
        | inl ((made, grown), e) ↦ ground (arith, generate-one pem numbers now made st grown)
        | inr (error, e) ↦ ground arith
      ]

  missing-one :
      (pem numbers : String) (now : ℕ) (key : SigningKey) (st after : SigningKeyService)
      → one_active st.store ≡ true
      → generate_if_missing derive_kid load_rsa pem numbers now st ≡ ok (key, after)
      → one_active after.store ≡ true
  unfolding generate_if_missing
  missing-one pem numbers now key st after one h =
      elim (Result-cases (active_signing_key derive_kid load_rsa pem numbers now st)) [
        | inl (r, e) ↦ ground (arith, active-one pem numbers now key st after)
        | inr (error, e) ↦
            elim (Result-cases (generate_and_persist derive_kid load_rsa pem numbers now st)) [
              | inl ((made, grown), found) ↦
                  ground (arith, generate-one pem numbers now made st grown)
              | inr (other, found) ↦ ground arith
            ]
      ]

  rotate-one :
      (pem numbers : String) (now : ℕ) (key : SigningKey) (st after : SigningKeyService)
      → rotate derive_kid load_rsa pem numbers now st ≡ ok (key, after)
      → one_active after.store ≡ true
  unfolding rotate
  rotate-one pem numbers now key st after h =
      let row = new_row derive_kid load_rsa pem numbers now in
      let freed = without_active now st.store (newest_active st.store) in
      elim (Result-cases (add is_active (derive_kid pem) row freed)) [
        | inr (e, failed) ↦ ground arith
        | inl (store, stored) ↦ ground (arith, add-one row (derive_kid pem) freed store)
      ]

  step-one :
      {ttl now : ℕ} {st after : SigningKeyService}
      → one_active st.store ≡ true
      → Step ttl now st after
      → one_active after.store ≡ true
  unfolding prune_retiring
  step-one {now} {st} {after} one (signs pem numbers key h) =
      active-one pem numbers now key st after one h
  step-one {now} {st} {after} one (generates pem numbers key h) =
      missing-one pem numbers now key st after one h
  step-one {now} {st} {after} one (rotates pem numbers key h) =
      rotate-one pem numbers now key st after h
  step-one {ttl} {now} {st} one prunes = one_active-prune ttl now st.store one

  -- After any sequence of the service's calls, at most one of the stored keys is active.
  pub Reach-one : {st : SigningKeyService} → Reach st → one_active st.store ≡ true
  unfolding one_active
  Reach-one starts = refl
  Reach-one (then_step ttl now before step) = step-one (Reach-one before) step
