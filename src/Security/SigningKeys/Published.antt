-- ===== src/Security/SigningKeys/Published.antt =====
-- authzkit/security/signing_keys.py: how long a key that has signed stays in the published set.
use authz.Base.{
  ℕ, ◌+◌, ◌*◌, ◌≤◌, ◌<◌, String, true, false, some, List, [], ◌∷◌, Result, ok, Dict, lookup,
  lookup-insert, contains, Option-cases, Result-cases, Bool-cases, ◌⊎◌, inl, inr, ◌==◌, string_eq,
  eq_iff, ◌≡◌, refl, sym, ◌||◌, arith,
}
use authz.Base.{Elem}
use authz.Storage.Tables.{add, add-ok, update_where, lookup-update_where}
use authz.Security.SigningKeys.{
  PublicJwk, KeyRow, SigningKey, SigningKeyService, KeyError, is_active, newest_active, demote,
  demoted, without_active, is_due, revoked, new_row, generate_and_persist, active_signing_key,
  generate_if_missing, prune_retiring, all_public_jwks, publish, rotate, load_db_active,
}
use authz.Security.SigningKeys.Active.{Step, signs, generates, rotates, prunes}
use authz.Security.SigningKeys.Rotation.{lookup-demote}

-- A row is active, or has retired at the time t or later.
abbrev pub UsedAt : (t : ℕ) → KeyRow → Type 0
UsedAt t row =
    (row.status ≡ "active")
    ⊎ ((row.status ≡ "retiring") × (rotated : ℕ) × (row.rotated_at ≡ some rotated) × (t ≤ rotated))

abbrev pub Kept : (t : ℕ) → String → PublicJwk → Dict String KeyRow → Type 0
Kept t kid jwk store =
    (row : KeyRow) × (lookup kid store ≡ some row) × (row.public_jwk ≡ jwk) × UsedAt t row

demote-Kept :
    (t now : ℕ) (gone kid : String) (jwk : PublicJwk) (store : Dict String KeyRow)
    → t ≤ now
    → Kept t kid jwk store
    → Kept t kid jwk (demote now gone store)
demote-Kept t now gone kid jwk store later (row, there, same, used) =
    elim (Bool-cases (kid == gone)) [
      | inl hit ↦ (
        demoted now row,
        rw (lookup-demote now gone kid store, there, hit) refl,
        same,
        inr (refl, now, refl, later),
      )
      | inr other ↦ (row, rw (lookup-demote now gone kid store, there, other) refl, same, used)
    ]

freed-Kept :
    (t now : ℕ) (kid : String) (jwk : PublicJwk) (store : Dict String KeyRow)
    → t ≤ now
    → Kept t kid jwk store
    → Kept t kid jwk (without_active now store (newest_active store))
freed-Kept t now kid jwk store later kept = elim (Option-cases (newest_active store)) [
  | inl missing ↦ rw missing kept
  | inr ((gone, row), found) ↦ rw found (demote-Kept t now gone kid jwk store later kept)
]

add-Kept :
    (t : ℕ) (kid new : String) (jwk : PublicJwk) (row : KeyRow) (store after : Dict String KeyRow)
    → add is_active new row store ≡ ok after
    → Kept t kid jwk store
    → Kept t kid jwk after
add-Kept t kid new jwk row store after h (old, there, same, used) =
    let (fresh, free, is_after) = add-ok is_active new row store after h in
    (
      old,
      rw (is_after, lookup-insert new kid row store) (ground (arith, eq_iff new kid)),
      same,
      used,
    )

not_due :
    (t ttl now : ℕ) (row : KeyRow) → now < t + 2 * ttl → UsedAt t row → is_due ttl now row ≡ false
not_due t ttl now row early (inl active) = rw active refl
not_due t ttl now row early (inr (retiring, rotated, at, later)) = rw (retiring, at) (ground arith)

prune-Kept :
    (t ttl now : ℕ) (kid : String) (jwk : PublicJwk) (store : Dict String KeyRow)
    → now < t + 2 * ttl
    → Kept t kid jwk store
    → Kept t kid jwk (update_where (is_due ttl now) revoked store).1
prune-Kept t ttl now kid jwk store early (row, there, same, used) =
    let safe = not_due t ttl now row early used in
    (row, rw (lookup-update_where (is_due ttl now) revoked kid store, there, safe) refl, same, used)

module _ (derive_kid : String → String) (load_rsa : String → Result KeyError String) where
  -- Calls at times that do not go back.
  pub data Run (ttl : ℕ) : ℕ → SigningKeyService → ℕ → SigningKeyService → Type 0 where
    done : {t : ℕ} → {st : SigningKeyService} → Run ttl t st t st
    then_call :
        {t now later : ℕ}
        → {st between after : SigningKeyService} → Run ttl t st now between
        → now ≤ later
        → Step derive_kid load_rsa ttl later between after
        → Run ttl t st later after

  generate-Kept :
      (t : ℕ) (kid : String) (jwk : PublicJwk) (pem numbers : String) (now : ℕ) (key : SigningKey)
      (st after : SigningKeyService)
      → generate_and_persist derive_kid load_rsa pem numbers now st ≡ ok (key, after)
      → Kept t kid jwk st.store
      → Kept t kid jwk after.store
  unfolding generate_and_persist
  generate-Kept t kid jwk pem numbers now key st after h kept =
      let row = new_row derive_kid load_rsa pem numbers now in
      elim (Result-cases (add is_active (derive_kid pem) row st.store)) [
        | inr (e, failed) ↦ ground arith
        | inl (store, stored) ↦
            let is_after : after.store ≡ store = ground arith in
            rw is_after (add-Kept t kid (derive_kid pem) jwk row st.store store stored kept)
      ]

  rotate-Kept :
      (t : ℕ) (kid : String) (jwk : PublicJwk) (pem numbers : String) (now : ℕ) (key : SigningKey)
      (st after : SigningKeyService)
      → t ≤ now
      → rotate derive_kid load_rsa pem numbers now st ≡ ok (key, after)
      → Kept t kid jwk st.store
      → Kept t kid jwk after.store
  unfolding rotate
  rotate-Kept t kid jwk pem numbers now key st after later h kept =
      let row = new_row derive_kid load_rsa pem numbers now in
      let freed = without_active now st.store (newest_active st.store) in
      elim (Result-cases (add is_active (derive_kid pem) row freed)) [
        | inr (e, failed) ↦ absurd (ground arith)
        | inl (store, stored) ↦
            let is_after : after.store ≡ store = ground arith in
            rw is_after (
              add-Kept t kid (derive_kid pem) jwk row freed store stored
                (freed-Kept t now kid jwk st.store later kept))
      ]

  -- What signing and generating make of the stored keys.
  grown :
      (pem numbers : String) (now : ℕ) (key : SigningKey) (st after : SigningKeyService)
      → active_signing_key derive_kid load_rsa pem numbers now st ≡ ok (key, after)
      → (after.store ≡ st.store)
        ⊎ ((made : SigningKey) × (bigger : SigningKeyService) × (generate_and_persist derive_kid
                load_rsa pem numbers now st
              ≡ ok (made, bigger))
            × (after.store ≡ bigger.store))
  unfolding active_signing_key
  grown pem numbers now key st after h =
      elim (Result-cases (generate_and_persist derive_kid load_rsa pem numbers now st)) [
        | inr (e, failed) ↦ inl (ground arith)
        | inl ((made, bigger), e) ↦ elim (Option-cases (st.cached)) [
          | inr (old, cached) ↦ inl (ground arith)
          | inl empty ↦ elim (Bool-cases (st.env_pem == "")) [
            | inr env ↦ inl (ground arith)
            | inl no_env ↦ elim (Option-cases (load_db_active st)) [
              | inr (old, found) ↦ inl (ground arith)
              | inl missing ↦ inr (made, bigger, e, ground arith)
            ]
          ]
        ]
      ]

  active-Kept :
      (t : ℕ) (kid : String) (jwk : PublicJwk) (pem numbers : String) (now : ℕ) (key : SigningKey)
      (st after : SigningKeyService)
      → active_signing_key derive_kid load_rsa pem numbers now st ≡ ok (key, after)
      → Kept t kid jwk st.store
      → Kept t kid jwk after.store
  active-Kept t kid jwk pem numbers now key st after h kept =
      elim (grown pem numbers now key st after h) [
        | inl same ↦ rw same kept
        | inr (made, bigger, made_by, same) ↦
            rw same (generate-Kept t kid jwk pem numbers now made st bigger made_by kept)
      ]

  missing-Kept :
      (t : ℕ) (kid : String) (jwk : PublicJwk) (pem numbers : String) (now : ℕ) (key : SigningKey)
      (st after : SigningKeyService)
      → generate_if_missing derive_kid load_rsa pem numbers now st ≡ ok (key, after)
      → Kept t kid jwk st.store
      → Kept t kid jwk after.store
  unfolding generate_if_missing
  missing-Kept t kid jwk pem numbers now key st after h kept =
      elim (Result-cases (active_signing_key derive_kid load_rsa pem numbers now st)) [
        | inl ((k, mid), e) ↦
            let is_after : after ≡ mid = ground arith in
            rw is_after (active-Kept t kid jwk pem numbers now k st mid e kept)
        | inr (error, e) ↦
            elim (Result-cases (generate_and_persist derive_kid load_rsa pem numbers now st)) [
              | inl ((made, bigger), found) ↦
                  let is_after : after.store ≡ bigger.store = ground arith in
                  rw is_after (generate-Kept t kid jwk pem numbers now made st bigger found kept)
              | inr (other, found) ↦ absurd (ground arith)
            ]
      ]

  step-Kept :
      (t ttl now : ℕ) (kid : String) (jwk : PublicJwk) {st after : SigningKeyService}
      → t ≤ now
      → now < t + 2 * ttl
      → Step derive_kid load_rsa ttl now st after
      → Kept t kid jwk st.store
      → Kept t kid jwk after.store
  unfolding prune_retiring
  step-Kept t ttl now kid jwk {st} {after} later early (signs pem numbers key h) kept =
      active-Kept t kid jwk pem numbers now key st after h kept
  step-Kept t ttl now kid jwk {st} {after} later early (generates pem numbers key h) kept =
      missing-Kept t kid jwk pem numbers now key st after h kept
  step-Kept t ttl now kid jwk {st} {after} later early (rotates pem numbers key h) kept =
      rotate-Kept t kid jwk pem numbers now key st after later h kept
  step-Kept t ttl now kid jwk {st} later early prunes kept =
      prune-Kept t ttl now kid jwk st.store early kept

  run-later : {ttl t now : ℕ} {st after : SigningKeyService} → Run ttl t st now after → t ≤ now
  run-later done = omega arith
  run-later (then_call before later step) = let so_far = run-later before in omega arith

  run-Kept :
      (kid : String) (jwk : PublicJwk) {ttl t now : ℕ} {st after : SigningKeyService}
      → Run ttl t st now after
      → now < t + 2 * ttl
      → Kept t kid jwk st.store
      → Kept t kid jwk after.store
  run-Kept kid jwk done early kept = kept
  run-Kept kid jwk {ttl} {t} {now = later} (then_call {now} before after_it step) early kept =
      let started = run-later before in
      let still : now < t + 2 * ttl = omega arith in
      step-Kept t ttl later kid jwk (omega arith) early step (run-Kept kid jwk before still kept)

  publish-Elem :
      (seen_kids : List String) (kid : String) (row : KeyRow) (store : Dict String KeyRow)
      → lookup kid store ≡ some row
      → contains kid seen_kids ≡ false
      → (is_active row || row.status == "retiring") ≡ true
      → Elem row.public_jwk (publish seen_kids store)
  unfolding publish lookup contains
  publish-Elem seen_kids kid row [] there unseen alive = absurd (cc)
  publish-Elem seen_kids kid row ((k, v) ∷ store) there unseen alive =
      elim (Bool-cases (k == kid)) [
        | inl hit ↦
            let same_kid : k ≡ kid = ground (arith, eq_iff k kid) in
            let same_row : v ≡ row = ground arith in
            rw (same_kid, same_row, alive, unseen) (inl refl)
        | inr other ↦
            let rest : lookup kid store ≡ some row = ground arith in
            let skip = publish-Elem seen_kids kid row store rest unseen alive in
            elim (Bool-cases (is_active v || v.status == "retiring")) [
              | inr hidden ↦ rw hidden skip
              | inl shown ↦ elim (Bool-cases (contains k seen_kids)) [
                | inl seen ↦ rw (shown, seen) skip
                | inr new ↦
                    let now_unseen : contains kid (k ∷ seen_kids) ≡ false =
                      ground (arith, eq_iff k kid, eq_iff kid k) in
                    rw (shown, new)
                      (inr (publish-Elem (k ∷ seen_kids) kid row store rest now_unseen alive))
              ]
            ]
      ]

  used-shown :
      (t : ℕ) (row : KeyRow) → UsedAt t row → (is_active row || row.status == "retiring") ≡ true
  used-shown t row (inl active) = rw active refl
  used-shown t row (inr (retiring, rotated, at, later)) = rw retiring refl

  -- On a service without a key of the environment: the public key of a key that is active at the time
  -- t is in the published set after any calls, until 2·ttl has gone by, where each call that prunes is
  -- told the same ttl and times do not go back.
  pub all_public_jwks-active :
      {st : SigningKeyService} {ttl t now : ℕ} {after : SigningKeyService} (kid : String)
      (row : KeyRow)
      → lookup kid st.store ≡ some row
      → row.status ≡ "active"
      → Run ttl t st now after
      → now < t + 2 * ttl
      → after.env_pem ≡ ""
      → (jwks : List PublicJwk) × (all_public_jwks derive_kid load_rsa after ≡ ok jwks)
        × Elem row.public_jwk jwks
  unfolding all_public_jwks contains
  all_public_jwks-active {st} {ttl} {t} {now} {after} kid row stored active run early no_env =
      let (kept, there, same, used) =
        run-Kept kid row.public_jwk run early (row, stored, refl, inl active) in
      let listed = publish-Elem [] kid kept after.store there refl (used-shown t kept used) in
      (publish [] after.store, rw (all_public_jwks, no_env) refl, rw (sym same) listed)
