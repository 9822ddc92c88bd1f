-- ===== src/Security/SigningKeys/Rotation.antt =====
-- authzkit/security/signing_keys.py: rotation succeeds, and the new key signs next.
use authz.Base.{
  ℕ, String, true, none, some, [], ◌∷◌, Result, ok, Dict, lookup, insert, values, any, Option-cases,
  Bool-cases, inl, inr, ◌==◌, string_eq, eq_iff, ◌≡◌, refl, arith, if◌then◌else◌,
}
use authz.Storage.Tables.{add}
use authz.Security.SigningKeys.{
  KeyRow, SigningKeyService, KeyError, is_active, newest_active, demote, demoted, without_active,
  new_row, active_signing_key, rotate, load_db_active, row_to_signing_key,
}
use authz.Security.SigningKeys.Active.{
  Reach, Reach-one, none_active, one_active, newest-demoted, newest_active-some,
}

pub lookup-demote :
    (now : ℕ) (kid k : String) (store : Dict String KeyRow)
    → lookup k (demote now kid store) ≡ elim (lookup k store) [
      | none ↦ none
      | some row ↦ some (if k == kid then demoted now row else row)
    ]
unfolding lookup demote
lookup-demote now kid k [] = refl
lookup-demote now kid k ((j, row) ∷ store) =
    ground (arith, eq_iff j k, eq_iff j kid, eq_iff k kid, lookup-demote now kid k store)

newest-insert :
    (kid : String) (row : KeyRow) (store : Dict String KeyRow)
    → lookup kid store ≡ none
    → none_active store ≡ true
    → is_active row ≡ true
    → newest_active (insert kid row store) ≡ some (kid, row)
unfolding newest_active any values insert lookup
newest-insert kid row [] fresh idle active = rw (active) refl
newest-insert kid row ((k, old) ∷ store) fresh idle active =
    ground (arith, newest-insert kid row store)

freed_none_active :
    (now : ℕ) (store : Dict String KeyRow)
    → one_active store ≡ true
    → none_active (without_active now store (newest_active store)) ≡ true
freed_none_active now store one = elim (Option-cases (newest_active store)) [
  | inl missing ↦ rw missing (newest_active-some store missing)
  | inr ((kid, row), found) ↦ rw found (newest-demoted now kid row store one found)
]

freed_fresh :
    (now : ℕ) (k : String) (store : Dict String KeyRow)
    → lookup k store ≡ none
    → lookup k (without_active now store (newest_active store)) ≡ none
freed_fresh now k store fresh = elim (Option-cases (newest_active store)) [
  | inl missing ↦ rw missing fresh
  | inr ((kid, row), found) ↦ rw (found, lookup-demote now kid k store, fresh) refl
]

add-new :
    (kid : String) (row : KeyRow) (store : Dict String KeyRow)
    → lookup kid store ≡ none
    → none_active store ≡ true
    → add is_active kid row store ≡ ok (insert kid row store)
unfolding add
add-new kid row store fresh idle = elim (Bool-cases (any is_active (values store))) [
  | inl clash ↦ ground arith
  | inr free ↦ rw (add, fresh, free) refl
]

module _ (derive_kid : String → String) (load_rsa : String → Result KeyError String) where
  -- On any service that calls can reach, without a key of the environment, a rotation to a key whose
  -- `kid` is new succeeds, whatever is stored; and the next signature is by the new key.
  pub rotate-active_signing_key :
      {st : SigningKeyService}
      → Reach derive_kid load_rsa st
      → (pem numbers : String) (now : ℕ) → st.env_pem ≡ ""
      → lookup (derive_kid pem) st.store ≡ none
      → let key =
          row_to_signing_key (derive_kid pem) (new_row derive_kid load_rsa pem numbers now) in
        (after : SigningKeyService) × (rotate derive_kid load_rsa pem numbers now st
          ≡ ok (key, after))
        × ((other_pem other_numbers : String) (later : ℕ)
            → active_signing_key derive_kid load_rsa other_pem other_numbers later after
              ≡ ok (key, record after { cached = some key }))
  unfolding rotate active_signing_key load_db_active
  rotate-active_signing_key {st} reached pem numbers now no_env fresh =
      let row = new_row derive_kid load_rsa pem numbers now in
      let kid = derive_kid pem in
      let no_pem : (st.env_pem == "") ≡ true = rw no_env refl in
      let freed = without_active now st.store (newest_active st.store) in
      let idle = freed_none_active now st.store (Reach-one derive_kid load_rsa reached) in
      let unused = freed_fresh now kid st.store fresh in
      (
        record st { store = insert kid row freed; cached = none },
        rw (rotate, no_pem, add-new kid row freed unused idle) refl,
        λ other_pem other_numbers later.
            rw (active_signing_key, no_pem, newest-insert kid row freed unused idle refl) refl,
      )
