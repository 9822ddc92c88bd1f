-- ===== src/Tests/Keys.antt =====
-- API keys and signing keys on examples. The hash is the text itself, and a PEM is its own numbers.
use authz.Base.{
  ℕ, String, true, none, some, List, [], ◌∷◌, ok, Result, ◌≡◌, refl, Elem, arith, insert, lookup,
  any, values, string_eq, starts_with,
}
use authz.Storage.Tables.{add}
use authz.Security.SigningKeys.{
  PublicJwk, SigningKeyService, KeyError, newest_active, new_row, row_to_signing_key,
  active_signing_key, rotate, prune_retiring, all_public_jwks, generate_and_persist, load_db_active,
  demote,
}
use authz.Security.SigningKeys.Active.{
  fresh_service, signs, rotates, prunes, Reach, starts, then_step, Reach-one, one_active,
}
use authz.Security.SigningKeys.Rotation.{rotate-active_signing_key}
use authz.Security.SigningKeys.Published.{Run, done, then_call, all_public_jwks-active}

abbrev same : String → String
same text = text

abbrev numbers_of : String → Result KeyError String
numbers_of pem = ok pem

-- ---- Signing keys

abbrev started : SigningKeyService
started = fresh_service "" true "sqlite:///dev.db"

abbrev first_signed : SigningKeyService
first_signed = record {
  store = ("k1", new_row same numbers_of "k1" "n1" 0) ∷ [];
  env_pem = "";
  dev_mode = true;
  database_url = "sqlite:///dev.db";
  cached = some (row_to_signing_key "k1" (new_row same numbers_of "k1" "n1" 0));
}

first_signs :
    active_signing_key same numbers_of "k1" "n1" 0 started
    ≡ ok (row_to_signing_key "k1" (new_row same numbers_of "k1" "n1" 0), first_signed)
unfolding active_signing_key load_db_active newest_active generate_and_persist add lookup any values
    insert starts_with
first_signs = refl

reached : Reach same numbers_of first_signed
reached =
    then_step 60 0 starts
      (signs "k1" "n1" (row_to_signing_key "k1" (new_row same numbers_of "k1" "n1" 0)) first_signs)

k1-stored : lookup "k1" first_signed.store ≡ some (new_row same numbers_of "k1" "n1" 0)
unfolding lookup
k1-stored = refl

k2-fresh : lookup "k2" first_signed.store ≡ none
unfolding lookup
k2-fresh = refl

Reach-one_example : one_active first_signed.store ≡ true
Reach-one_example = Reach-one same numbers_of reached

rotate-active_signing_key_example :
    (after : SigningKeyService) × (rotate same numbers_of "k2" "n2" 10 first_signed
      ≡ ok (row_to_signing_key "k2" (new_row same numbers_of "k2" "n2" 10), after))
    × ((other_pem other_numbers : String) (later : ℕ)
        → active_signing_key same numbers_of other_pem other_numbers later after
          ≡ ok (
            row_to_signing_key "k2" (new_row same numbers_of "k2" "n2" 10),
            record after {
              cached = some (row_to_signing_key "k2" (new_row same numbers_of "k2" "n2" 10));
            },
          ))
rotate-active_signing_key_example =
    rotate-active_signing_key same numbers_of reached "k2" "n2" 10 refl k2-fresh

abbrev rotated_service : SigningKeyService
rotated_service = record {
  store =
      (
        "k1",
        record (new_row same numbers_of "k1" "n1" 0) { status = "retiring"; rotated_at = some 10 },
      )
      ∷ ("k2", new_row same numbers_of "k2" "n2" 10)
      ∷ [];
  env_pem = "";
  dev_mode = true;
  database_url = "sqlite:///dev.db";
  cached = none;
}

then_rotates :
    rotate same numbers_of "k2" "n2" 10 first_signed
    ≡ ok (row_to_signing_key "k2" (new_row same numbers_of "k2" "n2" 10), rotated_service)
unfolding rotate newest_active demote add lookup any values insert
then_rotates = refl

rotated_run : Run same numbers_of 60 0 first_signed 10 rotated_service
rotated_run = then_call done (omega arith) (
    rotates "k2" "n2" (row_to_signing_key "k2" (new_row same numbers_of "k2" "n2" 10)) then_rotates)

pruned_run : Run same numbers_of 60 0 first_signed 100 (prune_retiring 60 100 rotated_service).1
pruned_run = then_call rotated_run (omega arith) prunes

pruned_env : (prune_retiring 60 100 rotated_service).1.env_pem ≡ ""
unfolding prune_retiring
pruned_env = refl

all_public_jwks-active_example :
    (jwks : List PublicJwk) × (all_public_jwks same numbers_of
        (prune_retiring 60 100 rotated_service).1
      ≡ ok jwks)
    × Elem (new_row same numbers_of "k1" "n1" 0).public_jwk jwks
all_public_jwks-active_example =
    all_public_jwks-active same numbers_of "k1" (new_row same numbers_of "k1" "n1" 0) k1-stored refl
      pruned_run (omega arith) pruned_env
