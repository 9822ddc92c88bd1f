-- ===== src/Storage/Memory/Identities.antt =====
-- authzkit/storage/memory.py: `upsert_user_from_identity`, called repeatedly.
use authz.Base.{
  String, true, ◌≡◌, refl, ◌∙◌, ◌⊎◌, inl, inr, Option, none, some, [], ◌∷◌, lookup, insert,
  lookup-insert, values, values-insert_new, first, first-append_none, string_eq, ==-refl, arith,
}
use authz.Tenancy.Models.{User, ExternalIdentity}
use authz.Storage.Memory.{
  InMemoryStore, has_identity, find_identity, new_user, new_identity, with_user,
  find_user_by_external_identity, upsert_user_from_identity,
}

module _ (provider issuer subject : String) where
  -- The identity is unknown, or known with its user.
  abbrev pub Attached : InMemoryStore → Type 0
  Attached s =
      (find_identity s provider issuer subject ≡ none)
      ⊎ ((i : ExternalIdentity) × (u : User) × (find_identity s provider issuer subject ≡ some i)
          × (lookup i.user_id s.users ≡ some u))

  upsert_known :
      (s : InMemoryStore) (i : ExternalIdentity) (u : User) (user_id identity_id : String)
      (email tenant display_name : Option String)
      → find_identity s provider issuer subject ≡ some i
      → lookup i.user_id s.users ≡ some u
      → upsert_user_from_identity user_id identity_id provider issuer subject email tenant
          display_name s
        ≡ ((u, i), s)
  unfolding upsert_user_from_identity find_user_by_external_identity
  upsert_known s i u user_id identity_id email tenant display_name e f =
      rw (e, f, upsert_user_from_identity, find_user_by_external_identity)

  upsert_unknown :
      (s : InMemoryStore) (user_id identity_id : String) (email tenant display_name : Option String)
      → find_identity s provider issuer subject ≡ none
      → upsert_user_from_identity user_id identity_id provider issuer subject email tenant
          display_name s
        ≡ with_user
            (new_user user_id email display_name)
            (new_identity identity_id user_id provider issuer subject tenant email)
            s
  unfolding upsert_user_from_identity find_user_by_external_identity
  upsert_unknown s user_id identity_id email tenant display_name e = ground arith

  find-insert :
      (i : ExternalIdentity) (s s' : InMemoryStore)
      → lookup i.id s.external_identities ≡ none
      → find_identity s provider issuer subject ≡ none
      → s'.external_identities ≡ insert i.id i s.external_identities
      → has_identity provider issuer subject i ≡ true
      → find_identity s' provider issuer subject ≡ some i
  unfolding find_identity first
  find-insert i s s' fresh unknown e h = rw e (
      rw (values-insert_new i.id i s.external_identities fresh) (
        rw
          (first-append_none (has_identity provider issuer subject) (values s.external_identities)
            (i ∷ []) unknown)
          (rw h)))

-- A second `upsert_user_from_identity` for the same external identity, with whatever ids, email,
-- tenant and display name, returns the user and the identity of the first and leaves the store as
-- the first left it; where the identity's fresh id was unused, and the identity was unknown before
-- or known together with its user.
pub upsert_user_from_identity_idem :
    (provider issuer subject : String) (s : InMemoryStore)
    (user_id identity_id user_id' identity_id' : String)
    (email tenant display_name email' tenant' display_name' : Option String)
    → lookup identity_id s.external_identities ≡ none
    → Attached provider issuer subject s
    → upsert_user_from_identity user_id' identity_id' provider issuer subject email' tenant'
        display_name'
        (upsert_user_from_identity user_id identity_id provider issuer subject email tenant
          display_name s).1
      ≡ upsert_user_from_identity user_id identity_id provider issuer subject email tenant
          display_name s
upsert_user_from_identity_idem provider issuer subject s user_id identity_id user_id' identity_id'
      email tenant display_name email' tenant' display_name' fresh (inr (i, u, e, f)) =
    let once =
      upsert_known provider issuer subject s i u user_id identity_id email tenant display_name e
        f in
    rw once (
      upsert_known provider issuer subject s i u user_id' identity_id' email' tenant' display_name'
        e f)
upsert_user_from_identity_idem provider issuer subject s user_id identity_id user_id' identity_id'
      email tenant display_name email' tenant' display_name' fresh (inl unknown) =
    let user = new_user user_id email display_name in
    let identity = new_identity identity_id user_id provider issuer subject tenant email in
    let s' = (with_user user identity s).1 in
    let once =
      upsert_unknown provider issuer subject s user_id identity_id email tenant display_name
        unknown in
    rw once (
      upsert_known provider issuer subject s' identity user user_id' identity_id' email' tenant'
        display_name'
        (find-insert provider issuer subject identity s s' fresh unknown refl
          (rw (==-refl provider) (rw (==-refl issuer) (==-refl subject))))
        (lookup-insert user_id user_id user s.users ∙ rw (==-refl user_id)))
