-- ===== src/Security/Invitations/Laws.antt =====
-- authzkit/security/invitations.py: an invitation is accepted once, and a failure gives it back.
use authz.Base.{
  ℕ, String, true, Option, none, some, List, [], ◌∷◌, Result, ok, err, values, Option-cases,
  Result-cases, Bool-cases, ◌⊎◌, inl, inr, ltb, ◌==◌, nat_eq, string_eq, eq_iff, ==-refl, ◌≡◌, refl,
  first-Elem, arith, Elem, All, Bool, false, ◌≤◌,
}
use authz.Storage.Tables.{DbError, scalar, update_where, scalar-update_where, update_where-twice}
use authz.Security.Invitations.{
  Invitation, InvitationRecord, Invitations, invitation_error, no_membership, is_pending, claimed,
  has_id, reopened, stored_roles, names_or_none, join_tenant, accept,
}

module _ (hash : String → String) {Store : Type 0}
    (create_membership : (tenant_id : String)
      → (application_id : Option String) → (user_id : String) → (roles : Option (List String))
      → Store
      → Result DbError Store) where
  -- What an acceptance that succeeds has found and written.
  accepted :
      (now : ℕ) (plaintext user : String) (t after : Invitations) (store joined : Store)
      (r : InvitationRecord)
      → accept create_membership hash (λ x. x) now plaintext user t store ≡ (ok r, (after, joined))
      → (row : Invitation) × (scalar (λ i. i.token_hash == hash plaintext) t ≡ some row)
        × (row.status ≡ "pending")
        × (after ≡ (update_where (is_pending row.id) (claimed now user) t).1)
  unfolding accept join_tenant
  accepted now plaintext user t after store joined r h =
      elim (Option-cases (scalar (λ (i : Invitation). i.token_hash == hash plaintext) t)) [
        | inl missing ↦ absurd (ground arith)
        | inr (row, found) ↦
            elim (Result-cases (
              create_membership row.tenant_id row.application_id user
                (names_or_none (stored_roles row.roles)) store)) [
                  | inl (s, made) ↦
                      (row, found, ground (arith, eq_iff row.status "pending"), ground arith)
                  | inr (e, failed) ↦ absurd (ground arith)
                ]
      ]

  -- A claim that comes second finds no pending row.
  second_claim :
      (now later : ℕ) (user other : String) (row : Invitation) (t : Invitations)
      → (update_where
          (is_pending row.id)
          (claimed later other)
          (update_where (is_pending row.id) (claimed now user) t).1).0
        ≡ 0
  second_claim now later user other row t =
      (update_where-twice (is_pending row.id) (claimed now user) (claimed later other) t
        (λ v pending. ground arith)).0

  refused_late :
      (later : ℕ) (plaintext other : String) (row : Invitation) (t after : Invitations)
      (store : Store)
      → scalar (λ i. i.token_hash == hash plaintext) t ≡ some row
      → (update_where (is_pending row.id) (claimed later other) after).0 ≡ 0
      → let outcome = accept create_membership hash (λ x. after) later plaintext other t store in
        ((reason : String) × (outcome.0 ≡ err (invitation_error reason))) × (outcome.1.1 ≡ store)
  unfolding accept
  refused_late later plaintext other row t after store found none_left =
      elim (Bool-cases (row.status == "pending")) [
        | inr settled ↦ (
          ("invitation_not_pending", rw (accept, found, settled) refl),
          rw (accept, found, settled) refl,
        )
        | inl pending ↦ elim (Bool-cases (ltb row.expires_at later)) [
          | inl expired ↦ (
            ("invitation_expired", rw (accept, found, pending, expired) refl),
            rw (accept, found, pending, expired) refl,
          )
          | inr alive ↦ (
            ("invitation_not_pending", rw (accept, found, pending, alive, none_left) refl),
            rw (accept, found, pending, alive, none_left) refl,
          )
        ]
      ]

  -- A token is accepted once: when one user's acceptance has succeeded, another's with the same token
  -- is refused with an `InvitationError` and does not touch the memberships, be it that it read the
  -- table before the first one's claim and claims after it, or that it starts after it.
  pub accept-accept :
      (now later : ℕ) (plaintext user other : String) (t after : Invitations)
      (store joined rest : Store) (r : InvitationRecord)
      → accept create_membership hash (λ x. x) now plaintext user t store ≡ (ok r, (after, joined))
      → (read : Invitations) → (read ≡ t) ⊎ (read ≡ after)
      → let outcome = accept create_membership hash (λ x. after) later plaintext other read rest in
        ((reason : String) × (outcome.0 ≡ err (invitation_error reason))) × (outcome.1.1 ≡ rest)
  accept-accept now later plaintext user other t after store joined rest r h read when =
      let (row, found, pending, is_after) = accepted now plaintext user t after store joined r h in
      let with_hash = λ (i : Invitation). i.token_hash == hash plaintext in
      let spent : (update_where (is_pending row.id) (claimed later other) after).0 ≡ 0 =
        rw is_after (second_claim now later user other row t) in
      elim when [
        | inl early ↦ rw early (refused_late later plaintext other row t after rest found spent)
        | inr late ↦
            let hit : is_pending row.id row ≡ true = rw pending (ground (arith, ==-refl row.id)) in
            let still : scalar with_hash after ≡ some (claimed now user row) =
              rw
                (
                  is_after,
                  scalar-update_where with_hash (is_pending row.id) (claimed now user) t
                      (λ v. refl),
                  found,
                  hit,
                )
                refl in
            rw late (
              refused_late later plaintext other (claimed now user row) after after rest still
                spent)
      ]

-- ---- A failure gives the invitation back

-- No row has this id.
abbrev NoId : String → Invitations → Type 0
NoId id t = All (λ (w : Invitation). (w.id == id) ≡ false) (values t)

-- Each row's id is its own.
abbrev pub HasOwnIds : Invitations → Type 0
HasOwnIds [] = Unit
HasOwnIds ((k, v) ∷ t) = NoId v.id t × HasOwnIds t

-- No two rows have the same id, and a row that is pending has not been accepted.
pub record IsSound (t : Invitations) : Type 0 where
  pub unique : HasOwnIds t
  pub unaccepted :
      (v : Invitation)
      → Elem v (values t)
      → v.status ≡ "pending"
      → (v.accepted_at ≡ none) × (v.accepted_by_user_id ≡ none)

NoId-Elem :
    (id : String) (t : Invitations) (row : Invitation)
    → NoId id t
    → Elem row (values t)
    → (row.id == id) ≡ false
unfolding values
NoId-Elem id [] row other there = absurd there
NoId-Elem id ((k, v) ∷ t) row (other, others) (inl is_row) = rw is_row other
NoId-Elem id ((k, v) ∷ t) row (other, others) (inr later) = NoId-Elem id t row others later

-- A statement on an id that no row has does nothing.
update_where-NoId :
    (p : Invitation → Bool) (f : Invitation → Invitation) (id : String) (t : Invitations)
    → ((v : Invitation) → (v.id == id) ≡ false → p v ≡ false)
    → NoId id t
    → update_where p f t ≡ (0, t)
unfolding update_where values
update_where-NoId p f id [] misses none_here = refl
update_where-NoId p f id ((k, v) ∷ t) misses (other, others) =
    rw (update_where-NoId p f id t misses others, misses v other) refl

-- The claim of a pending row is of one row, and reopened it leaves the table as before.
reopened-claimed :
    (now : ℕ) (user : String) (row : Invitation) (t : Invitations)
    → row.status ≡ "pending"
    → row.accepted_at ≡ none
    → row.accepted_by_user_id ≡ none
    → HasOwnIds t
    → Elem row (values t)
    → let claim = update_where (is_pending row.id) (claimed now user) t in
      (claim.0 ≡ 1) × ((update_where (has_id row.id) reopened claim.1).1 ≡ t)
unfolding update_where values
reopened-claimed now user row [] pending no_time no_user own there = absurd there
reopened-claimed now user row ((k, v) ∷ t) pending no_time no_user (others, own) (inl is_row) =
    let is_id : row.id ≡ v.id = ground arith in
    let free : NoId row.id t = rw is_id others in
    let untaken =
      update_where-NoId (is_pending row.id) (claimed now user) row.id t (λ w other. ground arith)
        free in
    let unopened = update_where-NoId (has_id row.id) reopened row.id t (λ w other. other) free in
    let back : reopened (claimed now user row) ≡ row = ground arith in
    let hit : is_pending row.id row ≡ true = rw pending (ground (arith, ==-refl row.id)) in
    rw (← is_row) (rw (untaken, hit, ==-refl row.id, unopened, back) (refl, refl))
reopened-claimed now user row ((k, v) ∷ t) pending no_time no_user (others, own) (inr later) =
    let (one, back) = reopened-claimed now user row t pending no_time no_user own later in
    let apart : (row.id == v.id) ≡ false = NoId-Elem v.id t row others later in
    let other : (v.id == row.id) ≡ false = ground (arith, eq_iff v.id row.id, eq_iff row.id v.id) in
    rw (other, one, other, back) (refl, refl)

scalar-Elem :
    (p : Invitation → Bool) (t : Invitations) (row : Invitation)
    → scalar p t ≡ some row
    → Elem row (values t)
unfolding scalar
scalar-Elem p t row found = (first-Elem p (values t) row found).0

module _ (hash : String → String) {Store : Type 0}
    (create_membership : (tenant_id : String)
      → (application_id : Option String) → (user_id : String) → (roles : Option (List String))
      → Store
      → Result DbError Store) where
  -- In a table where ids are unique and a pending row has not been accepted: if the token's invitation
  -- is pending and in time, and the store raises where the membership is created, then `accept` raises
  -- what the store raised, and leaves the invitations and the store as they were.
  pub accept-no_membership :
      (now : ℕ) (plaintext user : String) (t : Invitations) (store : Store) (row : Invitation)
      (e : DbError)
      → IsSound t
      → scalar (λ i. i.token_hash == hash plaintext) t ≡ some row
      → row.status ≡ "pending"
      → now ≤ row.expires_at
      → create_membership row.tenant_id row.application_id user
          (names_or_none (stored_roles row.roles))
          store
        ≡ err e
      → accept create_membership hash (λ x. x) now plaintext user t store
        ≡ (err (no_membership e), (t, store))
  unfolding accept join_tenant
  accept-no_membership now plaintext user t store row e sound found pending in_time failed =
      let with_hash = λ (i : Invitation). i.token_hash == hash plaintext in
      let there = scalar-Elem with_hash t row found in
      let (no_time, no_user) = sound.unaccepted row there pending in
      let (one, back) =
        reopened-claimed now user row t pending no_time no_user sound.unique there in
      let alive : ltb row.expires_at now ≡ false = ground arith in
      let open_ : (row.status == "pending") ≡ true = rw pending refl in
      rw (accept, found, open_, alive, one, join_tenant, failed, back) refl
