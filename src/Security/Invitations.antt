-- ===== src/Security/Invitations.antt =====
-- authzkit/security/invitations.py: `InvitationService` over the table `invitations`. SHA-256 and
-- `str.lower` are parameters; the plaintext, ids and the time are arguments, and so is the store's
-- `create_membership`.
pub mod Laws
use authz.Base.{
  ℕ, ◌+◌, String, Bool, true, false, not, ◌&&◌, Option, none, some, List, [], ◌∷◌, map, keep,
  Result, ok, err, Dict, lookup, insert, values, strip, split, join, sorted_set, is_blank, ltb,
  ◌==◌, nat_eq, string_eq, if◌then◌else◌,
}
use authz.Storage.Tables.{DbError, scalar, add, update_where}

-- A row of `invitations`; the roles are one text.
pub record Invitation : Type 0 where
  pub id : String
  pub tenant_id : String
  pub application_id : Option String
  pub email : String
  pub token_hash : String
  pub roles : String
  pub status : String
  pub invited_by_user_id : Option String
  pub expires_at : ℕ
  pub accepted_at : Option ℕ
  pub accepted_by_user_id : Option String
  pub created_at : ℕ

pub record InvitationRecord : Type 0 where
  pub id : String
  pub tenant_id : String
  pub application_id : Option String
  pub email : String
  pub roles : List String
  pub status : String
  pub expires_at : ℕ
  pub invited_by_user_id : Option String
  pub accepted_at : Option ℕ
  pub accepted_by_user_id : Option String

abbrev pub Invitations : Type 0
Invitations = Dict String Invitation

-- `(row.roles or "").split(",")` without the empty parts
unfoldable pub stored_roles : String → List String
stored_roles text = keep (λ r. not (is_blank r)) (split b',' text)

-- `_to_record`
unfoldable pub to_record : Invitation → InvitationRecord
to_record row = record {
  id = row.id;
  tenant_id = row.tenant_id;
  application_id = row.application_id;
  email = row.email;
  roles = stored_roles row.roles;
  status = row.status;
  expires_at = row.expires_at;
  invited_by_user_id = row.invited_by_user_id;
  accepted_at = row.accepted_at;
  accepted_by_user_id = row.accepted_by_user_id;
}

-- What a call may raise: an `InvitationError` with its reason, or what the store raises.
pub data InvitationError : Type 0 where
  invitation_error : (reason : String) → InvitationError
  not_stored : DbError → InvitationError
  no_membership : DbError → InvitationError

-- The statements of `accept`: the claim of a pending row, and its reversal.
abbrev pub is_pending : String → Invitation → Bool
is_pending invitation_id row = row.id == invitation_id && row.status == "pending"

abbrev pub claimed : (now : ℕ) → (accepting_user_id : String) → Invitation → Invitation
claimed now accepting_user_id row = record row {
  status = "accepted";
  accepted_at = some now;
  accepted_by_user_id = some accepting_user_id;
}

abbrev pub has_id : String → Invitation → Bool
has_id invitation_id row = row.id == invitation_id

abbrev pub reopened : Invitation → Invitation
reopened row = record row { status = "pending"; accepted_at = none; accepted_by_user_id = none }

-- `set(roles) or None`
abbrev pub names_or_none : List String → Option (List String)
names_or_none [] = none
names_or_none (r ∷ rs) = some (r ∷ rs)

-- `order_by(created_at.desc())`
unfoldable pub put_newest : Invitation → List Invitation → List Invitation
put_newest row [] = row ∷ []
put_newest row (other ∷ rows) =
    let rest = put_newest row rows in
    if ltb row.created_at other.created_at then other ∷ rest else row ∷ other ∷ rows

unfoldable pub newest_first : List Invitation → List Invitation
newest_first [] = []
newest_first (row ∷ rows) = put_newest row (newest_first rows)

unfoldable pub list_for_tenant : String → Invitations → List InvitationRecord
list_for_tenant tenant_id invitations =
    map to_record
      (newest_first (keep (λ (row : Invitation). row.tenant_id == tenant_id) (values invitations)))

unfoldable pub revoke : String → Invitations → Bool × Invitations
revoke invitation_id invitations = elim (lookup invitation_id invitations) [
  | none ↦ (false, invitations)
  | some row ↦ (true, insert invitation_id (record row { status = "revoked" }) invitations)
]

module _ (hash lower : String → String) where
  unfoldable pub new_invitation :
      (id plaintext tenant_id : String)
      → (application_id : Option String) → (email : String) → (roles : List String)
      → (invited_by_user_id : Option String) → (ttl now : ℕ) → Invitation
  new_invitation id plaintext tenant_id application_id email roles invited_by_user_id ttl now =
      record {
        id = id;
        tenant_id = tenant_id;
        application_id = application_id;
        email = strip (lower email);
        token_hash = hash plaintext;
        roles = join "," (sorted_set (keep (λ r. not (is_blank r)) (map strip roles)));
        status = "pending";
        invited_by_user_id = invited_by_user_id;
        expires_at = now + ttl;
        accepted_at = none;
        accepted_by_user_id = none;
        created_at = now;
      }

  -- `create`: the record, the plaintext, and the table; the hash is unique.
  unfoldable pub create :
      (id plaintext tenant_id : String)
      → (application_id : Option String) → (email : String) → (roles : List String)
      → (invited_by_user_id : Option String) → (ttl now : ℕ) → Invitations
      → Result InvitationError ((InvitationRecord × String) × Invitations)
  create id plaintext tenant_id application_id email roles invited_by_user_id ttl now invitations =
      let row =
        new_invitation id plaintext tenant_id application_id email roles invited_by_user_id ttl
          now in
      elim (add (λ i. i.token_hash == row.token_hash) id row invitations) [
        | err e ↦ err (not_stored e)
        | ok after ↦ ok ((to_record row, plaintext), after)
      ]

module _ {Store : Type 0}
    (create_membership : (tenant_id : String)
      → (application_id : Option String) → (user_id : String) → (roles : Option (List String))
      → Store
      → Result DbError Store) where
  -- The call of `create_membership`, and what it leaves when it raises.
  unfoldable pub join_tenant :
      (now : ℕ)
      → (accepting_user_id : String) → Invitation
      → Invitations
      → Store
      → Result InvitationError InvitationRecord × (Invitations × Store)
  join_tenant now accepting_user_id row taken store =
      let roles = stored_roles row.roles in
      elim (create_membership row.tenant_id row.application_id accepting_user_id
        (names_or_none roles) store) [
          | err e ↦
              (err (no_membership e), ((update_where (has_id row.id) reopened taken).1, store))
          | ok joined ↦ (ok (to_record (claimed now accepting_user_id row)), (taken, joined))
        ]

  module _ (hash : String → String) where
    -- `accept`. Other callers' statements may stand between the test of the time and the claim:
    -- `meanwhile` is what they make of the table.
    unfoldable pub accept :
        (meanwhile : Invitations → Invitations)
        → (now : ℕ) → (plaintext accepting_user_id : String) → Invitations
        → Store
        → Result InvitationError InvitationRecord × (Invitations × Store)
    accept meanwhile now plaintext accepting_user_id invitations store =
        elim (scalar (λ i. i.token_hash == hash plaintext) invitations) [
          | none ↦ (err (invitation_error "invalid_token"), (invitations, store))
          | some row ↦
              if row.status == "pending"
              then (if ltb row.expires_at now
                  then (
                    err (invitation_error "invitation_expired"),
                    (insert row.id (record row { status = "expired" }) invitations, store),
                  )
                  else (let (n, taken) =
                        update_where (is_pending row.id) (claimed now accepting_user_id)
                          (meanwhile invitations) in
                      if n == 1 then join_tenant now accepting_user_id row taken store else (
                        err (invitation_error "invitation_not_pending"),
                        (meanwhile invitations, store),
                      )))
              else (err (invitation_error "invitation_not_pending"), (invitations, store))
        ]
