-- ===== src/Tests/Accounts.antt =====
-- OAuth clients, invitations and sessions on examples. The hash is the text itself.
use authz.Base.{
  ℕ, suc, String, true, not, ◌&&◌, none, some, Option, List, [], ◌∷◌, ok, err, Result, ◌≡◌, inl,
  inr, refl, insert, values, first, string_eq, nat_eq, option_eq, ◌==◌, arith,
}
use authz.Rbac.Requests.{is_some}
use authz.Storage.Tables.{DbError, integrity_error, scalar, update_where, keyed}
use authz.Security.ApiKeys.{has_expired}
use authz.Security.OauthClients.{OauthClient, OauthClients, to_record, authenticate, rotate_secret}
use authz.Security.OauthClients.Laws.{ids_agree, authenticate-rotate_secret}
use authz.Security.Invitations.{
  Invitation, Invitations, invitation_error, no_membership, accept, join_tenant, claimed,
  to_record as invitation_record,
}
use authz.Security.Invitations.Laws.{IsSound, accept-accept, accept-no_membership}
use authz.Security.Sessions.{LoginAttempt, AdminSessionService, consume_login_attempt}
use authz.Security.Sessions.Laws.{consume-consume}

abbrev same : String → String
same text = text

-- ---- OAuth clients

abbrev app : OauthClient
app = record {
  id = "1";
  client_id = "oc_app";
  secret_hash = "ocs_old";
  name = "App";
  scopes = "runtime";
  tenant_id = none;
  status = "active";
  expires_at = none;
  last_used_at = none;
  created_at = some 0;
}

abbrev apps : OauthClients
apps = ("1", app) ∷ []

abbrev renewed : OauthClient
renewed = record app { secret_hash = "ocs_new" }

apps-agree : ids_agree apps ≡ true
unfolding keyed
apps-agree = refl

rotates :
    rotate_secret same "oc_app" "new" apps
    ≡ (some (to_record renewed, "ocs_new"), ("1", renewed) ∷ [])
unfolding rotate_secret scalar first values insert
rotates = refl

authenticate-rotate_secret_example :
    is_some (authenticate same 5 "oc_app" "ocs_old" (("1", renewed) ∷ [])).0 ≡ (
      ◌==◌ {A = String} "ocs_new" "ocs_old"
      && (to_record renewed).status == "active"
      && not (has_expired 5 (to_record renewed).expires_at))
authenticate-rotate_secret_example =
    authenticate-rotate_secret same "oc_app" "new" "ocs_old" "ocs_new" 5 apps (("1", renewed) ∷ [])
      (to_record renewed) apps-agree rotates

-- ---- Invitations

abbrev invited : Invitation
invited = record {
  id = "i1";
  tenant_id = "acme";
  application_id = some "crm";
  email = "ann@example.org";
  token_hash = "secret";
  roles = "editor";
  status = "pending";
  invited_by_user_id = none;
  expires_at = 100;
  accepted_at = none;
  accepted_by_user_id = none;
  created_at = 0;
}

abbrev invitations : Invitations
invitations = ("i1", invited) ∷ []

-- A store that counts its memberships, and one that refuses them.
abbrev joins : String → Option String → String → Option (List String) → ℕ → Result DbError ℕ
joins tenant_id application_id user_id roles n = ok (suc n)

abbrev refuses : String → Option String → String → Option (List String) → ℕ → Result DbError ℕ
refuses tenant_id application_id user_id roles n = err integrity_error

ann_joins :
    accept joins same (λ x. x) 5 "secret" "ann" invitations 0
    ≡ (ok (invitation_record (claimed 5 "ann" invited)), (("i1", claimed 5 "ann" invited) ∷ [], 1))
unfolding accept join_tenant scalar first values update_where
ann_joins = refl

-- Bob read the table before Ann's claim.
accept-accept_example :
    let outcome =
      accept joins same
        (λ x. ("i1", claimed 5 "ann" invited) ∷ [])
        6
        "secret"
        "bob"
        invitations
        1 in
    ((reason : String) × (outcome.0 ≡ err (invitation_error reason))) × (outcome.1.1 ≡ 1)
accept-accept_example =
    accept-accept same joins 5 6 "secret" "ann" "bob" invitations
      (("i1", claimed 5 "ann" invited) ∷ []) 0 1 1 (invitation_record (claimed 5 "ann" invited))
      ann_joins invitations (inl refl)

invitations-IsSound : IsSound invitations
unfolding values
invitations-IsSound = record {
  unique = (tt, tt);
  unaccepted = λ v there pending. elim there [
    | inl is_v ↦ (ground arith, ground arith)
    | inr gone ↦ absurd gone
  ];
}

ann_invited : scalar (λ (i : Invitation). i.token_hash == same "secret") invitations ≡ some invited
unfolding scalar first values
ann_invited = refl

accept-no_membership_example :
    accept refuses same (λ x. x) 5 "secret" "ann" invitations 0
    ≡ (err (no_membership integrity_error), (invitations, 0))
accept-no_membership_example =
    accept-no_membership same refuses 5 "secret" "ann" invitations 0 invited integrity_error
      invitations-IsSound ann_invited refl (omega arith) refl

-- ---- Login attempts

abbrev attempt : LoginAttempt
attempt = record {
  id = "c1";
  state = "s";
  code_verifier = "v";
  nonce = "n";
  return_to = "/";
  expires_at = 100;
}

abbrev sessions : AdminSessionService
sessions = record {
  session_ttl = 60;
  attempt_ttl = 60;
  attempts = ("c1", attempt) ∷ [];
  sessions = [];
}

-- The first callback has the wrong state.
consume-consume_example :
    let after = (consume_login_attempt 5 "c1" "wrong" sessions).1 in
    consume_login_attempt 6 "c1" "s" after ≡ (none, after)
consume-consume_example = consume-consume 5 6 "c1" "wrong" "s" sessions
