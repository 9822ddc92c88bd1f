-- ===== src/Security/OauthClients/Laws.antt =====
-- authzkit/security/oauth_clients.py: secrets that are issued and rotated, and what authenticates.
use authz.Base.{
  ℕ, String, Bool, true, not, ◌&&◌, Option, some, Option-cases, inl, inr, ◌==◌, string_eq, ◌≡◌,
  arith, insert,
}
use authz.Rbac.Requests.{is_some}
use authz.Storage.Tables.{scalar, keyed, scalar-insert, scalar-holds}
use authz.Security.ApiKeys.{has_expired}
use authz.Security.OauthClients.{
  OauthClient, OauthClients, OauthClientRecord, to_record, has_client_id, client_secret_of,
  authenticate, rotate_secret,
}

abbrev pub ids_agree : OauthClients → Bool
ids_agree clients = keyed (λ (c : OauthClient). c.id) clients

module _ (hash : String → String) where
  -- In a table whose keys are the rows' ids: after a rotation that returns a record and a new secret, a
  -- secret authenticates the client just if it has the new one's hash, the record is active and it has
  -- not expired.
  pub authenticate-rotate_secret :
      (client_id raw_secret given secret : String) (now : ℕ) (clients after : OauthClients)
      (r : OauthClientRecord)
      → ids_agree clients ≡ true
      → rotate_secret hash client_id raw_secret clients ≡ (some (r, secret), after)
      → is_some (authenticate hash now client_id given after).0
        ≡ (hash secret == hash given && r.status == "active" && not (has_expired now r.expires_at))
  unfolding rotate_secret authenticate to_record
  authenticate-rotate_secret client_id raw_secret given secret now clients after r own h =
      elim (Option-cases (scalar (has_client_id client_id) clients)) [
        | inl missing ↦ absurd (ground arith)
        | inr (row, found) ↦
            let changed = record row { secret_hash = hash (client_secret_of raw_secret) } in
            let outcome : Option (OauthClientRecord × String) × OauthClients = (
              some (to_record changed, client_secret_of raw_secret),
              insert (row.id) changed clients,
            ) in
            let is_result : outcome ≡ (some (r, secret), after) = rw (found, rotate_secret) at h in
            let is_r : r ≡ to_record changed = ground arith in
            let is_secret : secret ≡ client_secret_of raw_secret = ground arith in
            let is_after : after ≡ insert (row.id) changed clients = ground arith in
            let same_id : has_client_id client_id changed ≡ true =
              scalar-holds (has_client_id client_id) clients found in
            let now_found =
              scalar-insert (λ (c : OauthClient). c.id) (has_client_id client_id) row changed
                clients own found same_id in
            rw (is_r, is_secret, is_after, authenticate, now_found) (ground arith)
      ]
