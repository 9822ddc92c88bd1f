-- ===== src/Security/OauthClients.antt =====
-- authzkit/security/oauth_clients.py: `OAuthClientService` over the table `oauth_clients`.
pub mod Laws
use authz.Base.{
  ℕ, String, Bool, true, false, not, ◌&&◌, Option, none, some, List, map, Result, ok, err, Dict,
  lookup, insert, values, ◌==◌, string_eq, if◌then◌else◌,
}
use Prim.Native.String.{◌++◌}
use authz.Storage.Tables.{DbError, scalar, add}
use authz.Security.Scopes.{parse_scopes, serialize_scopes}
use authz.Security.ApiKeys.{has_expired}

-- A row of `oauth_clients`.
pub record OauthClient : Type 0 where
  pub id : String
  pub client_id : String
  pub secret_hash : String
  pub name : String
  pub scopes : String
  pub tenant_id : Option String
  pub status : String
  pub expires_at : Option ℕ
  pub last_used_at : Option ℕ
  pub created_at : Option ℕ

pub record OauthClientRecord : Type 0 where
  pub id : String
  pub client_id : String
  pub name : String
  pub scopes : List String
  pub tenant_id : Option String
  pub status : String
  pub expires_at : Option ℕ
  pub last_used_at : Option ℕ
  pub created_at : Option ℕ

abbrev pub OauthClients : Type 0
OauthClients = Dict String OauthClient

-- `_to_record`
unfoldable pub to_record : OauthClient → OauthClientRecord
to_record row = record {
  id = row.id;
  client_id = row.client_id;
  name = row.name;
  scopes = parse_scopes row.scopes;
  tenant_id = row.tenant_id;
  status = row.status;
  expires_at = row.expires_at;
  last_used_at = row.last_used_at;
  created_at = row.created_at;
}

abbrev pub has_client_id : String → OauthClient → Bool
has_client_id client_id row = row.client_id == client_id

-- `_generate_client_id` and `_generate_client_secret`, from their random parts
abbrev pub client_id_of : String → String
client_id_of raw = "oc_" ++ raw

abbrev pub client_secret_of : String → String
client_secret_of raw = "ocs_" ++ raw

-- `client_id or _generate_client_id()`
abbrev pub chosen_id : Option String → (raw : String) → String
chosen_id none raw = client_id_of raw
chosen_id (some client_id) raw = if client_id == "" then client_id_of raw else client_id

unfoldable pub get : String → OauthClients → Option OauthClientRecord
get client_id clients = elim (scalar (has_client_id client_id) clients) [
  | none ↦ none
  | some row ↦ some (to_record row)
]

unfoldable pub list_clients : OauthClients → List OauthClientRecord
list_clients clients = map to_record (values clients)

unfoldable pub revoke : String → OauthClients → Bool × OauthClients
revoke client_id clients = elim (scalar (has_client_id client_id) clients) [
  | none ↦ (false, clients)
  | some row ↦ (true, insert (row.id) (record row { status = "revoked" }) clients)
]

module _ (hash : String → String) where
  abbrev pub new_client :
      (id raw_id raw_secret name : String)
      → List String
      → (tenant_id : Option String) → (expires_at : Option ℕ) → (client_id : Option String)
      → (now : ℕ) → OauthClient
  new_client id raw_id raw_secret name scopes tenant_id expires_at client_id now = record {
    id = id;
    client_id = chosen_id client_id raw_id;
    secret_hash = hash (client_secret_of raw_secret);
    name = name;
    scopes = serialize_scopes scopes;
    tenant_id = tenant_id;
    status = "active";
    expires_at = expires_at;
    last_used_at = none;
    created_at = some now;
  }

  -- `issue`: the record, the secret, and the table; the client's id is unique.
  unfoldable pub issue :
      (id raw_id raw_secret name : String)
      → List String
      → (tenant_id : Option String) → (expires_at : Option ℕ) → (client_id : Option String)
      → (now : ℕ) → OauthClients
      → Result DbError ((OauthClientRecord × String) × OauthClients)
  issue id raw_id raw_secret name scopes tenant_id expires_at client_id now clients =
      let row = new_client id raw_id raw_secret name scopes tenant_id expires_at client_id now in
      elim (add (has_client_id row.client_id) id row clients) [
        | err e ↦ err e
        | ok after ↦ ok ((to_record row, client_secret_of raw_secret), after)
      ]

  -- `authenticate`: the client's record, and the table with the time of use
  unfoldable pub authenticate :
      (now : ℕ)
      → (client_id client_secret : String) → OauthClients
      → Option OauthClientRecord × OauthClients
  authenticate now client_id client_secret clients =
      elim (scalar (has_client_id client_id) clients) [
        | none ↦ (none, clients)
        | some row ↦
            let seen = record row { last_used_at = some now } in
            if row.secret_hash == hash client_secret
              && row.status == "active"
              && not (has_expired now row.expires_at)
            then (some (to_record seen), insert (row.id) seen clients)
            else (none, clients)
      ]

  -- `rotate_secret`: the old hash is discarded.
  unfoldable pub rotate_secret :
      (client_id raw_secret : String)
      → OauthClients
      → Option (OauthClientRecord × String) × OauthClients
  rotate_secret client_id raw_secret clients = elim (scalar (has_client_id client_id) clients) [
    | none ↦ (none, clients)
    | some row ↦
        let changed = record row { secret_hash = hash (client_secret_of raw_secret) } in
        (some (to_record changed, client_secret_of raw_secret), insert (row.id) changed clients)
  ]
