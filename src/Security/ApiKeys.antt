-- ===== src/Security/ApiKeys.antt =====
-- authzkit/security/api_keys.py: `ApiKeyService` over the table `api_keys`. The hash (SHA-256 of the
-- UTF-8 text, in hex) is a parameter; the random part of a key, ids and the time are arguments.
pub mod Laws
use Prim.Native.String.{◌++◌}
use authz.Base.{
  ℕ, String, Bool, true, false, not, ◌&&◌, Option, none, some, List, [], ◌∷◌, map, Result, ok, err,
  ◌>>=◌, Dict, lookup, insert, values, take, ltb, ◌==◌, string_eq, if◌then◌else◌,
}
use authz.Storage.Tables.{DbError, scalar, add}
use authz.Security.Scopes.{parse_scopes, serialize_scopes}

-- A row of `api_keys`; the scopes are one text.
pub record ApiKey : Type 0 where
  pub id : String
  pub name : String
  pub key_hash : String
  pub key_prefix : String
  pub scopes : String
  pub tenant_id : Option String
  pub status : String
  pub expires_at : Option ℕ
  pub last_used_at : Option ℕ
  pub rotates : Option String

pub record ApiKeyRecord : Type 0 where
  pub id : String
  pub name : String
  pub key_prefix : String
  pub scopes : List String
  pub tenant_id : Option String
  pub status : String
  pub expires_at : Option ℕ
  pub last_used_at : Option ℕ
  pub rotates : Option String

abbrev pub ApiKeys : Type 0
ApiKeys = Dict String ApiKey

-- `_to_record`
unfoldable pub to_record : ApiKey → ApiKeyRecord
to_record row = record {
  id = row.id;
  name = row.name;
  key_prefix = row.key_prefix;
  scopes = parse_scopes row.scopes;
  tenant_id = row.tenant_id;
  status = row.status;
  expires_at = row.expires_at;
  last_used_at = row.last_used_at;
  rotates = row.rotates;
}

-- What an issuing call may raise.
pub data IssueError : Type 0 where
  unknown_api_key : String → IssueError
  not_stored : DbError → IssueError

-- `row.expires_at is not None and row.expires_at < now`
abbrev pub has_expired : (now : ℕ) → Option ℕ → Bool
has_expired now none = false
has_expired now (some t) = ltb t now

-- `generate_api_key`, from its random part: the plaintext, and its first characters
abbrev pub plaintext_of : String → String
plaintext_of raw = "azk_" ++ raw

-- `name or f"{old.name} (rotated)"`
abbrev rotated_name : Option String → ApiKey → String
rotated_name none old = old.name ++ " (rotated)"
rotated_name (some name) old = if name == "" then old.name ++ " (rotated)" else name

module _ (hash : String → String) where
  abbrev pub new_row :
      (id raw name : String)
      → List String
      → (tenant_id : Option String) → (expires_at : Option ℕ) → (rotates : Option String) → ApiKey
  new_row id raw name scopes tenant_id expires_at rotates = record {
    id = id;
    name = name;
    key_hash = hash (plaintext_of raw);
    key_prefix = take 10 (plaintext_of raw);
    scopes = serialize_scopes scopes;
    tenant_id = tenant_id;
    status = "active";
    expires_at = expires_at;
    last_used_at = none;
    rotates = rotates;
  }

  -- `issue`: the record, the plaintext, and the table; the hash is unique.
  unfoldable pub issue :
      (id raw name : String)
      → List String
      → (tenant_id : Option String) → (expires_at : Option ℕ) → (rotates : Option String) → ApiKeys
      → Result IssueError ((ApiKeyRecord × String) × ApiKeys)
  issue id raw name scopes tenant_id expires_at rotates keys =
      let row = new_row id raw name scopes tenant_id expires_at rotates in
      elim (add (λ k. k.key_hash == row.key_hash) id row keys) [
        | err e ↦ err (not_stored e)
        | ok after ↦ ok ((to_record row, plaintext_of raw), after)
      ]

  abbrev used : (now : ℕ) → ApiKey → ApiKey
  used now row = record row { last_used_at = some now }

  -- `find_active`: the key's record, and the table with the time of use
  unfoldable pub find_active : (now : ℕ) → String → ApiKeys → Option ApiKeyRecord × ApiKeys
  find_active now plaintext keys = elim (scalar (λ k. k.key_hash == hash plaintext) keys) [
    | none ↦ (none, keys)
    | some row ↦
        if row.status == "active" && not (has_expired now row.expires_at)
        then (some (to_record (used now row)), insert (row.id) (used now row) keys)
        else (none, keys)
  ]

  -- `rotate`: both keys stay active.
  unfoldable pub rotate :
      (id raw old_key_id : String)
      → (name : Option String) → ApiKeys
      → Result IssueError ((ApiKeyRecord × String) × ApiKeys)
  rotate id raw old_key_id name keys = elim (lookup old_key_id keys) [
    | none ↦ err (unknown_api_key old_key_id)
    | some old ↦
        issue id raw (rotated_name name old) (parse_scopes old.scopes) old.tenant_id none
          (some old_key_id) keys
  ]

unfoldable pub list_keys : ApiKeys → List ApiKeyRecord
list_keys keys = map to_record (values keys)

unfoldable pub revoke : String → ApiKeys → Bool × ApiKeys
revoke key_id keys = elim (lookup key_id keys) [
  | none ↦ (false, keys)
  | some row ↦ (true, insert key_id (record row { status = "revoked" }) keys)
]
