-- ===== src/Security/ApiKeys/Laws.antt =====
-- authzkit/security/api_keys.py: keys that are issued, and what authenticates.
use authz.Base.{
  ℕ, String, false, Option, some, List, ok, Option-cases, Result-cases, inl, inr, ◌==◌, string_eq,
  ==-refl, eq_iff, ◌≡◌, arith, first_holds, values,
}
use authz.Storage.Tables.{scalar, add, scalar-add}
use authz.Security.ApiKeys.{
  ApiKey, ApiKeyRecord, ApiKeys, to_record, has_expired, plaintext_of, new_row, issue, find_active,
}

module _ (hash : String → String) where
  issue-ok :
      (id raw name : String) (scopes : List String) (tenant_id : Option String)
      (expires_at : Option ℕ) (rotates : Option String) (keys : ApiKeys) {r : ApiKeyRecord}
      {plaintext : String} {after : ApiKeys}
      → issue hash id raw name scopes tenant_id expires_at rotates keys ≡ ok ((r, plaintext), after)
      → (add
            (λ (k : ApiKey). k.key_hash == hash (plaintext_of raw))
            id
            (new_row hash id raw name scopes tenant_id expires_at rotates)
            keys
          ≡ ok after)
        × (r ≡ to_record (new_row hash id raw name scopes tenant_id expires_at rotates))
        × (plaintext ≡ plaintext_of raw)
  unfolding issue
  issue-ok id raw name scopes tenant_id expires_at rotates keys h =
      elim (Result-cases (
        add (λ (k : ApiKey). k.key_hash == hash (plaintext_of raw)) id
          (new_row hash id raw name scopes tenant_id expires_at rotates) keys)) [
            | inr (e, failed) ↦ ground arith
            | inl (t, stored) ↦ (ground arith, ground arith, ground arith)
          ]

  -- The plaintext that `issue` returns authenticates at once and until it expires, as the record that
  -- `issue` returns, but for the time of use; whatever keys the table has.
  find_active-issue :
      (id raw name : String) (scopes : List String) (tenant_id : Option String)
      (expires_at : Option ℕ) (rotates : Option String) (keys after : ApiKeys) (r : ApiKeyRecord)
      (plaintext : String) (now : ℕ)
      → issue hash id raw name scopes tenant_id expires_at rotates keys ≡ ok ((r, plaintext), after)
      → has_expired now expires_at ≡ false
      → (find_active hash now plaintext after).0 ≡ some (record r { last_used_at = some now })
  unfolding find_active to_record
  find_active-issue id raw name scopes tenant_id expires_at rotates keys after r plaintext now h
        alive =
      let (stored, is_r, is_plaintext) =
        issue-ok id raw name scopes tenant_id expires_at rotates keys h in
      let row = new_row hash id raw name scopes tenant_id expires_at rotates in
      let found =
        scalar-add (λ (k : ApiKey). k.key_hash == hash (plaintext_of raw)) id row keys after stored
          (==-refl (hash (plaintext_of raw))) in
      rw (is_plaintext, is_r, found, find_active) (ground arith)

  -- What authenticates is a stored key with the plaintext's hash that is active and has not expired.
  find_active_sound :
      (now : ℕ) (plaintext : String) (keys : ApiKeys) (r : ApiKeyRecord)
      → (find_active hash now plaintext keys).0 ≡ some r
      → (row : ApiKey) × (scalar (λ k. k.key_hash == hash plaintext) keys ≡ some row)
        × (row.key_hash ≡ hash plaintext)
        × (row.status ≡ "active")
        × (has_expired now row.expires_at ≡ false)
        × (r ≡ to_record (record row { last_used_at = some now }))
  unfolding find_active scalar
  find_active_sound now plaintext keys r h =
      elim (Option-cases (scalar (λ (k : ApiKey). k.key_hash == hash plaintext) keys)) [
        | inl missing ↦ ground arith
        | inr (row, found) ↦ (
          row,
          found,
          ground (
            arith,
            eq_iff row.key_hash (hash plaintext),
            first_holds (λ (k : ApiKey). k.key_hash == hash plaintext) (values keys) {a = row},
          ),
          ground (arith, eq_iff row.status "active"),
          ground arith,
          ground arith,
        )
      ]
