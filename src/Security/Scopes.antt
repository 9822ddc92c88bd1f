-- ===== src/Security/Scopes.antt =====
-- authzkit/security/api_keys.py: scopes, as stored and as checked.
use Prim.Native.String.{◌++◌}
use authz.Base.{
  String, Bool, true, false, ◌&&◌, ◌||◌, Option, none, some, List, map, contains, any, keep, strip,
  split, join, sorted_set, starts_with, is_blank, not, ◌==◌, string_eq,
}

-- `parse_scopes`: the stripped parts that are not empty
unfoldable pub parse_scopes : String → List String
parse_scopes value = keep (λ s. not (is_blank s)) (map strip (split b',' value))

unfoldable pub serialize_scopes : List String → String
serialize_scopes scopes = join "," (sorted_set (keep (λ s. not (is_blank s)) scopes))

abbrev pub tenant_scope : String → String
tenant_scope tenant_id = "tenant:" ++ tenant_id

abbrev for_tenant : List String → Option String → Bool
for_tenant scopes none = false
for_tenant scopes (some tenant_id) = contains (tenant_scope tenant_id) scopes

abbrev is_unset : Option String → Bool
is_unset none = true
is_unset (some tenant_id) = false

unfoldable pub scope_allows : List String → (surface : String) → (tenant_id : Option String) → Bool
scope_allows scopes surface tenant_id =
    contains "admin" scopes
    || (surface == "runtime" && contains "runtime" scopes)
    || for_tenant scopes tenant_id
    || (surface == "runtime" && is_unset tenant_id && any (starts_with "tenant:") scopes)

unfoldable pub tenant_scope_matches : List String → (tenant_id : String) → Bool
tenant_scope_matches scopes tenant_id =
    contains "admin" scopes || contains "runtime" scopes || contains (tenant_scope tenant_id) scopes
