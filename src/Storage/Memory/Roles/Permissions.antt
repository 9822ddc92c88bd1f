-- ===== src/Storage/Memory/Roles/Permissions.antt =====
-- authzkit/storage/memory.py: creating permissions.
use authz.Base.{
  String, Option, none, some, ok, lookup, insert, lookup-insert, ◌==◌, string_eq, ◌≡◌, ap, arith,
  if◌then◌else◌, Option-cases, inl, inr,
}
use authz.Rbac.Models.{Permission, from_name, rpartition, named}
use authz.Storage.Memory.{InMemoryStore}
use authz.Storage.Memory.Roles.{create_permission}

-- What `create_permission` returns stands in the new store under its name, in place of whatever stood
-- there, of whichever application; it is of the given application, and has no description. Other
-- permissions stay.
pub create_permission-lookup :
    (name other : String) (application description : Option String) (s s' : InMemoryStore)
    (p : Permission)
    → create_permission name application description s ≡ ok (p, s')
    → (lookup other s'.permissions ≡ (if name == other then some p else lookup other s.permissions))
      × (p.name ≡ name)
      × (p.application_id ≡ application)
      × (p.description ≡ none)
unfolding create_permission from_name
create_permission-lookup name other application description s s' p h =
    elim (Option-cases (rpartition name)) [
      | inl no_dot ↦ absurd (ground arith)
      | inr ((resource, action), e) ↦
          let row = named name none application resource action in
          let is_row : p ≡ row = ground arith in
          let written : s'.permissions ≡ insert name row s.permissions = ground arith in
          (
            rw (written, is_row) (lookup-insert name other row s.permissions),
            ap (λ (x : Permission). x.name) is_row,
            ap (λ (x : Permission). x.application_id) is_row,
            ap (λ (x : Permission). x.description) is_row,
          )
    ]
