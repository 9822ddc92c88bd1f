-- ===== src/Rbac/Models/Names.antt =====
-- Permission names: building one and taking it apart.
use Prim.Native.Char.{Char, code}
use Prim.Native.String.{◌++◌}
use text.Mathlib.TextEquality.{Char-path}
use text.Mathlib.TextLemmas.{nil-append, cons-append}
use authz.Base.{
  String, Bool, false, ◌||◌, ◌≡◌, refl, ap, sym, ◌∙◌, Option, none, some, ok, err, ◌==◌, nat_eq,
  arith, Bool-cases, Option-cases, ◌⊎◌, inl, inr,
}
use authz.Rbac.Models.{
  Permission, permission_name, rpartition, at_dot, before, no_dot, named, from_name,
}

unfoldable pub has_dot : String → Bool
has_dot String.[] = false
has_dot (String.◌∷◌ c s) = code c == b'.' || has_dot s

rpartition-none : (s : String) → has_dot s ≡ false → rpartition s ≡ none
unfolding has_dot rpartition
rpartition-none String.[] h = refl
rpartition-none (String.◌∷◌ c s) h = ground (arith, rpartition-none s)

dot-rpartition :
    (action : String) → has_dot action ≡ false → rpartition ("." ++ action) ≡ some ("", action)
unfolding rpartition
dot-rpartition action h = rw cons-append (rw nil-append (rw (rpartition-none action h)))

pub rpartition-permission_name :
    (resource action : String)
    → has_dot action ≡ false
    → rpartition (permission_name resource action) ≡ some (resource, action)
unfolding permission_name rpartition
rpartition-permission_name String.[] action h = rw nil-append (dot-rpartition action h)
rpartition-permission_name (String.◌∷◌ c s) action h =
    rw cons-append (rw (rpartition-permission_name s action h))

-- What `rpartition` returns joins to the text, with no dot in the last part.
abbrev Joins : String → Option (String × String) → Type 0
Joins s none = has_dot s ≡ false
Joins s (some (resource, action)) = (permission_name resource action ≡ s) × (has_dot action ≡ false)

at_dot-Joins :
    (c : Char) (s : String) (later : Option (String × String))
    → Joins s later
    → Joins (String.◌∷◌ c s) (at_dot (code c == b'.') s (before c later))
unfolding permission_name has_dot
at_dot-Joins c s none h = elim (Bool-cases (code c == b'.')) [
  | inl dot ↦ rw dot (
    nil-append ("." ++ s)
        ∙ cons-append "." "" s
        ∙ (rw nil-append (
            ap (λ d. String.◌∷◌ d s) (sym (Char-path c "." ((nat_eq.beq_iff (code c) 46).0 dot))))),
    h,
  )
  | inr other ↦ rw other (rw other h)
]
at_dot-Joins c s (some (resource, action)) (e, d) =
    (cons-append c resource ("." ++ action) ∙ ap (String.◌∷◌ c) e, d)

rpartition-Joins : (s : String) → Joins s (rpartition s)
unfolding rpartition has_dot
rpartition-Joins String.[] = refl
rpartition-Joins (String.◌∷◌ c s) = at_dot-Joins c s (rpartition s) (rpartition-Joins s)

-- Building a name and parsing it again gives the parts back: for a resource, with dots or without,
-- and an action that has none, `Permission.from_name` on their name succeeds with the resource, the
-- action, the whole name, and the name for an id where none is given.
pub from_name-permission_name :
    (resource action : String) (application_id : Option String)
    → has_dot action ≡ false
    → from_name (permission_name resource action) none application_id
      ≡ ok (record {
        id = permission_name resource action;
        name = permission_name resource action;
        resource = resource;
        action = action;
        application_id = application_id;
        description = none;
        deprecated = false;
        critical = false;
      })
unfolding from_name
from_name-permission_name resource action application_id h =
    rw (rpartition-permission_name resource action h)

-- A name that parses is the name of its parts: whatever `Permission.from_name` returns, its name is
-- the one given, joining its resource and action gives that name, and its action has no dot. A name
-- without a dot is refused.
from_name-joins :
    (name : String) (id application_id : Option String)
    → ((p : Permission) × (from_name name id application_id ≡ ok p)
        × (p.name ≡ name)
        × (permission_name p.resource p.action ≡ name)
        × (has_dot p.action ≡ false))
      ⊎ ((has_dot name ≡ false) × (from_name name id application_id ≡ err (no_dot name)))
unfolding from_name
from_name-joins name id application_id = elim (Option-cases (rpartition name)) [
  | inl e ↦ inr (rw e at (rpartition-Joins name), rw (e, from_name))
  | inr ((resource, action), e) ↦
      let (joined, plain) = rw e at (rpartition-Joins name) in
      inl (named name id application_id resource action, rw (e, from_name), refl, joined, plain)
]
