-- ===== src/Rbac/Checker/Sets.antt =====
-- Membership in the sets that a decision computes.
use authz.Base.{
  String, Bool, true, not, ◌&&◌, ◌||◌, ◌≡◌, Option, none, some, List, [], ◌∷◌, contains,
  contains-inter, is_nonempty, string_eq, arith,
}
use authz.Rbac.Checker.{masked, narrowed}

-- A mask that is empty hides nothing.
abbrev pub passes : String → List String → Bool
passes name mask = not (is_nonempty mask) || contains name mask

abbrev pub granted : String → Option (List String) → Bool
granted name none = true
granted name (some grant) = contains name grant

pub contains-masked :
    (name : String) (permissions mask : List String)
    → contains name (masked permissions mask) ≡ (contains name permissions && passes name mask)
unfolding masked
contains-masked name permissions [] = ground arith
contains-masked name permissions (m ∷ mask) = contains-inter name permissions (m ∷ mask)

pub contains-narrowed :
    (name : String) (permissions : List String) (grant : Option (List String))
    → contains name (narrowed permissions grant) ≡ (contains name permissions && granted name grant)
unfolding narrowed
contains-narrowed name permissions none = ground arith
contains-narrowed name permissions (some grant) = contains-inter name permissions grant
