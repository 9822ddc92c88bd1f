-- ===== src/Base/Items.antt =====
-- The items of a list, and what the loops over lists say of them.
use mathlib.Core.Path.{◌≡◌, refl}
use mathlib.Core.Logic.{◌⊎◌, inl, inr}
use mathlib.Core.Bool.{Bool, true}
use mathlib.Core.Option.{none, some}
use mathlib.Core.List.{List, [], ◌∷◌, ◌++◌, map}
use native.Mathlib.Omega.{arith}
use authz.Base.Tests.{Eq, ◌==◌, Bool-cases}
use authz.Base.Dicts.{Dict, lookup, insert, values}
use authz.Base.Sets.{keep, first, gather, contains, contains-append}

module _ {A : Type 0} where
  -- `x` is an item of the list.
  abbrev pub Elem : A → List A → Type 0
  Elem x [] = ⊥
  Elem x (y ∷ ys) = (x ≡ y) ⊎ Elem x ys

  pub Elem-keep :
      (p : A → Bool) (xs : List A) (a : A) → Elem a (keep p xs) → Elem a xs × (p a ≡ true)
  unfolding keep
  Elem-keep p (x ∷ xs) a h = elim (Bool-cases (p x)) [
    | inl e ↦ elim (rw (e, keep) at h) [
      | inl same ↦ (inl same, rw same e)
      | inr later ↦ let (found, holds) = Elem-keep p xs a later in (inr found, holds)
    ]
    | inr e ↦ let (found, holds) = Elem-keep p xs a (rw (e, keep) at h) in (inr found, holds)
  ]
  Elem-keep p [] a h = absurd h

  pub first-Elem :
      (p : A → Bool) (xs : List A) (a : A) → first p xs ≡ some a → Elem a xs × (p a ≡ true)
  unfolding first
  first-Elem p [] a h = absurd (cc)
  first-Elem p (x ∷ xs) a h = elim (Bool-cases (p x)) [
    | inl e ↦ (inl (ground arith), ground arith)
    | inr e ↦ let (found, holds) = first-Elem p xs a (ground arith) in (inr found, holds)
  ]

  pub first_found :
      (p : A → Bool) (xs : List A) (a : A)
      → Elem a xs
      → p a ≡ true
      → (b : A) × (first p xs ≡ some b)
  unfolding first
  first_found p [] a h e = absurd h
  first_found p (x ∷ xs) a h e = elim (Bool-cases (p x)) [
    | inl f ↦ (x, rw f)
    | inr f ↦ elim h [
      | inl same ↦ absurd (ground arith)
      | inr later ↦ let (b, g) = first_found p xs a later e in (b, rw f g)
    ]
  ]

module _ {A B : Type 0} ⦃e : Eq B⦄ where
  pub gather-Elem :
      (f : A → List B) (xs : List A) (b : B)
      → contains b (gather f xs) ≡ true
      → (a : A) × Elem a xs × (contains b (f a) ≡ true)
  unfolding gather contains
  gather-Elem f [] b h = absurd (cc)
  gather-Elem f (x ∷ xs) b h = elim (Bool-cases (contains b (f x))) [
    | inl here ↦ (x, inl refl, here)
    | inr not_here ↦
        let (a, found, holds) =
          gather-Elem f xs b (ground (arith, contains-append b (f x) (gather f xs))) in
        (a, inr found, holds)
  ]

  pub contains-map-Elem :
      (f : A → B) (xs : List A) (b : B)
      → contains b (map f xs) ≡ true
      → (a : A) × Elem a xs × (b ≡ f a)
  unfolding contains
  contains-map-Elem f [] b h = absurd (cc)
  contains-map-Elem f (x ∷ xs) b h = elim (Bool-cases (b == f x)) [
    | inl here ↦ (x, inl refl, (e.beq_iff b (f x)).0 here)
    | inr not_here ↦
        let (a, found, same) = contains-map-Elem f xs b (ground arith) in (a, inr found, same)
  ]

module _ {K V : Type 0} ⦃e : Eq K⦄ where
  -- A write adds the value that it writes, and no other.
  pub values-insert-Elem :
      (k : K) (v : V) (d : Dict K V) (w : V)
      → Elem w (values (insert k v d))
      → (w ≡ v) ⊎ Elem w (values d)
  unfolding values insert
  values-insert-Elem k v [] w (inl same) = inl same
  values-insert-Elem k v [] w (inr none_there) = elim none_there [ ]
  values-insert-Elem k v ((j, u) ∷ d) w m = elim (Bool-cases (j == k)) [
    | inl here ↦ elim (rw (here, insert) at m) [ inl same ↦ inl same | inr later ↦ inr (inr later) ]
    | inr other ↦ elim (rw (other, insert) at m) [
      | inl same ↦ inr (inl same)
      | inr later ↦ elim (values-insert-Elem k v d w later) [
        | inl same ↦ inl same
        | inr old ↦ inr (inr old)
      ]
    ]
  ]

  -- A write under a new key keeps the other values.
  pub values-insert_new :
      (k : K) (v : V) (d : Dict K V)
      → lookup k d ≡ none
      → values (insert k v d) ≡ values d ++ v ∷ []
  unfolding values insert lookup
  values-insert_new k v [] h = refl
  values-insert_new k v ((j, u) ∷ d) h = ground (arith, values-insert_new k v d)

module _ {A : Type 0} where
  pub Elem-append_left : (a : A) (xs ys : List A) → Elem a xs → Elem a (xs ++ ys)
  Elem-append_left a [] ys m = absurd m
  Elem-append_left a (x ∷ xs) ys (inl same) = inl same
  Elem-append_left a (x ∷ xs) ys (inr later) = inr (Elem-append_left a xs ys later)

  pub first-append_none :
      (p : A → Bool) (xs ys : List A) → first p xs ≡ none → first p (xs ++ ys) ≡ first p ys
  unfolding first
  first-append_none p [] ys h = refl
  first-append_none p (x ∷ xs) ys h = ground (arith, first-append_none p xs ys)

module _ {A : Type 0} ⦃e : Eq A⦄ where
  pub contains_of_Elem : (a : A) (xs : List A) → Elem a xs → contains a xs ≡ true
  unfolding contains
  contains_of_Elem a [] m = absurd m
  contains_of_Elem a (x ∷ xs) (inl same) = rw ((e.beq_iff a x).1 same)
  contains_of_Elem a (x ∷ xs) (inr later) = ground (arith, contains_of_Elem a xs later)
