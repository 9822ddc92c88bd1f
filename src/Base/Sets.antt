-- ===== src/Base/Sets.antt =====
-- Python's sets, as lists read through `contains`; order and repetition mean nothing.
use mathlib.Core.Path.{◌≡◌, refl}
use mathlib.Core.Logic.{inl, inr}
use mathlib.Core.Bool.{Bool, true, false, not, ◌&&◌, ◌||◌}
use mathlib.Core.Option.{Option, none, some}
use mathlib.Core.List.{List, [], ◌∷◌, ◌++◌}
use native.Mathlib.Omega.{arith}
use authz.Base.Tests.{Eq, ◌==◌, if◌then◌else◌, Bool-cases}

module _ {ℓ} {A : Type ℓ} where
  -- `[x for x in xs if p(x)]`
  unfoldable pub keep : (A → Bool) → List A → List A
  keep p [] = []
  keep p (x ∷ xs) = let rest = keep p xs in if p x then x ∷ rest else rest

  unfoldable pub all : (A → Bool) → List A → Bool
  all p [] = true
  all p (x ∷ xs) = p x && all p xs

  unfoldable pub any : (A → Bool) → List A → Bool
  any p [] = false
  any p (x ∷ xs) = p x || any p xs

  -- `next((x for x in xs if p(x)), None)`
  unfoldable pub first : (A → Bool) → List A → Option A
  first p [] = none
  first p (x ∷ xs) = let rest = first p xs in if p x then some x else rest

  -- The truth value of a container.
  abbrev pub is_nonempty : List A → Bool
  is_nonempty [] = false
  is_nonempty (x ∷ xs) = true

  pub first_holds : (p : A → Bool) (xs : List A) {a : A} → first p xs ≡ some a → p a ≡ true
  unfolding first
  first_holds p [] h = cc
  first_holds p (x ∷ xs) {a} h = ground (arith, first_holds p xs {a = a})

module _ {ℓ} {A : Type ℓ} ⦃e : Eq A⦄ where
  -- `x in s`
  unfoldable pub contains : A → List A → Bool
  contains a [] = false
  contains a (x ∷ xs) = a == x || contains a xs

  -- `s & t`
  unfoldable pub inter : List A → List A → List A
  unfolding keep
  inter s t = keep (λ a. contains a t) s

  -- `s - t`
  unfoldable pub minus : List A → List A → List A
  unfolding keep
  minus s t = keep (λ a. not (contains a t)) s

  -- `s <= t` and `s == t` on sets
  unfoldable pub subset : List A → List A → Bool
  unfolding all
  subset s t = all (λ a. contains a t) s

  unfoldable pub same_set : List A → List A → Bool
  unfolding subset
  same_set s t = subset s t && subset t s

  pub contains-keep :
      (a : A) (p : A → Bool) (s : List A) → contains a (keep p s) ≡ (contains a s && p a)
  unfolding contains keep
  contains-keep a p [] = refl
  contains-keep a p (x ∷ xs) = elim (Bool-cases (a == x)) [
    | inl same ↦ rw ((e.beq_iff a x).0 same) (ground (arith, contains-keep x p xs, e.beq_iff x x))
    | inr other ↦ ground (arith, contains-keep a p xs)
  ]

  pub contains-inter :
      (a : A) (s t : List A) → contains a (inter s t) ≡ (contains a s && contains a t)
  unfolding inter
  contains-inter a s t = contains-keep a (λ b. contains b t) s

  pub contains-minus :
      (a : A) (s t : List A) → contains a (minus s t) ≡ (contains a s && not (contains a t))
  unfolding minus
  contains-minus a s t = contains-keep a (λ b. not (contains b t)) s

  pub contains-append :
      (a : A) (s t : List A) → contains a (s ++ t) ≡ (contains a s || contains a t)
  unfolding contains
  contains-append a [] t = refl
  contains-append a (x ∷ s) t = ground (arith, contains-append a s t)

  pub subset-mem :
      (s t : List A) (a : A) → subset s t ≡ true → contains a s ≡ true → contains a t ≡ true
  unfolding subset contains all
  subset-mem [] t a h m = cc
  subset-mem (x ∷ s) t a h m = ground (arith, e.beq_iff a x, subset-mem s t a)

module _ {ℓ κ} {A : Type ℓ} where
  -- Every item of the list has the property.
  abbrev pub All : (A → Type κ) → List A → Type κ
  All P [] = Unit
  All P (x ∷ xs) = P x × All P xs

  pub All-append : (P : A → Type κ) (xs ys : List A) → All P (xs ++ ys) → All P xs × All P ys
  All-append P [] ys h = (tt, h)
  All-append P (x ∷ xs) ys (p, h) = let (left, right) = All-append P xs ys h in ((p, left), right)

module _ {ℓ} {A : Type ℓ} where
  pub keep-append : (p : A → Bool) (xs ys : List A) → keep p (xs ++ ys) ≡ keep p xs ++ keep p ys
  unfolding keep
  keep-append p [] ys = refl
  keep-append p (x ∷ xs) ys = ground (arith, keep-append p xs ys)

module _ {ℓ} {A B : Type ℓ} where
  -- `[y for x in xs for y in f(x)]`
  unfoldable pub gather : (A → List B) → List A → List B
  gather f [] = []
  gather f (x ∷ xs) = f x ++ gather f xs
