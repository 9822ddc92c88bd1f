-- ===== src/Base/Results.antt =====
-- Code that may raise: the value, or the exception.
use mathlib.Core.Path.{◌≡◌, refl}
use mathlib.Core.Logic.{◌⊎◌, inl, inr}
use mathlib.Core.Bool.{Bool, true, false}
use mathlib.Core.List.{List, [], ◌∷◌, map}

pub data Result {ℓ} (E A : Type ℓ) : Type ℓ where
  ok : A → Result E A
  err : E → Result E A

-- `if not b: raise e`
abbrev pub guard {ℓ} : {E : Type ℓ} → Bool → E → Result E (Unit {ℓ})
guard test e = elim test [ true ↦ ok tt | false ↦ err e ]

infixl 5 ◌>>=◌ ◌>>◌
abbrev pub ◌>>=◌ {ℓ} : {E A B : Type ℓ} → Result E A → (A → Result E B) → Result E B
ok a >>= next = next a
err e >>= next = err e

abbrev pub ◌>>◌ {ℓ} : {E B : Type ℓ} → Result E (Unit {ℓ}) → Result E B → Result E B
m >> next = m >>= λ _. next

-- A loop that appends one result for each item, and stops at the first exception.
unfoldable pub traverse {ℓ} : {E A B : Type ℓ} → (A → Result E B) → List A → Result E (List B)
traverse f [] = ok []
traverse f (x ∷ xs) = let rest = traverse f xs in do y ← f x; ys ← rest; ok (y ∷ ys)

module _ {ℓ} {E A B : Type ℓ} where
  pub >>=-eq-ok :
      (m : Result E A) (f : A → Result E B) {b : B}
      → (m >>= f) ≡ ok b
      → (value : A) × (m ≡ ok value) × (f value ≡ ok b)
  >>=-eq-ok (err e) f raised = cc
  >>=-eq-ok (ok value) f same = (value, refl, same)

  pub traverse-ext :
      (f g : A → Result E B) → ((a : A) → f a ≡ g a) → (xs : List A) → traverse f xs ≡ traverse g xs
  unfolding traverse
  traverse-ext f g h [] = refl
  traverse-ext f g h (x ∷ xs) = rw (h x, traverse-ext f g h xs)

module _ {ℓ} {E A B : Type ℓ} where
  pub traverse-ok : (f : A → B) (xs : List A) → traverse {E = E} (λ x. ok (f x)) xs ≡ ok (map f xs)
  unfolding traverse
  traverse-ok f [] = refl
  traverse-ok f (x ∷ xs) = rw (traverse-ok f xs)

pub Result-cases {ℓ} :
    {E A : Type ℓ} (r : Result E A) → ((a : A) × (r ≡ ok a)) ⊎ ((e : E) × (r ≡ err e))
Result-cases (ok a) = inl (a, refl)
Result-cases (err e) = inr (e, refl)
