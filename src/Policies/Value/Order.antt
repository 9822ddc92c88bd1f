-- ===== src/Policies/Value/Order.antt =====
-- The order tests of conditions (authzkit/policies/expressions.py), one against another.
use Prim.Native.Nat.{Ordering}
use authz.Base.{Bool, true, false, not, ◌≡◌, refl, Result, ok, ◌>>=◌, arith}
use authz.Policies.Value.{
  ℤ, Value, bool, num, str, arr, Items, nil, cons, PyError, eq, number, Relation, lt, lte, gt, gte,
  holds, order, order_items, order_num,
}

-- The relation that holds exactly where the first does not.
abbrev pub opposite : Relation → Relation
opposite lt = gte
opposite lte = gt
opposite gt = lte
opposite gte = lt

abbrev pub complement : Result PyError Bool → Result PyError Bool
complement m = do b ← m; ok (not b)

holds-opposite : (r : Relation) (o : Ordering) → holds (opposite r) o ≡ not (holds r o)
holds-opposite lt o = ground arith
holds-opposite lte o = ground arith
holds-opposite gt o = ground arith
holds-opposite gte o = ground arith

order_num-opposite :
    (r : Relation) (n : ℤ) (w : Value) → order_num (opposite r) n w ≡ complement (order_num r n w)
unfolding order_num
order_num-opposite r n (bool b) = rw (holds-opposite r)
order_num-opposite r n (num m) = rw (holds-opposite r)
order_num-opposite r n _ = refl

choose-opposite :
    (b : Bool) (m n m' n' : Result PyError Bool)
    → m' ≡ complement m
    → n' ≡ complement n
    → ◌≡◌ {A = Result PyError Bool}
        (elim b [ true ↦ m' | false ↦ n' ])
        (complement (elim b [ true ↦ m | false ↦ n ]))
choose-opposite true m n m' n' p q = p
choose-opposite false m n m' n' p q = q

mutual
  unfolding order

  order-opposite_lem :
      (r : Relation) (v w : Value) → order (opposite r) v w ≡ complement (order r v w)
  order-opposite_lem r (bool b) w = order_num-opposite r (number b) w
  order-opposite_lem r (num n) w = order_num-opposite r n w
  order-opposite_lem r (str s) (str t) = rw (holds-opposite r)
  order-opposite_lem r (arr xs) (arr ys) = order_items-opposite r xs ys
  order-opposite_lem r _ _ = refl

  order_items-opposite :
      (r : Relation) (xs ys : Items)
      → order_items (opposite r) xs ys ≡ complement (order_items r xs ys)
  order_items-opposite r nil nil = rw (holds-opposite r)
  order_items-opposite r nil (cons y ys) = rw (holds-opposite r)
  order_items-opposite r (cons x xs) nil = rw (holds-opposite r)
  order_items-opposite r (cons x xs) (cons y ys) =
      choose-opposite (eq x y) _ _ _ _ (order_items-opposite r xs ys) (order-opposite_lem r x y)

-- On any two values, lists included, `>=` and `<` are each other's negation, and so are `>` and
-- `<=`; where one raises, the other raises too.
order-opposite : (r : Relation) (v w : Value) → order (opposite r) v w ≡ complement (order r v w)
order-opposite = order-opposite_lem
