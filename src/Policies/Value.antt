-- ===== src/Policies/Value.antt =====
-- The Python values that policy conditions and request contexts are made of (JSON values, and
-- the other objects that `getattr` may find), with Python's `==`, order, `in` and truth value.
-- Numbers are integers: floats are not modelled. A mapping has each key once.
pub mod Order
use Prim.Native.Nat.{compare as compare_ℕ, Ordering}
use Prim.Native.String.{compare as compare_text}
use text.Mathlib.Text.{find?}
use authz.Base.{
  ℕ, ◌+◌, String, Bool, true, false, not, ◌&&◌, ◌||◌, Option, none, some, Result, ok, err, ◌==◌,
  string_eq, nat_eq, if◌then◌else◌,
}

-- `negsuc n` is -(n + 1).
pub data ℤ : Type 0 where
  pos : ℕ → ℤ
  negsuc : ℕ → ℤ

mutual
  pub data Value : Type 0 where
    null : Value
    bool : Bool → Value
    num : ℤ → Value
    str : String → Value
    arr : Items → Value
    obj : Fields → Value
    -- Any other object, known by its identity.
    object : ℕ → Value

  pub data Items : Type 0 where
    nil : Items
    cons : Value → Items → Items

  pub data Fields : Type 0 where
    end : Fields
    field : String → Value → Fields → Fields

-- What an expression may raise.
pub data PyError : Type 0 where
  value_error type_error index_error : PyError

unfoldable pub compare_int : ℤ → ℤ → Ordering
compare_int (pos a) (pos b) = compare_ℕ a b
compare_int (pos a) (negsuc b) = Ordering.gt
compare_int (negsuc a) (pos b) = Ordering.lt
compare_int (negsuc a) (negsuc b) = compare_ℕ b a

abbrev pub is_eq : Ordering → Bool
is_eq o = elim o [ Ordering.eq ↦ true | _ ↦ false ]

-- `True` is 1 and `False` is 0.
abbrev pub number : Bool → ℤ
number true = pos 1
number false = pos 0

-- `mapping.get(key)`
unfoldable pub get : String → Fields → Option Value
get k end = none
get k (field j v fs) = let rest = get k fs in if j == k then some v else rest

unfoldable pub get_or_null : String → Fields → Value
unfolding get
get_or_null k fs = elim (get k fs) [ none ↦ null | some v ↦ v ]

unfoldable pub size : Fields → ℕ
size end = 0
size (field k v fs) = size fs + 1

abbrev eq_num : ℤ → Value → Bool
eq_num n (bool b) = is_eq (compare_int n (number b))
eq_num n (num m) = is_eq (compare_int n m)
eq_num n _ = false

abbrev eq_found : (Value → Bool) → Option Value → Bool
eq_found same none = false
eq_found same (some w) = same w

-- `left == right`
unfoldable mutual
  unfolding compare_int size get

  pub eq : Value → Value → Bool
  eq null null = true
  eq (bool b) w = eq_num (number b) w
  eq (num n) w = eq_num n w
  eq (str s) (str t) = s == t
  eq (arr xs) (arr ys) = eq_items xs ys
  eq (obj fs) (obj gs) = size fs == size gs && eq_fields fs gs
  eq (object i) (object j) = i == j
  eq _ _ = false

  pub eq_items : Items → Items → Bool
  eq_items nil nil = true
  eq_items (cons x xs) (cons y ys) = eq x y && eq_items xs ys
  eq_items _ _ = false

  pub eq_fields : Fields → Fields → Bool
  eq_fields end gs = true
  eq_fields (field k v fs) gs = eq_found (eq v) (get k gs) && eq_fields fs gs

pub data Relation : Type 0 where
  lt lte gt gte : Relation

abbrev pub holds : Relation → Ordering → Bool
holds lt o = elim o [ Ordering.lt ↦ true | _ ↦ false ]
holds lte o = elim o [ Ordering.gt ↦ false | _ ↦ true ]
holds gt o = elim o [ Ordering.gt ↦ true | _ ↦ false ]
holds gte o = elim o [ Ordering.lt ↦ false | _ ↦ true ]

unfoldable pub order_num : Relation → ℤ → Value → Result PyError Bool
unfolding compare_int
order_num r n (bool b) = ok (holds r (compare_int n (number b)))
order_num r n (num m) = ok (holds r (compare_int n m))
order_num r n _ = err type_error

-- `left < right` and its kin; lists are compared at the first place where they differ.
unfoldable mutual
  unfolding order_num

  pub order : Relation → Value → Value → Result PyError Bool
  order r (bool b) w = order_num r (number b) w
  order r (num n) w = order_num r n w
  order r (str s) (str t) = ok (holds r (compare_text s t))
  order r (arr xs) (arr ys) = order_items r xs ys
  order r _ _ = err type_error

  pub order_items : Relation → Items → Items → Result PyError Bool
  order_items r nil nil = ok (holds r Ordering.eq)
  order_items r nil (cons y ys) = ok (holds r Ordering.lt)
  order_items r (cons x xs) nil = ok (holds r Ordering.gt)
  order_items r (cons x xs) (cons y ys) = elim (eq x y) [
    | true ↦ order_items r xs ys
    | false ↦ order r x y
  ]

-- `bool(value)`
unfoldable pub truthy : Value → Bool
unfolding compare_int
truthy null = false
truthy (bool b) = b
truthy (num n) = not (is_eq (compare_int n (pos 0)))
truthy (str s) = not (s == "")
truthy (arr nil) = false
truthy (arr (cons x xs)) = true
truthy (obj end) = false
truthy (obj (field k v fs)) = true
truthy (object i) = true

unfoldable pub mem_items : Value → Items → Bool
unfolding eq
mem_items v nil = false
mem_items v (cons x xs) = eq x v || mem_items v xs

abbrev is_found {ℓ} : {A : Type ℓ} → Option A → Bool
is_found none = false
is_found (some a) = true

-- `left in right`: an element of a list, a part of a text, a key of a mapping.
unfoldable pub mem : Value → Value → Result PyError Bool
unfolding mem_items get
mem v (arr xs) = ok (mem_items v xs)
mem (str s) (str t) = ok (is_found (find? t s))
mem v (str t) = err type_error
mem (str s) (obj fs) = ok (is_found (get s fs))
mem (arr xs) (obj fs) = err type_error
mem (obj gs) (obj fs) = err type_error
mem v (obj fs) = ok false
mem v _ = err type_error

-- `right or []`
unfoldable pub or_empty : Value → Value
unfolding truthy
or_empty v = if truthy v then v else arr nil
