-- ===== src/Policies/Expressions.antt =====
-- authzkit/policies/expressions.py: the evaluator of conditions. `attribute` stands for Python's
-- `getattr(value, key, None)` on a value that is no mapping.
use Prim.Native.Char.{Char, code}
pub mod Meaning
use text.Mathlib.Text.{starts_with}
use authz.Base.{
  String, Bool, true, false, not, List, [], ◌∷◌, Result, ok, err, ◌>>=◌, ◌==◌, nat_eq, string_eq,
  any, if◌then◌else◌,
}
use authz.Policies.Value.{
  Value, null, bool, str, arr, obj, Items, nil, cons, Fields, end, field, PyError, value_error,
  type_error, index_error, get_or_null, eq, Relation, lt, lte, gt, gte, order, mem, or_empty,
}

abbrev pub path_prefixes : List String
path_prefixes = "resource." ∷ "subject." ∷ "context." ∷ "agent." ∷ "user." ∷ "tenant." ∷ []

unfoldable pub is_path : String → Bool
unfolding any
is_path s = any (starts_with s) path_prefixes

-- `text.split(".")`
abbrev pub push : Char → List String → List String
push c [] = String.◌∷◌ c "" ∷ []
push c (part ∷ parts) = String.◌∷◌ c part ∷ parts

unfoldable pub split_dots : String → List String
split_dots String.[] = "" ∷ []
split_dots (String.◌∷◌ c s) =
    let rest = split_dots s in if code c == b'.' then "" ∷ rest else push c rest

pub data Operator : Type 0 where
  op_and op_or op_not op_eq op_ne op_in op_not_in op_unknown : Operator
  op_order : Relation → Operator

unfoldable pub operator : String → Operator
operator op =
    if op == "and"
    then op_and
    else if op == "or"
    then op_or
    else if op == "not"
    then op_not
    else if op == "eq"
    then op_eq
    else if op == "ne"
    then op_ne
    else if op == "lt"
    then op_order lt
    else if op == "lte"
    then op_order lte
    else if op == "gt"
    then op_order gt
    else if op == "gte"
    then op_order gte
    else if op == "in"
    then op_in
    else if op == "not_in"
    then op_not_in
    else op_unknown

-- `left is not None and right is not None and left < right`
unfoldable pub order_present : Relation → Value → Value → Result PyError Bool
order_present r null right = ok false
order_present r left null = ok false
order_present r left right = order r left right

abbrev pub negate : Result PyError Bool → Result PyError Bool
negate m = do b ← m; ok (not b)

unfoldable pub apply : Operator → Value → Value → Result PyError Bool
unfolding order_present
apply op_eq left right = ok (eq left right)
apply op_ne left right = ok (not (eq left right))
apply (op_order r) left right = order_present r left right
apply op_in left right = mem left (or_empty right)
apply op_not_in left right = negate (mem left (or_empty right))
apply _ left right = err value_error

module _ (attribute : Value → String → Value) where
  -- The loop of `_resolve` over the parts behind the first.
  unfoldable pub walk : List String → Value → Value
  walk [] v = v
  walk (key ∷ keys) null = null
  walk (key ∷ keys) (obj fs) = walk keys (get_or_null key fs)
  walk (key ∷ keys) v = walk keys (attribute v key)

  module _ (variables : Fields) where
    abbrev pub walk_from : List String → Value
    walk_from [] = null
    walk_from (root ∷ keys) = walk keys (get_or_null root variables)

    unfoldable pub resolve : Value → Value
    unfolding is_path split_dots walk
    resolve (str s) = if is_path s then walk_from (split_dots s) else str s
    resolve operand = operand

    unfoldable pub binary : Operator → Value → Result PyError Bool
    unfolding resolve apply
    binary op (arr (cons left (cons right nil))) = apply op (resolve left) (resolve right)
    binary op _ = err value_error

    -- Texts are no expressions: an iteration over some raises at the first.
    abbrev pub over_texts : Bool → Bool → Result PyError Bool
    over_texts is_empty result = if is_empty then ok result else err value_error

    unfoldable mutual
      unfolding binary operator

      pub evaluate_expression : Value → Result PyError Bool
      evaluate_expression null = ok true
      evaluate_expression (bool b) = ok b
      evaluate_expression (obj fs) = evaluate_mapping fs
      evaluate_expression _ = err value_error

      pub evaluate_mapping : Fields → Result PyError Bool
      evaluate_mapping (field op operands end) = elim (operator op) [
        | op_and ↦ all_of operands
        | op_or ↦ any_of operands
        | op_not ↦ negate (target_of operands)
        | other ↦ binary other operands
      ]
      evaluate_mapping _ = err value_error

      pub all_of : Value → Result PyError Bool
      all_of (arr es) = all_items es
      all_of (obj end) = ok true
      all_of (obj (field k v fs)) = err value_error
      all_of (str s) = over_texts (s == "") true
      all_of _ = err type_error

      pub any_of : Value → Result PyError Bool
      any_of (arr es) = any_items es
      any_of (obj end) = ok false
      any_of (obj (field k v fs)) = err value_error
      any_of (str s) = over_texts (s == "") false
      any_of _ = err type_error

      pub all_items : Items → Result PyError Bool
      all_items nil = ok true
      all_items (cons e es) =
          let rest = all_items es in do b ← evaluate_expression e; if b then rest else ok false

      pub any_items : Items → Result PyError Bool
      any_items nil = ok false
      any_items (cons e es) =
          let rest = any_items es in do b ← evaluate_expression e; if b then ok true else rest

      -- `operands[0] if isinstance(operands, list) else operands`
      pub target_of : Value → Result PyError Bool
      target_of (arr nil) = err index_error
      target_of (arr (cons e es)) = evaluate_expression e
      target_of null = ok true
      target_of (bool b) = ok b
      target_of (obj fs) = evaluate_mapping fs
      target_of _ = err value_error
