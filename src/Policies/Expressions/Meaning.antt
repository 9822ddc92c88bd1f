-- ===== src/Policies/Expressions/Meaning.antt =====
-- Conditions as abstract syntax with a meaning, and the evaluator on their JSON form.
use authz.Base.{String, Bool, true, false, not, ◌&&◌, ◌||◌, ◌≡◌, refl, ok, string_eq, arith}
use authz.Policies.Value.{Value, bool, arr, obj, Items, nil, cons, Fields, end, field, eq}
use authz.Policies.Expressions.{
  operator, binary, resolve, apply, evaluate_expression, all_items, any_items, target_of,
}

-- The conditions whose tests cannot raise. An operand is a literal or a path.
mutual
  pub data Condition : Type 0 where
    always : Bool → Condition
    every : Conditions → Condition
    some_of : Conditions → Condition
    negation : Condition → Condition
    same : Value → Value → Condition
    differs : Value → Value → Condition

  pub data Conditions : Type 0 where
    none_left : Conditions
    also : Condition → Conditions → Conditions

abbrev operands : Value → Value → Value
operands left right = arr (cons left (cons right nil))

abbrev operation : String → Value → Value
operation op v = obj (field op v end)

-- The JSON form of a condition, `{"and": [...]}` and so on.
unfoldable mutual
  pub encode : Condition → Value
  encode (always b) = bool b
  encode (every cs) = operation "and" (arr (encode_all cs))
  encode (some_of cs) = operation "or" (arr (encode_all cs))
  encode (negation c) = operation "not" (encode c)
  encode (same left right) = operation "eq" (operands left right)
  encode (differs left right) = operation "ne" (operands left right)

  pub encode_all : Conditions → Items
  encode_all none_left = nil
  encode_all (also c cs) = cons (encode c) (encode_all cs)

module _ (attribute : Value → String → Value) (variables : Fields) where
  abbrev value_of : Value → Value
  value_of = resolve attribute variables

  -- What a condition says of the variables.
  unfoldable mutual
    pub meaning : Condition → Bool
    meaning (always b) = b
    meaning (every cs) = meaning_every cs
    meaning (some_of cs) = meaning_some cs
    meaning (negation c) = not (meaning c)
    meaning (same left right) = eq (value_of left) (value_of right)
    meaning (differs left right) = not (eq (value_of left) (value_of right))

    pub meaning_every : Conditions → Bool
    meaning_every none_left = true
    meaning_every (also c cs) = meaning c && meaning_every cs

    pub meaning_some : Conditions → Bool
    meaning_some none_left = false
    meaning_some (also c cs) = meaning c || meaning_some cs

  -- A condition is no list, so that `not` takes it as it stands.
  target-encode :
      (c : Condition)
      → target_of attribute variables (encode c)
        ≡ evaluate_expression attribute variables (encode c)
  unfolding encode evaluate_expression
  target-encode (always b) = refl
  target-encode (every cs) = refl
  target-encode (some_of cs) = refl
  target-encode (negation c) = refl
  target-encode (same left right) = refl
  target-encode (differs left right) = refl

  mutual
    unfolding encode meaning evaluate_expression operator binary apply

    evaluate-encode_lem :
        (c : Condition) → evaluate_expression attribute variables (encode c) ≡ ok (meaning c)
    evaluate-encode_lem (always b) = refl
    evaluate-encode_lem (every cs) = all_items-encode cs
    evaluate-encode_lem (some_of cs) = any_items-encode cs
    evaluate-encode_lem (negation c) = rw (target-encode c, evaluate-encode_lem c)
    evaluate-encode_lem (same left right) = refl
    evaluate-encode_lem (differs left right) = refl

    all_items-encode :
        (cs : Conditions) → all_items attribute variables (encode_all cs) ≡ ok (meaning_every cs)
    all_items-encode none_left = refl
    all_items-encode (also c cs) = ground (arith, evaluate-encode_lem c, all_items-encode cs)

    any_items-encode :
        (cs : Conditions) → any_items attribute variables (encode_all cs) ≡ ok (meaning_some cs)
    any_items-encode none_left = refl
    any_items-encode (also c cs) = ground (arith, evaluate-encode_lem c, any_items-encode cs)

-- On the JSON form of a condition built from truth values, `and`, `or`, `not`, `eq` and `ne`, with
-- any operands, the evaluator never raises and returns the condition's meaning: conjunction,
-- disjunction, negation, and equality of the resolved operands.
pub evaluate_expression-encode :
    (attribute : Value → String → Value) (variables : Fields) (c : Condition)
    → evaluate_expression attribute variables (encode c) ≡ ok (meaning attribute variables c)
evaluate_expression-encode = evaluate-encode_lem
