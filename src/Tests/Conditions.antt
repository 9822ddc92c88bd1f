-- ===== src/Tests/Conditions.antt =====
-- Policy conditions and rules on examples.
use authz.Base.{String, Bool, true, false, none, [], ◌∷◌, ok, ◌≡◌, ◌↔◌, refl, keep, string_eq}
use authz.Policies.Value.{Value, null, num, pos, str, bool, arr, nil, cons, obj, Fields, end, field}
use authz.Policies.Expressions.{evaluate_expression}
use authz.Policies.Expressions.Meaning.{
  Condition, every, negation, same, also, none_left, encode, meaning, evaluate_expression-encode,
}
use authz.Policies.Engine.{
  PolicyRule, PolicyEngine, add_rule, applicable, evaluate, matches_target, some_deny, every_allow,
  judge,
}
use authz.Policies.Engine.Laws.{RespectsAll, evaluate-RespectsAll, evaluate-add_rule}
use authz.Rbac.Requests.{AuthorizeRequest}
use authz.Guards.Agents.Agreement.{agent_request}

abbrev no_attribute : Value → String → Value
no_attribute v key = null

abbrev two_items : Value
two_items = arr (cons (num (pos 1)) (cons (num (pos 2)) nil))

abbrev three_items : Value
three_items = arr (cons (num (pos 1)) (cons (num (pos 3)) nil))

-- The agent may act only for another user.
abbrev not_own : Condition
not_own = negation (every (also (same (str "subject.user_id") (str "user.id")) none_left))

abbrev variables : Fields
variables =
    field "subject" (obj (field "user_id" (str "ann") end))
      (field "user" (obj (field "id" (str "bob") end)) end)

evaluate_expression-encode_example :
    evaluate_expression no_attribute variables (encode not_own)
    ≡ ok (meaning no_attribute variables not_own)
evaluate_expression-encode_example = evaluate_expression-encode no_attribute variables not_own

abbrev rule_of : (effect resource : String) → Bool → PolicyRule
rule_of effect resource condition = record {
  name = "rule";
  effect = effect;
  resource = resource;
  action = "*";
  condition = bool condition;
  tenant_id = none;
  application_id = none;
}

abbrev rules : PolicyEngine
rules = record {
  rules = rule_of "allow" "doc" true ∷ rule_of "deny" "mail" true ∷ [];
  attribute = no_attribute;
}

abbrev request : AuthorizeRequest
request = agent_request "acme" "crm" "ann" "bot" "doc" "read" end

evaluate-RespectsAll_example :
    (evaluate rules request ≡ ok true) ↔ RespectsAll rules request (applicable rules request)
evaluate-RespectsAll_example = evaluate-RespectsAll rules request

passes_more : evaluate (add_rule rules (rule_of "deny" "*" false)) request ≡ ok true
unfolding evaluate keep add_rule matches_target judge some_deny evaluate_expression every_allow
passes_more = refl

evaluate-add_rule_example : evaluate rules request ≡ ok true
evaluate-add_rule_example = evaluate-add_rule rules (rule_of "deny" "*" false) request passes_more
