-- ===== src/Policies/Engine.antt =====
-- authzkit/policies/engine.py: the rules of the attribute layer.
pub mod Laws
use authz.Base.{
  String, Bool, true, false, not, ◌&&◌, ◌||◌, Option, none, some, List, [], ◌∷◌, ◌++◌, Result, ok,
  err, ◌>>=◌, ◌==◌, string_eq, keep, if◌then◌else◌,
}
use authz.Policies.Value.{Value, null, str, obj, Fields, end, field, PyError, get}
use authz.Policies.Expressions.{evaluate_expression}
use authz.Rbac.Requests.{Subject, AuthorizeRequest}

pub record PolicyRule : Type 0 where
  pub name : String
  pub effect : String
  pub resource : String
  pub action : String
  pub condition : Value
  pub tenant_id : Option String
  pub application_id : Option String

-- `attribute` is Python's `getattr(value, key, None)` on a value that is no mapping.
pub record PolicyEngine : Type 0 where
  pub rules : List PolicyRule
  pub attribute : Value → String → Value

unfoldable pub add_rule : PolicyEngine → PolicyRule → PolicyEngine
add_rule engine rule = record engine { rules = engine.rules ++ rule ∷ [] }

-- `rule.x is not None and rule.x != request.x` does not hold.
abbrev pub fits : Option String → String → Bool
fits none given = true
fits (some wanted) given = wanted == given

unfoldable pub matches_target : PolicyRule → AuthorizeRequest → Bool
matches_target rule request =
    fits rule.tenant_id request.tenant_id
    && fits rule.application_id request.application_id
    && (rule.resource == "*" || rule.resource == request.resource)
    && (rule.action == "*" || rule.action == request.action)

abbrev text_or_null : Option String → Value
text_or_null none = null
text_or_null (some s) = str s

-- `context.get(key, {})`
abbrev part_of : String → Fields → Value
part_of key context = elim (get key context) [ none ↦ obj end | some v ↦ v ]

abbrev subject_fields : Subject → Fields
subject_fields s =
    field "type" (str s.type)
      (field "user_id" (text_or_null s.user_id) (field "agent_id" (text_or_null s.agent_id) end))

unfoldable pub variables_of : AuthorizeRequest → Fields
variables_of r = field "resource" (part_of "resource" r.context) (
    field "subject" (obj (subject_fields r.subject)) (
      field "context" (obj r.context) (
        field "agent" (part_of "agent" r.context) (
          field "user" (part_of "user" r.context)
            (field "tenant" (obj (field "id" (str r.tenant_id) end)) end)))))

module _ (attribute : Value → String → Value) (variables : Fields) where
  abbrev pub condition_of : PolicyRule → Result PyError Bool
  condition_of rule = evaluate_expression attribute variables rule.condition

  -- The first loop: does some deny rule's condition hold?
  unfoldable pub some_deny : List PolicyRule → Result PyError Bool
  some_deny [] = ok false
  some_deny (rule ∷ rules) =
      let rest = some_deny rules in
      if rule.effect == "deny"
      then (do hit ← condition_of rule; if hit then ok true else rest)
      else rest

  -- The second loop: do all allow rules' conditions hold?
  unfoldable pub every_allow : List PolicyRule → Result PyError Bool
  every_allow [] = ok true
  every_allow (rule ∷ rules) =
      let rest = every_allow rules in
      if rule.effect == "allow"
      then (do met ← condition_of rule; if met then rest else ok false)
      else rest

  unfoldable pub judge : List PolicyRule → Result PyError Bool
  judge applicable = do hit ← some_deny applicable; if hit then ok false else every_allow applicable

abbrev pub applicable : PolicyEngine → AuthorizeRequest → List PolicyRule
applicable engine request = keep (λ r. matches_target r request) engine.rules

-- `PolicyEngine.evaluate`; with no rule, or none that applies, the request passes.
abbrev when_applicable : PolicyEngine → AuthorizeRequest → List PolicyRule → Result PyError Bool
when_applicable engine request [] = ok true
when_applicable engine request (rule ∷ rules) =
    judge engine.attribute (variables_of request) (rule ∷ rules)

unfoldable pub evaluate : PolicyEngine → AuthorizeRequest → Result PyError Bool
evaluate engine request = when_applicable engine request (applicable engine request)
