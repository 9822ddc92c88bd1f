-- ===== src/Policies/Engine/Laws.antt =====
-- authzkit/policies/engine.py: what the rules mean.
use authz.Base.{
  String, true, false, ◌≡◌, refl, ◌≢◌, ◌↔◌, inl, inr, List, [], ◌∷◌, ok, ◌==◌, string_eq, eq_iff,
  keep-append, All, All-append, arith, Result-cases, Bool-cases,
}
use authz.Policies.Value.{Value, Fields}
use authz.Rbac.Requests.{AuthorizeRequest}
use authz.Policies.Engine.{
  PolicyRule, PolicyEngine, add_rule, variables_of, condition_of, some_deny, every_allow, judge,
  applicable, when_applicable, matches_target, evaluate,
}

-- A deny rule's condition does not hold, an allow rule's does; no other rule matters.
pub data Respects (attribute : Value → String → Value) (variables : Fields) (rule : PolicyRule)
    : Type 0 where
  by_deny :
      rule.effect ≡ "deny"
      → condition_of attribute variables rule ≡ ok false
      → Respects attribute variables rule
  by_allow :
      rule.effect ≡ "allow"
      → condition_of attribute variables rule ≡ ok true
      → Respects attribute variables rule
  by_other : rule.effect ≢ "deny" → rule.effect ≢ "allow" → Respects attribute variables rule

module _ (attribute : Value → String → Value) (variables : Fields) where
  deny_silent :
      (rules : List PolicyRule)
      → All (Respects attribute variables) rules
      → some_deny attribute variables rules ≡ ok false
  unfolding some_deny
  deny_silent [] h = refl
  deny_silent (rule ∷ rules) (by_deny e c, h) = rw (e, c) (deny_silent rules h)
  deny_silent (rule ∷ rules) (by_allow e c, h) = rw e (deny_silent rules h)
  deny_silent (rule ∷ rules) (by_other d a, h) =
      ground (arith, eq_iff rule.effect "deny", deny_silent rules h)

  allow_met :
      (rules : List PolicyRule)
      → All (Respects attribute variables) rules
      → every_allow attribute variables rules ≡ ok true
  unfolding every_allow
  allow_met [] h = refl
  allow_met (rule ∷ rules) (by_deny e c, h) = rw e (allow_met rules h)
  allow_met (rule ∷ rules) (by_allow e c, h) = rw (e, c) (allow_met rules h)
  allow_met (rule ∷ rules) (by_other d a, h) =
      ground (arith, eq_iff rule.effect "allow", allow_met rules h)

  rule_respected :
      (rule : PolicyRule) (rules : List PolicyRule)
      → some_deny attribute variables (rule ∷ rules) ≡ ok false
      → every_allow attribute variables (rule ∷ rules) ≡ ok true
      → Respects attribute variables rule
        × (some_deny attribute variables rules ≡ ok false)
        × (every_allow attribute variables rules ≡ ok true)
  unfolding some_deny every_allow
  rule_respected rule rules d a = elim (Bool-cases (rule.effect == "deny")) [
    | inl e ↦ elim (Result-cases (condition_of attribute variables rule)) [
      | inl (b, c) ↦ (
        by_deny ((eq_iff _ _).0 e) (ground arith),
        ground arith,
        ground
            (arith, eq_iff rule.effect "deny", eq_iff rule.effect "allow", eq_iff "deny" "allow"),
      )
      | inr (x, c) ↦ absurd (ground arith)
    ]
    | inr n ↦ elim (Bool-cases (rule.effect == "allow")) [
      | inl e ↦ elim (Result-cases (condition_of attribute variables rule)) [
        | inl (b, c) ↦ (by_allow ((eq_iff _ _).0 e) (ground arith), ground arith, ground arith)
        | inr (x, c) ↦ absurd (ground arith)
      ]
      | inr m ↦ (
        by_other (λ p. ground (arith, eq_iff rule.effect "deny"))
            (λ p. ground (arith, eq_iff rule.effect "allow")),
        ground arith,
        ground arith,
      )
    ]
  ]

  All-respected :
      (rules : List PolicyRule)
      → some_deny attribute variables rules ≡ ok false
      → every_allow attribute variables rules ≡ ok true
      → All (Respects attribute variables) rules
  All-respected [] d a = tt
  All-respected (rule ∷ rules) d a =
      let (here, d', a') = rule_respected rule rules d a in (here, All-respected rules d' a')

  judge-All :
      (rules : List PolicyRule)
      → (judge attribute variables rules ≡ ok true) ↔ All (Respects attribute variables) rules
  unfolding judge
  judge-All rules = (
    λ h. All-respected rules (ground arith) (ground arith),
    λ h. rw (deny_silent rules h) (allow_met rules h),
  )

-- The request respects the rules of the engine that apply to it.
abbrev pub RespectsAll : PolicyEngine → AuthorizeRequest → List PolicyRule → Type 0
RespectsAll engine request rules = All (Respects engine.attribute (variables_of request)) rules

when_applicable-RespectsAll :
    (engine : PolicyEngine) (request : AuthorizeRequest) (rules : List PolicyRule)
    → (when_applicable engine request rules ≡ ok true) ↔ RespectsAll engine request rules
when_applicable-RespectsAll engine request [] = (λ h. tt, λ h. refl)
when_applicable-RespectsAll engine request (rule ∷ rules) =
    judge-All engine.attribute (variables_of request) (rule ∷ rules)

-- `evaluate` passes a request exactly when, of the rules whose target matches it, the condition of
-- every deny rule evaluates to false and that of every allow rule to true, without raising.
pub evaluate-RespectsAll :
    (engine : PolicyEngine) (request : AuthorizeRequest)
    → (evaluate engine request ≡ ok true) ↔ RespectsAll engine request (applicable engine request)
unfolding evaluate
evaluate-RespectsAll engine request =
    when_applicable-RespectsAll engine request (applicable engine request)

-- A rule that is added can only refuse more: a request that passes with it passes without it.
pub evaluate-add_rule :
    (engine : PolicyEngine) (rule : PolicyRule) (request : AuthorizeRequest)
    → evaluate (add_rule engine rule) request ≡ ok true
    → evaluate engine request ≡ ok true
unfolding add_rule
evaluate-add_rule engine rule request h =
    let all = (evaluate-RespectsAll (add_rule engine rule) request).0 h in
    let split =
      rw (keep-append (λ (r : PolicyRule). matches_target r request) engine.rules (rule ∷ [])) at
        all in
    (evaluate-RespectsAll engine request).1 (All-append _ (applicable engine request) _ split).0
