-- ===== src/Rbac/Checker/Narrowing.antt =====
-- authzkit/rbac/checker.py: decisions for an agent and under a grant, against those without.
use authz.Base.{
  String, true, false, ◌≡◌, refl, ◌↔◌, inl, inr, Option, none, some, List, ok, contains, string_eq,
  arith, eq_iff,
}
use authz.Policies.Engine.{evaluate, variables_of, matches_target}
use authz.Rbac.Requests.{AuthorizeRequest}
use authz.Rbac.Subjects.{required_of, agent_active, agent_missing}
use authz.Rbac.Checker.{AuthorizationEngine}
use authz.Rbac.Checker.Allowed.{Allows, authorize-IsPermitted, Allows-IsPermitted}

-- The same request, made by the user that an agent acts for.
abbrev pub as_user : AuthorizeRequest → AuthorizeRequest
as_user r = record r { subject = record (r.subject) { type = "user" } }

-- An agent is not missing if it is active.
agent_active-found :
    (engine : AuthorizationEngine) (r : AuthorizeRequest) (agent : String)
    → agent_active engine.repository r.tenant_id r.application_id agent r.references ≡ true
    → agent_missing r.references ≡ false
unfolding agent_active
agent_active-found engine r agent h = ground arith

-- An agent never gets more than its user: if `authorize` allows a request of an agent, and the
-- policy rules pass the same request made by the user that the agent acts for, then `authorize`
-- allows that request of the user too.
pub agent-le-user :
    (engine : AuthorizationEngine) (r : AuthorizeRequest)
    → r.subject.type ≡ "agent"
    → Allows engine r
    → evaluate engine.policy_engine (as_user r) ≡ ok true
    → Allows engine (as_user r)
agent-le-user engine r t a e =
    let p = (authorize-IsPermitted engine r).0 a in
    Allows-IsPermitted engine (as_user r) (record {
      is_open = p.is_open;
      held = elim p.held [
        | inl u ↦ absurd (ground (arith, eq_iff "agent" "user"))
        | inr (_, user, (agent, acting, _)) ↦
            inl (refl, agent_active-found engine r agent acting.1, user)
      ];
      unmasked = p.unmasked;
      delegated = p.delegated;
      judged = e;
    })

abbrev pub with_grant : Option (List String) → AuthorizeRequest → AuthorizeRequest
with_grant grant r = record r { delegated_permissions = grant }

evaluate-with_grant :
    (engine : AuthorizationEngine) (r : AuthorizeRequest) (old new : Option (List String))
    → evaluate engine.policy_engine (with_grant old r) ≡ ok true
    → evaluate engine.policy_engine (with_grant new r) ≡ ok true
unfolding evaluate matches_target variables_of
evaluate-with_grant engine r old new h = h

-- With a delegation grant `authorize` allows exactly what it allows without one and the grant
-- lists.
pub grant_narrows :
    (engine : AuthorizationEngine) (r : AuthorizeRequest) (grant : List String)
    → Allows engine (with_grant (some grant) r)
      ↔ (Allows engine (with_grant none r) × (contains (required_of r) grant ≡ true))
grant_narrows engine r grant = (
  λ a.
      let p = (authorize-IsPermitted engine (with_grant (some grant) r)).0 a in
      (
        Allows-IsPermitted engine (with_grant none r) (record {
          is_open = p.is_open;
          held = p.held;
          unmasked = p.unmasked;
          delegated = refl;
          judged = evaluate-with_grant engine r (some grant) none p.judged;
        }),
        p.delegated,
      ),
  λ (a, listed).
      let p = (authorize-IsPermitted engine (with_grant none r)).0 a in
      Allows-IsPermitted engine (with_grant (some grant) r) (record {
        is_open = p.is_open;
        held = p.held;
        unmasked = p.unmasked;
        delegated = listed;
        judged = evaluate-with_grant engine r none (some grant) p.judged;
      }),
)
