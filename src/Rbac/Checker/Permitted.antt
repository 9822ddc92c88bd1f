-- ===== src/Rbac/Checker/Permitted.antt =====
-- authzkit/rbac/checker.py: a description of the permitted requests that does not follow the
-- code's branches.
use authz.Base.{
  String, true, false, ◌≡◌, refl, ◌↔◌, ◌⊎◌, inl, inr, Option, none, some, List, Result, ok, err,
  ◌==◌, string_eq, option_eq, eq_iff, contains, contains-inter, Option-cases, Bool-cases, arith,
}
use authz.Policies.Engine.{evaluate}
use authz.Rbac.Requests.{ResolvedReferences, AuthorizeRequest, AuthorizeDecision, deny}
use authz.Rbac.Subjects.{
  Repository, inactive, membership_active, agent_active, resolve_user, resolve_agent,
  subject_permissions, required_of, user_missing, agent_missing,
}
use authz.Rbac.Checker.{AuthorizationEngine}
use authz.Rbac.Checker.Sets.{passes, granted}

-- The tenant and the application are active: by the references where they are given.
abbrev pub IsOpen : Repository → String → String → Option ResolvedReferences → Type 0
IsOpen repository tenant application none =
    (repository.is_tenant_active tenant ≡ true)
    × (repository.is_application_active application ≡ true)
IsOpen repository tenant application (some refs) =
    (refs.tenant_status ≡ some "active") × (refs.application_status ≡ some "active")

-- The user was found and has an active membership.
abbrev pub IsMember : Repository → AuthorizeRequest → String → Type 0
IsMember repository r user =
    (r.subject.user_id ≡ some user)
    × (user_missing r.references ≡ false)
    × (repository.is_user_membership_active r.tenant_id r.application_id user ≡ true)

-- The agent was found and is active.
abbrev pub IsActing : Repository → AuthorizeRequest → String → Type 0
IsActing repository r agent =
    (r.subject.agent_id ≡ some agent)
    × (agent_active repository r.tenant_id r.application_id agent r.references ≡ true)

abbrev pub user_set : Repository → AuthorizeRequest → String → List String
user_set repository r user = repository.resolve_user_permissions r.tenant_id r.application_id user

abbrev pub agent_set : Repository → AuthorizeRequest → String → List String
agent_set repository r agent =
    repository.resolve_agent_permissions r.tenant_id r.application_id agent

-- A user with the permission acts.
abbrev pub UserHolds : Repository → AuthorizeRequest → String → Type 0
UserHolds repository r name =
    (r.subject.type ≡ "user")
    × (agent_missing r.references ≡ false)
    × ((user : String) × IsMember repository r user
        × (contains name (user_set repository r user) ≡ true))

-- An agent acts for a user, and both have the permission.
abbrev pub AgentHolds : Repository → AuthorizeRequest → String → Type 0
AgentHolds repository r name =
    (r.subject.type ≡ "agent")
    × ((user : String) × IsMember repository r user
        × (contains name (user_set repository r user) ≡ true))
    × ((agent : String) × IsActing repository r agent
        × (contains name (agent_set repository r agent) ≡ true))

abbrev pub Holds : Repository → AuthorizeRequest → String → Type 0
Holds repository r name = UserHolds repository r name ⊎ AgentHolds repository r name

pub record IsPermitted (engine : AuthorizationEngine) (r : AuthorizeRequest) : Type 0 where
  pub is_open : IsOpen engine.repository r.tenant_id r.application_id r.references
  pub held : Holds engine.repository r (required_of r)
  pub unmasked :
      passes
        (required_of r)
        (engine.repository.resolve_tenant_permissions r.tenant_id r.application_id)
      ≡ true
  pub delegated : granted (required_of r) r.delegated_permissions ≡ true
  pub judged : evaluate engine.policy_engine r ≡ ok true

pub inactive-none_iff :
    (repository : Repository) (tenant application : String) (refs : Option ResolvedReferences)
    → (inactive repository tenant application refs ≡ none)
      ↔ IsOpen repository tenant application refs
unfolding inactive
inactive-none_iff repository tenant application none = ground arith
inactive-none_iff repository tenant application (some refs) =
    let s = (option_eq {A = String}).beq_iff refs.tenant_status (some "active") in
    let t = (option_eq {A = String}).beq_iff refs.application_status (some "active") in
    ground (arith, s, t)

-- The subject's answer is a set that has the name.
abbrev pub Answers : Result AuthorizeDecision (List String) → String → Type 0
Answers (ok permissions) name = contains name permissions ≡ true
Answers (err denied) name = ⊥

module _ (repository : Repository) (r : AuthorizeRequest) (name : String) where
  user_holds :
      r.subject.type ≡ "user"
      → Answers (resolve_user repository r) name
      → UserHolds repository r name
  unfolding resolve_user membership_active
  user_holds t h = elim (Option-cases r.subject.user_id) [
    | inl e ↦ absurd (ground arith)
    | inr (user, e) ↦ (t, ground arith, (user, (e, ground arith, ground arith), ground arith))
  ]

  user-Answers : UserHolds repository r name → Answers (resolve_user repository r) name
  unfolding resolve_user membership_active
  user-Answers h = ground arith

  agent_holds :
      r.subject.type ≡ "agent"
      → Answers (resolve_agent repository r) name
      → AgentHolds repository r name
  unfolding resolve_agent membership_active
  agent_holds t h = elim (Option-cases r.subject.user_id) [
    | inl e ↦ absurd (ground arith)
    | inr (user, e) ↦ elim (Option-cases r.subject.agent_id) [
      | inl f ↦ absurd (ground arith)
      | inr (agent, f) ↦
          let both =
            contains-inter name (user_set repository r user) (agent_set repository r agent) in
          (
            t,
            (user, (e, ground arith, ground arith), ground (arith, both)),
            (agent, (f, ground arith), ground (arith, both)),
          )
    ]
  ]

  agent-Answers : AgentHolds repository r name → Answers (resolve_agent repository r) name
  unfolding resolve_agent membership_active
  agent-Answers (t, (user, m, p), (agent, a, q)) =
      ground
        (arith, contains-inter name (user_set repository r user) (agent_set repository r agent))

  pub subject-Holds : Answers (subject_permissions repository r) name → Holds repository r name
  unfolding subject_permissions
  subject-Holds h = elim (Bool-cases (r.subject.type == "user")) [
    | inl u ↦ inl (user_holds ((eq_iff _ _).0 u) (rw u at h))
    | inr v ↦ elim (Bool-cases (r.subject.type == "agent")) [
      | inl a ↦ inr (agent_holds ((eq_iff _ _).0 a) (rw (v, a) at h))
      | inr b ↦ absurd (rw (v, b) at h)
    ]
  ]

  user_type : r.subject.type ≡ "user" → (r.subject.type == "user") ≡ true
  user_type = (eq_iff _ _).1

  agent_type :
      r.subject.type ≡ "agent"
      → ((r.subject.type == "user") ≡ false) × ((r.subject.type == "agent") ≡ true)
  agent_type t = rw t (refl, refl)

  pub subject-Answers : Holds repository r name → Answers (subject_permissions repository r) name
  unfolding subject_permissions
  subject-Answers (inl u) = rw (user_type u.0) (user-Answers u)
  subject-Answers (inr a) = let (v, t) = agent_type a.0 in rw (v, t) (agent-Answers a)

  -- A denial of the subject allows nothing.
  pub subject_denies :
      (d : AuthorizeDecision) → subject_permissions repository r ≡ err d → d.allowed ≡ false
  unfolding subject_permissions resolve_user resolve_agent deny
  subject_denies d h = ground arith
