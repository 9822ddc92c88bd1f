-- ===== src/Storage/Memory/Roles/Laws.antt =====
-- authzkit/storage/memory.py: the resolution of role names and of role links.
use authz.Base.{
  String, true, not, ◌&&◌, ◌||◌, ◌≡◌, refl, ◌⊎◌, inl, inr, Option, none, some, List, [], ◌∷◌, Dict,
  lookup, insert, lookup-insert, values, values-insert-Elem, contains, Elem, first-Elem,
  first_found, gather-Elem, ◌==◌, string_eq, option_eq, eq_iff, arith, Option-cases, Bool-cases,
  if◌then◌else◌,
}
use authz.Rbac.Models.{Role}
use authz.Rbac.Requests.{is_some}
use authz.Storage.Memory.Roles.Effective.{StandsFor, effective_role-StandsFor}
use authz.Storage.Memory.{InMemoryStore}
use authz.Storage.Memory.Roles.{
  within, assignable, assign, find_assignable_roles, overrides, effective_role, id_of,
  effective_role_ids,
}

id_of-some :
    (o : Option Role) (rid : String)
    → contains rid (id_of o) ≡ true
    → (role : Role) × (o ≡ some role) × (rid ≡ role.id)
unfolding contains
id_of-some none rid h = absurd (cc)
id_of-some (some role) rid h = (role, refl, ground (arith, eq_iff rid role.id))

-- Whatever roles are linked, foreign ones and unknown ids included, each id in the effective set for a
-- tenant is the id of a role of the store that a link stands for: the linked role, which the store has
-- and which is bound to this tenant or to none, or this tenant's own role that overrides it.
pub effective_role_ids-within :
    (s : InMemoryStore) (tenant : String) (linked : List String) (rid : String)
    → contains rid (effective_role_ids s tenant linked) ≡ true
    → (link : String) × (role : Role) × Elem link linked
      × (rid ≡ role.id)
      × StandsFor s tenant link role
unfolding effective_role_ids
effective_role_ids-within s tenant linked rid h =
    let (link, found, holds) = gather-Elem _ linked rid h in
    let (role, e, same) = id_of-some (effective_role s tenant (lookup link s.roles)) rid holds in
    (link, role, found, same, effective_role-StandsFor s tenant link role e)

-- A link to an application-wide role (of no agent) grants through the tenant's own role of that
-- name and application as soon as the store has one, and no longer through the linked role.
effective_role-override :
    (s : InMemoryStore) (tenant : String) (role own : Role)
    → role.tenant_id ≡ none
    → role.agent_id ≡ none
    → Elem own (values s.roles)
    → overrides tenant role own ≡ true
    → (o : Role) × (effective_role s tenant (some role) ≡ some o)
      × (o.tenant_id ≡ some tenant)
      × (o.name ≡ role.name)
      × (o.application_id ≡ role.application_id)
      × (o.agent_id ≡ none)
effective_role-override s tenant role own wide plain found fits =
    let (o, e) = first_found (overrides tenant role) (values s.roles) own found fits in
    let (_, holds) = first-Elem (overrides tenant role) (values s.roles) o e in
    (
      o,
      ground arith,
      ground (arith, (option_eq {A = String}).beq_iff o.tenant_id (some tenant)),
      ground (arith, eq_iff o.name role.name),
      ground (arith, (option_eq {A = String}).beq_iff o.application_id role.application_id),
      ground arith,
    )

module _ (tenant : String) (application : Option String) (wanted : List String) where
  -- What the loop has found under a name: an assignable role of that name.
  IsSound : Dict String Role → Type 0
  IsSound found =
      (name : String) (r : Role)
      → lookup name found ≡ some r
      → (r.name ≡ name) × (assignable tenant application wanted r ≡ true)

  abbrev step : Dict String Role → Role → Dict String Role
  step found r =
      if assignable tenant application wanted r
        && (is_some r.tenant_id || not (is_some (lookup r.name found)))
      then insert r.name r found
      else found

  step-IsSound : (found : Dict String Role) (r : Role) → IsSound found → IsSound (step found r)
  unfolding IsSound
  step-IsSound found r sound name r' h =
      ground (arith, sound name r', lookup-insert r.name name r found, eq_iff r.name name)

  assign-IsSound :
      (found : Dict String Role) (rs : List Role)
      → IsSound found
      → IsSound (assign tenant application wanted found rs)
  unfolding assign
  assign-IsSound found [] sound = sound
  assign-IsSound found (r ∷ rs) sound =
      assign-IsSound (step found r) rs (step-IsSound found r sound)

  -- A role is found under `r`'s name, and it is bound to a tenant if `r` is.
  Prefers : Dict String Role → Role → Type 0
  Prefers found r =
      (b : Role) × (lookup r.name found ≡ some b)
      × ((r.tenant_id ≡ none) ⊎ (is_some b.tenant_id ≡ true))

  step_keeps : (found : Dict String Role) (q r : Role) → Prefers found r → Prefers (step found q) r
  unfolding Prefers
  step_keeps found q r (b, e, p) = elim (Bool-cases (q.name == r.name)) [
    | inr other ↦ (b, ground (arith, lookup-insert q.name r.name q found), p)
    | inl same ↦ elim (Bool-cases (assignable tenant application wanted q && is_some q.tenant_id)) [
      | inl yields ↦ (q, ground (arith, lookup-insert q.name r.name q found), inr (ground arith))
      | inr stays ↦
          (b, ground (arith, lookup-insert q.name r.name q found, eq_iff q.name r.name), p)
    ]
  ]

  step_finds :
      (found : Dict String Role) (r : Role)
      → assignable tenant application wanted r ≡ true
      → Prefers (step found r) r
  unfolding Prefers
  step_finds found r h = elim (Option-cases r.tenant_id) [
    | inr (t, bound) ↦ (
      r,
      ground (arith, lookup-insert r.name r.name r found, eq_iff r.name r.name),
      inr (rw bound refl),
    )
    | inl wide ↦ elim (Option-cases (lookup r.name found)) [
      | inl new ↦
          (r, ground (arith, lookup-insert r.name r.name r found, eq_iff r.name r.name), inl wide)
      | inr (b, old) ↦ (b, ground arith, inl wide)
    ]
  ]

  assign_keeps :
      (found : Dict String Role) (rs : List Role) (r : Role)
      → Prefers found r
      → Prefers (assign tenant application wanted found rs) r
  unfolding assign
  assign_keeps found [] r p = p
  assign_keeps found (q ∷ rs) r p = assign_keeps (step found q) rs r (step_keeps found q r p)

  assign_finds :
      (found : Dict String Role) (rs : List Role) (r : Role)
      → Elem r rs
      → assignable tenant application wanted r ≡ true
      → Prefers (assign tenant application wanted found rs) r
  unfolding assign
  assign_finds found [] r m h = absurd m
  assign_finds found (q ∷ rs) r (inl same) h =
      assign_keeps (step found q) rs r (rw (← same) (step_finds found r h))
  assign_finds found (q ∷ rs) r (inr later) h = assign_finds (step found q) rs r later h

  -- What the loop ends with comes from the store and is assignable.
  assign_from :
      (found : Dict String Role) (rs : List Role) (r : Role)
      → Elem r (values (assign tenant application wanted found rs))
      → Elem r (values found) ⊎ (Elem r rs × (assignable tenant application wanted r ≡ true))
  unfolding assign
  assign_from found [] r m = inl m
  assign_from found (q ∷ rs) r m = elim (assign_from (step found q) rs r m) [
    | inr (later, fits) ↦ inr (inr later, fits)
    | inl now ↦ elim (Bool-cases (assignable tenant application wanted q)) [
      | inr refused ↦ inl (rw refused at now)
      | inl fits ↦ elim (Bool-cases (is_some q.tenant_id || not (is_some (lookup q.name found)))) [
        | inr kept ↦ inl (rw (fits, kept) at now)
        | inl taken ↦ elim (values-insert-Elem q.name q found r (rw (fits, taken) at now)) [
          | inl same ↦ inr (inl same, rw same fits)
          | inr old ↦ inl old
        ]
      ]
    ]
  ]

-- The roles that names are resolved to are roles of the store, and assignable.
pub find_assignable_roles-from :
    (s : InMemoryStore) (tenant : String) (application : Option String) (names : List String)
    (r : Role)
    → Elem r (values (find_assignable_roles s tenant application names))
    → Elem r (values s.roles) × (assignable tenant application names r ≡ true)
unfolding find_assignable_roles values
find_assignable_roles-from s tenant application names r m =
    elim (assign_from tenant application names [] (values s.roles) r m) [
      | inl none_yet ↦ absurd none_yet
      | inr found ↦ found
    ]

-- What `find_assignable_roles` returns under a name is a role of that name, wanted, of the given
-- application, of no agent, and bound to the given tenant or to none.
pub find_assignable_roles_sound :
    (s : InMemoryStore) (tenant : String) (application : Option String) (names : List String)
    (name : String) (r : Role)
    → lookup name (find_assignable_roles s tenant application names) ≡ some r
    → (r.name ≡ name)
      × (contains name names ≡ true)
      × (r.application_id ≡ application)
      × (r.agent_id ≡ none)
      × (within tenant r.tenant_id ≡ true)
unfolding find_assignable_roles IsSound lookup
find_assignable_roles_sound s tenant application names name r h =
    let (same, fits) =
      assign-IsSound tenant application names [] (values s.roles) (λ n r' e. absurd (cc)) name r
        h in
    (
      same,
      ground arith,
      ground (arith, (option_eq {A = String}).beq_iff r.application_id application),
      ground arith,
      ground arith,
    )

-- Every assignable role of the store has its name resolved: to a role bound to the tenant if this
-- one is, so that a tenant's own role goes before the application-wide one.
find_assignable_roles-tenant_first :
    (s : InMemoryStore) (tenant : String) (application : Option String) (names : List String)
    (r : Role)
    → Elem r (values s.roles)
    → assignable tenant application names r ≡ true
    → (b : Role) × (lookup r.name (find_assignable_roles s tenant application names) ≡ some b)
      × ((r.tenant_id ≡ none) ⊎ (is_some b.tenant_id ≡ true))
unfolding find_assignable_roles Prefers
find_assignable_roles-tenant_first s tenant application names r m h =
    assign_finds tenant application names [] (values s.roles) r m h
