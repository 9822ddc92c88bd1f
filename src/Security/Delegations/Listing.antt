-- ===== src/Security/Delegations/Listing.antt =====
-- authzkit/security/delegations.py: `DelegationService.get` and `list`; and `paginate_params` of
-- authz_service/middleware.py.
use authz.Base.{
  ℕ, zero, suc, ◌-◌, ◌*◌, String, Bool, true, not, ◌&&◌, ◌||◌, Option, none, some, List, [], ◌∷◌,
  keep, values, lookup, ltb, leb, ◌==◌, string_eq, if◌then◌else◌,
}
use authz.Security.Delegations.{DelegationGrant, Grants, is_active}

unfoldable pub get : String → Grants → Option DelegationGrant
get grant_id grants = lookup grant_id grants

abbrev selected : Option String → String → Bool
selected none column = true
selected (some x) column = x == "" || column == x

abbrev created : DelegationGrant → ℕ
created g = elim (g.created_at) [ none ↦ 0 | some t ↦ t ]

-- `order_by(created_at.desc())`
unfoldable pub put_newest : DelegationGrant → List DelegationGrant → List DelegationGrant
put_newest g [] = g ∷ []
put_newest g (other ∷ grants) =
    let rest = put_newest g grants in
    if ltb (created g) (created other) then other ∷ rest else g ∷ other ∷ grants

unfoldable pub newest_first : List DelegationGrant → List DelegationGrant
newest_first [] = []
newest_first (g ∷ grants) = put_newest g (newest_first grants)

unfoldable pub drop : ℕ → List DelegationGrant → List DelegationGrant
drop zero grants = grants
drop (suc n) [] = []
drop (suc n) (g ∷ grants) = drop n grants

unfoldable pub limited : ℕ → List DelegationGrant → List DelegationGrant
limited zero grants = []
limited (suc n) [] = []
limited (suc n) (g ∷ grants) = g ∷ limited n grants

unfoldable pub list :
    (tenant_id user_id agent_id : Option String)
    → (active_only : Bool) → (now offset limit : ℕ) → Grants
    → List DelegationGrant
list tenant_id user_id agent_id active_only now offset limit grants = limited limit (
    drop offset (
      newest_first (
        keep
          (λ (g : DelegationGrant).
            selected tenant_id g.tenant_id
            && selected user_id g.user_id
            && selected agent_id g.agent_id
            && (not active_only || is_active now g))
          (values grants))))

-- `paginate_params`: the offset and the limit
unfoldable pub paginate_params : (page page_size : ℕ) → ℕ × ℕ
paginate_params page page_size =
    let first_page = if leb 1 page then page else 1 in
    let capped = if leb page_size 500 then page_size else 500 in
    let size = if leb 1 capped then capped else 1 in ((first_page - 1) * size, size)
