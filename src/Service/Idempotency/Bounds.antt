-- ===== src/Service/Idempotency/Bounds.antt =====
-- authz_service/middleware.py: the loop that evicts ends, and the cache stays within its bound.
use authz.Base.{
  ℕ, zero, suc, ◌+◌, ◌≤◌, ◌<◌, String, some, [], ◌∷◌, insert, remove, ltb, Option-cases, Bool-cases,
  inl, inr, ◌==◌, string_eq, eq_iff, ◌≡◌, refl, sym, arith,
}
use authz.Service.Idempotency.{Entry, Cache, size, oldest, without, evict, put}

remove-le : (key : String) (cache : Cache) → size (remove key cache) ≤ size cache
unfolding size remove
remove-le key [] = omega arith
remove-le key ((k, e) ∷ cache) = let rest = remove-le key cache in ground arith

-- The oldest entry stands in the cache.
oldest-lt :
    (cache : Cache) (key : String) (entry : Entry)
    → oldest cache ≡ some (key, entry)
    → size (remove key cache) < size cache
unfolding size remove oldest
oldest-lt [] key entry h = absurd (cc)
oldest-lt ((k, e) ∷ cache) key entry h =
    let least = remove-le key cache in
    elim (Bool-cases (k == key)) [
      | inl hit ↦ rw hit (omega arith)
      | inr other ↦ elim (Option-cases (oldest cache)) [
        | inl missing ↦ absurd (ground (arith, eq_iff k key))
        | inr ((j, d), found) ↦
            let same : j ≡ key = ground (arith, eq_iff k key) in
            let less : size (remove key cache) < size cache =
              rw⁻¹ same (oldest-lt cache j d found) in
            rw other (omega arith)
      ]
    ]

oldest-some : (cache : Cache) → 0 < size cache → (e : String × Entry) × (oldest cache ≡ some e)
unfolding size oldest
oldest-some [] h = absurd (omega arith)
oldest-some (e ∷ cache) h = elim (Option-cases (oldest cache)) [
  | inl missing ↦ (e, rw missing refl)
  | inr (other, found) ↦ elim (Bool-cases (ltb (other.1).expires_at (e.1).expires_at)) [
    | inl before ↦ (other, rw (found, before) refl)
    | inr after ↦ (e, rw (found, after) refl)
  ]
]

turn : (cache : Cache) → 0 < size cache → size (without (oldest cache) cache) < size cache
turn cache h =
    let ((key, entry), found) = oldest-some cache h in rw found (oldest-lt cache key entry found)

evict-le :
    (fuel max_entries : ℕ) (cache : Cache)
    → size cache ≤ fuel
    → size (evict fuel max_entries cache) ≤ max_entries
unfolding evict
evict-le zero max_entries cache enough = omega arith
evict-le (suc fuel) max_entries cache enough = elim (Bool-cases (ltb max_entries (size cache))) [
  | inr fits ↦ rw fits (ground arith)
  | inl over ↦
      let smaller = turn cache (ground arith) in
      rw over (evict-le fuel max_entries (without (oldest cache) cache) (omega arith))
]

evict_empty :
    (fuel max_entries : ℕ) (cache : Cache) → size cache ≤ 0 → evict fuel max_entries cache ≡ cache
unfolding evict
evict_empty zero max_entries cache none_left = refl
evict_empty (suc fuel) max_entries cache none_left =
    elim (Bool-cases (ltb max_entries (size cache))) [
      | inr fits ↦ rw fits refl
      | inl over ↦ absurd (ground arith)
    ]

-- The loop has ended: any fuel that the number of entries does not exceed gives the same.
evict_enough :
    (fuel other max_entries : ℕ) (cache : Cache)
    → size cache ≤ fuel
    → size cache ≤ other
    → evict fuel max_entries cache ≡ evict other max_entries cache
unfolding evict
evict_enough zero other max_entries cache enough also =
    sym (evict_empty other max_entries cache enough)
evict_enough (suc fuel) zero max_entries cache enough also =
    evict_empty (suc fuel) max_entries cache also
evict_enough (suc fuel) (suc other) max_entries cache enough also =
    elim (Bool-cases (ltb max_entries (size cache))) [
      | inr fits ↦ rw fits refl
      | inl over ↦
          let smaller = turn cache (ground arith) in
          let rest = without (oldest cache) cache in
          rw over (evict_enough fuel other max_entries rest (omega arith) (omega arith))
    ]

-- After `put` the cache has at most `max_entries` entries, and the loop that evicts has ended: with any
-- fuel that is not below the number of entries it gives the same cache.
pub put-le :
    (max_entries now : ℕ) (key : String) (status : ℕ) (body content_type : String) (ttl fuel : ℕ)
    (cache : Cache)
    → let after = put max_entries now key status body content_type ttl cache in
      let grown =
        insert key
          (record {
            status = status;
            body = body;
            content_type = content_type;
            expires_at = now + ttl;
          })
          cache in
      size grown ≤ fuel → (size after ≤ max_entries) × (evict fuel max_entries grown ≡ after)
unfolding put
put-le max_entries now key status body content_type ttl fuel cache enough =
    let grown =
      insert key
        (record {
          status = status;
          body = body;
          content_type = content_type;
          expires_at = now + ttl;
        })
        cache in
    (
      evict-le (size grown) max_entries grown (omega arith),
      evict_enough fuel (size grown) max_entries grown enough (omega arith),
    )
