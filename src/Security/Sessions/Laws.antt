-- ===== src/Security/Sessions/Laws.antt =====
-- authzkit/security/sessions.py: login attempts are used once, and pruning ends no live session.
use authz.Base.{
  ℕ, ◌≤◌, String, Bool, false, none, some, [], ◌∷◌, Dict, lookup, lookup-remove, Option-cases,
  Bool-cases, inl, inr, ltb, ◌==◌, ==-refl, string_eq, ◌≡◌, refl, arith,
}
use authz.Storage.Tables.{delete_where}
use authz.Security.Sessions.{
  AdminSession, AdminSessionService, consume_login_attempt, lookup_session, prune_expired,
  session_is_over,
}

missing_after :
    (now : ℕ) (cookie_id state : String) (st : AdminSessionService)
    → lookup cookie_id (consume_login_attempt now cookie_id state st).1.attempts ≡ none
unfolding consume_login_attempt
missing_after now cookie_id state st =
    let removed = lookup-remove cookie_id cookie_id st.attempts in
    elim (Option-cases (lookup cookie_id st.attempts)) [
      | inl missing ↦ rw (consume_login_attempt, missing) missing
      | inr (row, found) ↦ ground (arith, ==-refl cookie_id)
    ]

consume-missing :
    (now : ℕ) (cookie_id state : String) (st : AdminSessionService)
    → lookup cookie_id st.attempts ≡ none
    → consume_login_attempt now cookie_id state st ≡ (none, st)
unfolding consume_login_attempt
consume-missing now cookie_id state st gone = rw (consume_login_attempt, gone) refl

-- A login attempt is consumed by the first callback that presents its cookie, whatever the state that it
-- presents and whatever the time: each later one finds nothing, and changes nothing.
pub consume-consume :
    (now later : ℕ) (cookie_id state other : String) (st : AdminSessionService)
    → let after = (consume_login_attempt now cookie_id state st).1 in
      consume_login_attempt later cookie_id other after ≡ (none, after)
consume-consume now later cookie_id state other st =
    consume-missing later cookie_id other (consume_login_attempt now cookie_id state st).1
      (missing_after now cookie_id state st)

lookup-delete_where :
    {V : Type 0} (p : V → Bool) (k : String) (table : Dict String V) (row : V)
    → lookup k table ≡ some row
    → p row ≡ false
    → lookup k (delete_where p table).1 ≡ some row
unfolding lookup delete_where
lookup-delete_where p k [] row found stays = absurd (cc)
lookup-delete_where p k ((j, v) ∷ table) row found stays = elim (Bool-cases (j == k)) [
  | inl hit ↦ let same : v ≡ row = ground arith in rw (same, stays, hit) refl
  | inr other ↦
      let rest = lookup-delete_where p k table row (ground arith) stays in
      elim (Bool-cases (p v)) [ inl over ↦ rw over rest | inr kept ↦ rw (kept, other) rest ]
]

-- Pruning ends no session that is still live: who looks it up later, and would have found it, finds it.
lookup_session-prune_expired :
    (now later : ℕ) (id : String) (s : AdminSession) (st : AdminSessionService)
    → now ≤ later
    → (lookup_session later id st).0 ≡ some s
    → (lookup_session later id (prune_expired now st).1).0 ≡ some s
unfolding lookup_session prune_expired
lookup_session-prune_expired now later id s st after h =
    elim (Option-cases (lookup id st.sessions)) [
      | inl missing ↦ absurd (ground arith)
      | inr (row, found) ↦ elim (Bool-cases (ltb row.expires_at later)) [
        | inl over ↦ absurd (ground arith)
        | inr live ↦
            let stays : session_is_over now row ≡ false = ground arith in
            let there = lookup-delete_where (session_is_over now) id st.sessions row found stays in
            ground arith
      ]
    ]
