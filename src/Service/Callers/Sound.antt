-- ===== src/Service/Callers/Sound.antt =====
-- authz_service/dependencies.py: what a caller that `require_caller` admits has shown.
use authz.Base.{
  ℕ, String, true, false, Option, none, some, ok, any, contains, Option-cases, Result-cases,
  Bool-cases, ◌==◌, string_eq, option_eq, eq_iff, ◌≡◌, ◌⊎◌, inl, inr, arith,
}
use authz.Security.ApiKeys.{ApiKeyRecord, find_active}
use authz.Security.Principal.{Principal, api_key, token, session, TokenPrincipal, SessionPrincipal}
use authz.Security.Sessions.{AdminSession, lookup_session, to_principal}
use authz.Service.Callers.{
  CallerSettings, JwtResolver, CallRequest, CallerTables, opaque, jwt, env_record, env_key_record,
  extract_credential, resolve_api_key, dev_bypass_active, resolve_session,
}
use authz.Service.Callers.Require.{require_caller, enforce_csrf, mutating_methods}

module _ (hash lower replace : String → String) (now : ℕ) (request : CallRequest)
    (settings : CallerSettings) (resolver : Option JwtResolver) (tables : CallerTables) where
  -- The credential is a configured key, or finds an active stored key.
  abbrev pub ShowsKey : Principal → Type 0
  ShowsKey p =
      (value : String) × (r : ApiKeyRecord) × (extract_credential lower request.authorization
          request.x_api_key
        ≡ some (opaque value))
      × (p ≡ api_key r)
      × ((any (λ known. value == known) settings.api_keys ≡ true)
          ⊎ ((find_active hash now value tables.keys).0 ≡ some r))

  -- The credential is a token that the resolver accepts.
  abbrev pub ShowsToken : Principal → Type 0
  ShowsToken p =
      (value : String) × (r : JwtResolver) × (t : TokenPrincipal) × (extract_credential lower
          request.authorization request.x_api_key
        ≡ some (jwt value))
      × (resolver ≡ some r)
      × (r.resolve value ≡ ok t)
      × (p ≡ token t)

  -- There is no credential, and the cookie names a live session; a method that changes anything has the
  -- session's CSRF token.
  abbrev pub ShowsSession : Principal → Type 0
  ShowsSession p =
      (id : String) × (s : AdminSession) × (extract_credential lower request.authorization
          request.x_api_key
        ≡ none)
      × (request.session_cookie ≡ some id)
      × ((lookup_session now id tables.sessions).0 ≡ some s)
      × (p ≡ session (to_principal s))
      × ((contains request.method mutating_methods ≡ false)
          ⊎ (request.x_csrf_token ≡ (to_principal s).csrf_token))

  by_key :
      (p : Principal) (value : String)
      → dev_bypass_active lower settings tables.keys resolver ≡ false
      → extract_credential lower request.authorization request.x_api_key ≡ some (opaque value)
      → (require_caller hash lower replace now request settings resolver tables).0 ≡ ok p
      → ShowsKey p
  unfolding require_caller resolve_api_key env_key_record
  by_key p value checked given h =
      elim (Bool-cases (any (λ known. value == known) settings.api_keys)) [
        | inl known ↦ (value, env_record value, given, ground arith, inl known)
        | inr unknown ↦ elim (Option-cases (find_active hash now value tables.keys).0) [
          | inl missing ↦ absurd (ground arith)
          | inr (r, found) ↦ (value, r, given, ground arith, inr found)
        ]
      ]

  by_token :
      (p : Principal) (value : String)
      → dev_bypass_active lower settings tables.keys resolver ≡ false
      → extract_credential lower request.authorization request.x_api_key ≡ some (jwt value)
      → (require_caller hash lower replace now request settings resolver tables).0 ≡ ok p
      → ShowsToken p
  unfolding require_caller
  by_token p value checked given h = elim (Option-cases resolver) [
    | inl missing ↦ absurd (ground arith)
    | inr (r, found) ↦ elim (Result-cases (r.resolve value)) [
      | inr (e, refused) ↦ absurd (ground arith)
      | inl (t, accepted) ↦ (value, r, t, given, found, accepted, ground arith)
    ]
  ]

  csrf_checked :
      (s : SessionPrincipal)
      → enforce_csrf request s ≡ ok tt
      → (contains request.method mutating_methods ≡ false) ⊎ (request.x_csrf_token ≡ s.csrf_token)
  unfolding enforce_csrf
  csrf_checked s h = elim (Bool-cases (contains request.method mutating_methods)) [
    | inr reads ↦ inl reads
    | inl writes ↦ inr (ground (arith, eq_iff request.x_csrf_token s.csrf_token))
  ]

  by_session :
      (p : Principal)
      → dev_bypass_active lower settings tables.keys resolver ≡ false
      → extract_credential lower request.authorization request.x_api_key ≡ none
      → (require_caller hash lower replace now request settings resolver tables).0 ≡ ok p
      → ShowsSession p
  unfolding require_caller resolve_session
  by_session p checked given h = elim (Option-cases request.session_cookie) [
    | inl missing ↦ absurd (ground arith)
    | inr (id, cookie) ↦ elim (Option-cases (lookup_session now id tables.sessions).0) [
      | inl gone ↦ absurd (ground arith)
      | inr (s, found) ↦ elim (Result-cases (enforce_csrf request (to_principal s))) [
        | inr (e, refused) ↦ absurd (ground arith)
        | inl (u, matched) ↦
            (id, s, given, cookie, found, ground arith, csrf_checked (to_principal s) matched)
      ]
    ]
  ]

  -- Where the bypass for development is off, a caller is admitted only by a configured or an active stored
  -- API key, by a token that the resolver of OAuth tokens accepts, or, without any such credential, by the
  -- cookie of a live session, with its CSRF token where the method changes anything.
  pub require_caller_sound :
      (p : Principal)
      → dev_bypass_active lower settings tables.keys resolver ≡ false
      → (require_caller hash lower replace now request settings resolver tables).0 ≡ ok p
      → ShowsKey p ⊎ ShowsToken p ⊎ ShowsSession p
  require_caller_sound p checked h =
      elim (Option-cases (extract_credential lower request.authorization request.x_api_key)) [
        | inl given ↦ inr (inr (by_session p checked given h))
        | inr (opaque value, given) ↦ inl (by_key p value checked given h)
        | inr (jwt value, given) ↦ inr (inl (by_token p value checked given h))
      ]
