-- ===== src/Security/Sessions.antt =====
-- authzkit/security/sessions.py: `AdminSessionService` over the tables `admin_login_attempts` and
-- `admin_sessions`. Tokens (`secrets.token_urlsafe`) and the time are arguments; a claim set is a
-- value of the policies.
pub mod Laws
use authz.Base.{
  ℕ, ◌+◌, String, Bool, true, false, not, Option, none, some, List, map, keep, Result, ok, err,
  Dict, lookup, insert, remove, strip, split, join, is_blank, ltb, ◌==◌, string_eq, if◌then◌else◌,
}
use authz.Policies.Value.{Value}
use authz.Storage.Tables.{DbError, add, delete_where}
use authz.Security.Principal.{SessionPrincipal}

pub record LoginAttempt : Type 0 where
  pub id : String
  pub state : String
  pub code_verifier : String
  pub nonce : String
  pub return_to : String
  pub expires_at : ℕ

-- A row of `admin_sessions`; the scopes are one text.
pub record SessionRow : Type 0 where
  pub id : String
  pub subject : String
  pub email : Option String
  pub issuer : String
  pub scopes : String
  pub raw_claims : Value
  pub csrf_token : String
  pub created_at : ℕ
  pub expires_at : ℕ
  pub last_seen_at : Option ℕ

pub record AdminSession : Type 0 where
  pub id : String
  pub subject : String
  pub email : Option String
  pub issuer : String
  pub scopes : List String
  pub raw_claims : Value
  pub csrf_token : String
  pub created_at : ℕ
  pub expires_at : ℕ
  pub last_seen_at : Option ℕ

pub record AdminSessionService : Type 0 where
  pub session_ttl : ℕ
  pub attempt_ttl : ℕ
  pub attempts : Dict String LoginAttempt
  pub sessions : Dict String SessionRow

-- ---- Login attempts

unfoldable pub create_login_attempt :
    (cookie_id state code_verifier nonce return_to : String)
    → (now : ℕ) → AdminSessionService
    → Result DbError (LoginAttempt × AdminSessionService)
create_login_attempt cookie_id state code_verifier nonce return_to now st =
    let row : LoginAttempt = record {
      id = cookie_id;
      state = state;
      code_verifier = code_verifier;
      nonce = nonce;
      return_to = return_to;
      expires_at = now + st.attempt_ttl;
    } in
    elim (add (λ r. false) cookie_id row st.attempts) [
      | err e ↦ err e
      | ok attempts ↦ ok (row, record st { attempts = attempts })
    ]

-- `consume_login_attempt`: the row goes, whatever the answer.
unfoldable pub consume_login_attempt :
    (now : ℕ)
    → (cookie_id state : String) → AdminSessionService
    → Option LoginAttempt × AdminSessionService
consume_login_attempt now cookie_id state st = elim (lookup cookie_id st.attempts) [
  | none ↦ (none, st)
  | some row ↦
      let after = record st { attempts = remove cookie_id st.attempts } in
      if row.state == state
      then (if ltb row.expires_at now then (none, after) else (some row, after))
      else (none, after)
]

-- ---- Sessions

unfoldable pub create_session :
    (sid csrf subject : String)
    → (email : Option String) → (issuer : String) → (scopes : List String) → (raw_claims : Value)
    → (now : ℕ) → AdminSessionService
    → Result DbError (AdminSession × AdminSessionService)
create_session sid csrf subject email issuer scopes raw_claims now st =
    let row : SessionRow = record {
      id = sid;
      subject = subject;
      email = email;
      issuer = issuer;
      scopes = join "," scopes;
      raw_claims = raw_claims;
      csrf_token = csrf;
      created_at = now;
      expires_at = now + st.session_ttl;
      last_seen_at = none;
    } in
    let session : AdminSession = record {
      id = sid;
      subject = subject;
      email = email;
      issuer = issuer;
      scopes = scopes;
      raw_claims = raw_claims;
      csrf_token = csrf;
      created_at = now;
      expires_at = now + st.session_ttl;
      last_seen_at = none;
    } in
    elim (add (λ r. false) sid row st.sessions) [
      | err e ↦ err e
      | ok sessions ↦ ok (session, record st { sessions = sessions })
    ]

-- The stripped parts of the stored scopes that are not empty.
unfoldable pub stored_scopes : String → List String
stored_scopes text = keep (λ s. not (is_blank s)) (map strip (split b',' text))

unfoldable pub session_of : SessionRow → AdminSession
session_of row = record {
  id = row.id;
  subject = row.subject;
  email = row.email;
  issuer = row.issuer;
  scopes = stored_scopes row.scopes;
  raw_claims = row.raw_claims;
  csrf_token = row.csrf_token;
  created_at = row.created_at;
  expires_at = row.expires_at;
  last_seen_at = row.last_seen_at;
}

-- `lookup_session`
unfoldable pub lookup_session :
    (now : ℕ) → String → AdminSessionService → Option AdminSession × AdminSessionService
lookup_session now session_id st = elim (lookup session_id st.sessions) [
  | none ↦ (none, st)
  | some row ↦
      let seen = record row { last_seen_at = some now } in
      if ltb row.expires_at now
      then (none, record st { sessions = remove session_id st.sessions })
      else (some (session_of seen), record st { sessions = insert session_id seen st.sessions })
]

unfoldable pub delete_session : String → AdminSessionService → Bool × AdminSessionService
delete_session session_id st = elim (lookup session_id st.sessions) [
  | none ↦ (false, st)
  | some row ↦ (true, record st { sessions = remove session_id st.sessions })
]

unfoldable pub to_principal : AdminSession → SessionPrincipal
to_principal session = record {
  subject = session.subject;
  email = session.email;
  scopes = session.scopes;
  session_id = session.id;
  csrf_token = session.csrf_token;
  issuer = some session.issuer;
}

abbrev pub session_is_over : (now : ℕ) → SessionRow → Bool
session_is_over now row = ltb row.expires_at now

abbrev pub attempt_is_over : (now : ℕ) → LoginAttempt → Bool
attempt_is_over now row = ltb row.expires_at now

-- `prune_expired`: the number of rows removed
unfoldable pub prune_expired : (now : ℕ) → AdminSessionService → ℕ × AdminSessionService
prune_expired now st =
    let (n, sessions) = delete_where (session_is_over now) st.sessions in
    let (m, attempts) = delete_where (attempt_is_over now) st.attempts in
    (n + m, record st { sessions = sessions; attempts = attempts })
