-- ===== src/Service/Management/Managers.antt =====
-- authz_service/management.py: who is taken for the client that manages an application.
use Prim.Native.String.{◌++◌}
use Prim.Native.Char.{Char, code}
use authz.Base.{
  ℕ, String, false, some, ok, Option-cases, Bool-cases, inl, inr, string_eq, eq_iff, is_blank, ◌≡◌,
  refl, ap, ◌∙◌, arith,
}
use text.Mathlib.TextLemmas.{cons-append, append_cancel_left}
use authz.Tenancy.Models.{Application}
use authz.Security.Principal.{Principal, api_key, token, session, TokenPrincipal}
use authz.Service.Management.{
  ManagementStore, management_guard, caller_label, client_or_subject, is_own_client, check,
}

abbrev first_code : String → ℕ
first_code String.[] = 0
first_code (String.◌∷◌ c s) = code c

first_append : (c : Char) (s t : String) → first_code (String.◌∷◌ c s ++ t) ≡ code c
first_append c s t = ap first_code (cons-append c s t)

first_client : (c : String) → first_code ("client:" ++ c) ≡ b'c'
first_client c = first_append "c" "lient:" c

first_token : (t : String) → first_code ("token:" ++ t) ≡ b't'
first_token t = first_append "t" "oken:" t

first_key : (t : String) → first_code ("apikey:" ++ t) ≡ b'a'
first_key t = first_append "a" "pikey:" t

first_session : (t : String) → first_code ("session:" ++ t) ≡ b's'
first_session t = first_append "s" "ession:" t

no_client : (client label : String) → label ≡ "client:" ++ client → (first_code label ≡ b'c')
no_client client label same = ap first_code same ∙ first_client client

-- Who has the label of a client is a caller by a token that this service issued to this client.
caller_label-client :
    (p : Principal) (oauth_issuer client : String)
    → caller_label p oauth_issuer ≡ "client:" ++ client
    → (t : TokenPrincipal) × (p ≡ token t)
      × (t.client_id ≡ some client)
      × (t.issuer ≡ oauth_issuer)
      × (is_blank oauth_issuer ≡ false)
unfolding caller_label
caller_label-client (api_key k) oauth_issuer client same =
    let a = first_key k.id in
    let c = no_client client ("apikey:" ++ k.id) same in absurd (ground arith)
caller_label-client (session s) oauth_issuer client same =
    let a = first_session s.subject in
    let c = no_client client ("session:" ++ s.subject) same in absurd (ground arith)
caller_label-client (token t) oauth_issuer client same =
    elim (Bool-cases (is_own_client oauth_issuer t t.client_id)) [
      | inr other ↦
          let label = "token:" ++ (t.issuer ++ ("#" ++ client_or_subject t.client_id t.subject)) in
          let here : label ≡ "client:" ++ client = rw other at same in
          let a = first_token (t.issuer ++ ("#" ++ client_or_subject t.client_id t.subject)) in
          let c = no_client client label here in absurd (ground arith)
      | inl own ↦
          let here : "client:" ++ client_or_subject t.client_id t.subject ≡ "client:" ++ client =
            rw own at same in
          let named =
            append_cancel_left "client:" (client_or_subject t.client_id t.subject) client here in
          elim (Option-cases t.client_id) [
            | inl missing ↦ absurd (ground arith)
            | inr (id, is_id) ↦
                (t, refl, ground arith, ground (arith, eq_iff t.issuer oauth_issuer), ground arith)
          ]
    ]

-- Only its manager may write to an application that a client manages: who passes the guard calls with a
-- token that this service issued to this very client.
pub check-client :
    (p : Principal) (store : ManagementStore) (oauth_issuer client : String)
    (app passed : Application)
    → app.managed_by ≡ some ("client:" ++ client)
    → check (management_guard p store oauth_issuer) app ≡ ok passed
    → (t : TokenPrincipal) × (p ≡ token t)
      × (t.client_id ≡ some client)
      × (t.issuer ≡ oauth_issuer)
      × (is_blank oauth_issuer ≡ false)
unfolding check management_guard
check-client p store oauth_issuer client app passed managed h =
    let label = caller_label p oauth_issuer in
    let same : label ≡ "client:" ++ client = ground (arith, eq_iff ("client:" ++ client) label) in
    caller_label-client p oauth_issuer client same
