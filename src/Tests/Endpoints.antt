-- ===== src/Tests/Endpoints.antt =====
-- The rate limiter, the tokens and the endpoints about tokens on the small server.
use omni_identity.Prelude.{
  String, ◌≡◌, ◌↔◌, ℕ, ◌+◌, ◌*◌, true, false, some, none, List, [], ◌∷◌, All, refl, ltb,
  count_where,
}
use omni_identity.Prelude.Text.{IsToken, fields-IsToken}
use omni_identity.Model.{Client, second, is_public}
use omni_identity.Oidc.Scope.{scopes_subset, contains, split_scope, scope_open_id}
use omni_identity.Oidc.Scope.Laws.{Within, scopes_subset-Within}
use omni_identity.Store.Sweep.{swept, sweep_expired}
use omni_identity.Store.Sweep.Laws.{without_expired, sweep_expired-without_expired}
use omni_identity.Tests.Fixtures.{db, io, env, state, request, start, alice, app, fresh_limiter}
use omni_identity.Tests.Opened.{runs}
use omni_identity.Tokens.{
  obj, Claims, Issuer, Jwt, VerifiedToken, access_claims, issue_access_token, verify,
  is_access_token, is_device_token, as_obj, as_str, claim,
}
use omni_identity.Tokens.Laws.{at_time, verify-issue_access_token}
use omni_identity.Web.ClientAuth.{authenticate_client}
use omni_identity.Web.Handler.{done}
use omni_identity.Web.Introspect.{
  Introspection, refresh, handle_introspect, handle_revoke, non_open_id_scopes,
  grant_client_credentials,
}
use omni_identity.Web.Introspect.Laws.{MayTell, handle_introspect-MayTell}
use omni_identity.Web.Introspect.Machine.{grant_client_credentials-Within}
use omni_identity.Web.Introspect.Revocation.{Revocation, handle_revoke-Revocation}
use omni_identity.Web.Issue.{TokenResponse, TokenContext, build_access_and_id}
use omni_identity.Web.Issue.Laws.{IssuedTokens, build_access_and_id-IssuedTokens}
use omni_identity.Web.RateLimit.{allowed, reset, normalize_max}
use omni_identity.Web.RateLimit.Laws.{Attempt, fail_all, of_key, allowed-fail_all, allowed-reset}
use omni_identity.Web.Server.{Request, State}

abbrev quarter : ℕ
quarter = 900 * second

abbrev attempts : List Attempt
attempts = ("10.0.0.1", start) ∷ ("10.0.0.2", start) ∷ []

allowed-fail_all_example :
    (allowed start "10.0.0.1" 5 quarter
      (fail_all (("10.0.0.1", start) ∷ attempts) quarter fresh_limiter)).0
    ≡ ltb (1 + count_where (of_key "10.0.0.1") attempts) (normalize_max 5)
unfolding runs
allowed-fail_all_example =
    allowed-fail_all "10.0.0.1" start start 5 quarter attempts fresh_limiter refl (refl, (refl, tt))
      refl

abbrev others : List Attempt
others = ("10.0.0.2", start) ∷ []

allowed-reset_example :
    (allowed start "10.0.0.1" 1 quarter
      (fail_all others quarter (reset "10.0.0.1" fresh_limiter))).0
    ≡ true
unfolding runs
allowed-reset_example = allowed-reset "10.0.0.1" start 1 quarter others fresh_limiter refl

abbrev token_request : Request
token_request = request (("token", "rt") ∷ [])

abbrev told : Introspection
told = refresh "u1" "app" "openid offline_access api" 1_764_406_800

introspect_runs : handle_introspect env token_request state ≡ (done told, state)
unfolding runs
introspect_runs = refl

handle_introspect-MayTell_example :
    (state ≡ state)
    × ((client : Client) × (authenticate_client env token_request state.db ≡ some client)
        × (is_public client ≡ false)
        × MayTell env client (token_request.form "token") state.db told)
handle_introspect-MayTell_example =
    handle_introspect-MayTell env token_request state introspect_runs

abbrev revoked : State
revoked = (handle_revoke env token_request state).1

revoke_runs : handle_revoke env token_request state ≡ (done tt, revoked)
unfolding runs
revoke_runs = refl

handle_revoke-Revocation_example :
    (client : Client) × (authenticate_client env token_request state.db ≡ some client)
    × Revocation env client (token_request.form "token") state.db revoked.db.refresh_tokens
handle_revoke-Revocation_example = handle_revoke-Revocation env token_request state revoke_runs

abbrev machine_request : Request
machine_request = request (("grant_type", "client_credentials") ∷ [])

abbrev machine_answer : TokenResponse
machine_answer = record {
  access_token = "jwt";
  token_type = "Bearer";
  expires_in = 900;
  refresh_token = "";
  id_token = "";
  scope = "offline_access api";
}

abbrev answered : State
answered = (grant_client_credentials env machine_request state).1

machine_runs : grant_client_credentials env machine_request state ≡ (done machine_answer, answered)
unfolding runs
machine_runs = refl

app_authenticates : authenticate_client env machine_request state.db ≡ some app
unfolding runs
app_authenticates = refl

app_scopes : All IsToken app.allowed_scopes
unfolding runs
app_scopes = fields-IsToken "openid offline_access api"

grant_client_credentials-Within_example :
    (is_public app ≡ false)
    × Within (split_scope machine_answer.scope) (non_open_id_scopes app.allowed_scopes)
    × (contains (split_scope machine_answer.scope) scope_open_id ≡ false)
    × (issue_access_token env.issuer app.client_id app.client_id machine_answer.scope []
        ≡ some machine_answer.access_token)
    × (machine_answer.token_type ≡ "Bearer")
    × (machine_answer.refresh_token ≡ "")
    × (machine_answer.id_token ≡ "")
grant_client_credentials-Within_example =
    grant_client_credentials-Within env machine_request state app app_authenticates app_scopes
      machine_runs

-- A JWT layer whose one text stands for one set of claims.
abbrev one_token : Claims → Jwt
one_token m = record { sign = λ _. some "t"; parse = λ _ _. some m; parse_signed = λ _. some m }

abbrev blank : Issuer
blank = env.issuer

abbrev signed : Claims
signed = access_claims blank "u1" "app" "openid" (("cnf", obj "jkt" "k1") ∷ [])

abbrev issuer : Issuer
issuer = record blank { jwt = one_token signed }

token_issued :
    issue_access_token issuer "u1" "app" "openid" (("cnf", obj "jkt" "k1") ∷ []) ≡ some "t"
unfolding runs
token_issued = refl

claims_read :
    issuer.jwt.parse start "t"
    ≡ some (access_claims issuer "u1" "app" "openid" (("cnf", obj "jkt" "k1") ∷ []))
unfolding runs
claims_read = refl

verify-issue_access_token_example :
    (vt : VerifiedToken) × (verify (at_time issuer start) "t" ≡ some vt)
    × (vt.subject ≡ "u1")
    × (vt.audience ≡ "app")
    × (vt.scope ≡ "openid")
    × (is_access_token vt ≡ true)
    × (is_device_token vt ≡ false)
    × (vt.jkt ≡ as_obj "jkt" (claim "cnf" (("cnf", obj "jkt" "k1") ∷ [])))
    × (vt.device_id ≡ as_str (claim "device_id" (("cnf", obj "jkt" "k1") ∷ [])))
verify-issue_access_token_example =
    verify-issue_access_token issuer "u1" "app" "openid" (("cnf", obj "jkt" "k1") ∷ []) "t" start
      token_issued (λ _. claims_read)

abbrev context : TokenContext
context = record { amr = "pwd"; device = none; jkt = "k1" }

abbrev answer : TokenResponse
answer = record {
  access_token = "jwt";
  token_type = "DPoP";
  expires_in = 900;
  refresh_token = "";
  id_token = "jwt";
  scope = "openid";
}

answer_built : build_access_and_id env app alice "openid" "n" start context ≡ some answer
unfolding runs
answer_built = refl

build_access_and_id-IssuedTokens_example :
    IssuedTokens env app alice "openid" "n" start context answer
build_access_and_id-IssuedTokens_example =
    build_access_and_id-IssuedTokens env app alice "openid" "n" start context answer_built

scopes_subset-Within_example :
    (scopes_subset ("openid" ∷ []) ("api" ∷ "openid" ∷ []) ≡ true)
    ↔ Within ("openid" ∷ []) ("api" ∷ "openid" ∷ [])
scopes_subset-Within_example = scopes_subset-Within ("openid" ∷ []) ("api" ∷ "openid" ∷ [])

abbrev sweep_counts : List (String × ℕ)
sweep_counts =
    ("sessions", 0)
    ∷ ("authorization_codes", 1)
    ∷ ("auth_requests", 0)
    ∷ ("login_challenges", 0)
    ∷ ("password_tokens", 0)
    ∷ ("device_codes", 2)
    ∷ ("webauthn_ceremonies", 0)
    ∷ ("device_assertion_jtis", 0)
    ∷ []

abbrev hour_later : ℕ
hour_later = start + 3600 * second

sweep_runs : (sweep_expired io hour_later db).0 ≡ swept sweep_counts
unfolding runs
sweep_runs = refl

sweep_expired-without_expired_example :
    (sweep_expired io hour_later db).1 ≡ without_expired start hour_later db
sweep_expired-without_expired_example =
    sweep_expired-without_expired io hour_later db sweep_counts sweep_runs
