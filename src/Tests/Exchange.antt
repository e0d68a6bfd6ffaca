-- ===== src/Tests/Exchange.antt =====
-- A token exchange and a call of userinfo on the small server.
use omni_identity.Prelude.{String, ◌≡◌, ◌↔◌, false, some, List, [], ◌∷◌, refl, ◌==◌}
use mathlib.Core.List.{Memᴰ}
use omni_identity.Prelude.Text.{join}
use omni_identity.Model.{Client, RefreshToken}
use omni_identity.Oidc.Scope.{split_scope}
use omni_identity.Pop.{Proof}
use omni_identity.Store.Io.{Db}
use omni_identity.Tests.Fixtures.{db, env, state, request, start, alice, app, refresh_token}
use omni_identity.Tests.Opened.{runs}
use omni_identity.Tokens.{Claims, Issuer, str, obj, access_claims, issue_access_token}
use omni_identity.Web.Grants.{available_user}
use omni_identity.Web.Handler.{done}
use omni_identity.Web.Server.{Env, Request, State}
use omni_identity.Web.TokenExchange.{
  TokenExchangeResponse, token_type_access, token_type_refresh, intersect_scopes, exchange_scope,
  grant_token_exchange,
}
use omni_identity.Web.TokenExchange.DefaultScope.{offered, exchange_scope_default}
use omni_identity.Web.TokenExchange.Delegation.{Exchanged, grant_token_exchange-Exchanged}
use omni_identity.Web.Userinfo.{bearer_token, handle_userinfo}
use omni_identity.Web.Userinfo.Told.{Told, handle_userinfo-Told}

abbrev enrollment : Client
enrollment = record app {
  client_id = "omni-enrollment";
  allowed_scopes = "openid" ∷ "profile" ∷ "device:enroll" ∷ [];
}

abbrev device_grant : RefreshToken
device_grant = record refresh_token {
  token_hash = "device-rt";
  client_id = "omni-enrollment";
  scope = "openid profile api";
  device_id = "dev1";
  dpop_jkt = "k1";
}

abbrev exchange_db : Db
exchange_db = record db { clients = enrollment ∷ app ∷ []; refresh_tokens = device_grant ∷ [] }

abbrev before : State
before = record state { db = exchange_db }

abbrev device_token : Claims
device_token = ("sub", str "dev1") ∷ ("token_use", str "device") ∷ ("cnf", obj "jkt" "k1") ∷ []

abbrev device_env : Env
device_env = record env {
  issuer = record {
    jwt = record {
      sign = λ _. some "jwt";
      parse = λ _ _. some device_token;
      parse_signed = λ _. some device_token;
    };
    name = "https://id";
    access_ttl = env.issuer.access_ttl;
    id_ttl = env.issuer.id_ttl;
    now = start;
  };
}

abbrev key_proof : Proof
key_proof = record {
  jkt = "k1";
  jti = "p1";
  htm = "POST";
  htu = "https://id/oauth2/token";
  ath = "";
  issued_at = start;
}

abbrev fields : List (String × String)
fields =
    ("subject_token_type", token_type_refresh)
    ∷ ("subject_token", "device-rt")
    ∷ ("actor_token_type", token_type_access)
    ∷ ("actor_token", "device-jwt")
    ∷ ("audience", "app")
    ∷ []

abbrev exchange_request : Request
exchange_request = record (request fields) {
  basic_auth = some ("omni-enrollment", "s3cret");
  proof = some key_proof;
}

abbrev after : State
after = (grant_token_exchange device_env exchange_request before).1

abbrev exchanged : TokenExchangeResponse
exchanged = record {
  access_token = "jwt";
  issued_token_type = token_type_access;
  token_type = "Bearer";
  expires_in = 900;
  scope = "openid api";
}

exchange_runs : grant_token_exchange device_env exchange_request before ≡ (done exchanged, after)
unfolding runs
exchange_runs = refl

grant_token_exchange-Exchanged_example :
    Exchanged device_env exchange_request before exchanged after
grant_token_exchange-Exchanged_example =
    grant_token_exchange-Exchanged device_env exchange_request before exchange_runs

exchange_scope_default_example :
    (exchange_scope "" (split_scope "openid profile api") app.allowed_scopes
      ≡ offered (intersect_scopes (split_scope "openid profile api") app.allowed_scopes))
    × (split_scope (join (intersect_scopes (split_scope "openid profile api") app.allowed_scopes))
        ≡ intersect_scopes (split_scope "openid profile api") app.allowed_scopes)
    × ((s : String)
        → Memᴰ s (intersect_scopes (split_scope "openid profile api") app.allowed_scopes)
          ↔ (Memᴰ s (split_scope "openid profile api") × Memᴰ s app.allowed_scopes))
exchange_scope_default_example = exchange_scope_default "openid profile api" app.allowed_scopes

-- A JWT layer whose one text stands for the access token of alice.
abbrev unsigned : Issuer
unsigned = env.issuer

abbrev alice_claims : Claims
alice_claims = access_claims unsigned "u1" "app" "openid email" []

abbrev alice_issuer : Issuer
alice_issuer = record unsigned {
  jwt = record {
    sign = λ _. some "t";
    parse = λ _ _. some alice_claims;
    parse_signed = λ _. some alice_claims;
  };
}

abbrev alice_env : Env
alice_env = record env { issuer = alice_issuer }

abbrev bearer : Request
bearer = record (request []) { authorization = "Bearer t" }

alice_issued :
    issue_access_token alice_issuer alice.id "app" "openid email" [] ≡ some (bearer_token bearer)
unfolding runs
alice_issued = refl

alice_read :
    alice_issuer.jwt.parse alice_env.issuer.now (bearer_token bearer)
    ≡ some (access_claims alice_issuer alice.id "app" "openid email" [])
unfolding runs
alice_read = refl

userinfo_given : (bearer_token bearer == "") ≡ false
unfolding runs
userinfo_given = refl

alice_here : available_user alice_env alice.id state.db ≡ some alice
unfolding runs
alice_here = refl

handle_userinfo-Told_example :
    (m : Claims) × (handle_userinfo alice_env bearer state ≡ (done m, state))
    × Told alice "openid email" m
handle_userinfo-Told_example =
    handle_userinfo-Told alice_env bearer state alice alice_issuer "app" "openid email" [] refl
      alice_issued (λ _. alice_read) userinfo_given alice_here
