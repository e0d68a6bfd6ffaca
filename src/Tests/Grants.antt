-- ===== src/Tests/Grants.antt =====
-- The grants on the small server.
use omni_identity.Prelude.{true, false, none, some, [], ◌∷◌, ◌≡◌, ◌≢◌, refl, arith, eq_iff, any}
use omni_identity.Model.{RefreshToken}
use omni_identity.Web.ClientAuth.{authenticate_client}
use omni_identity.Web.Grants.{invalid_grant}
use omni_identity.Web.RefreshGrant.Reuse.{live_of_pair, grant_refresh_token_reuse}
use omni_identity.Store.Io.{ok}
use omni_identity.Store.RefreshTokens.{rotate_refresh_token, get_refresh_token_by_hash}
use omni_identity.Store.RefreshTokens.Spent.{run, revoke_pair, rotate_once}
use omni_identity.Store.AuthCodes.Dead.{consume, sweep}
use omni_identity.Store.AuthCodes.Dead
use omni_identity.Tests.Fixtures.{env, io, db, state, request, app, refresh_token}
use omni_identity.Tests.Opened.{runs}
use omni_identity.Web.CodeGrant.{grant_authorization_code}
use omni_identity.Web.CodeGrant.Redeem.{Redeemed, grant_authorization_code-Redeemed, redeem_once}
use omni_identity.Web.Handler.{done, refused}
use omni_identity.Web.Issue.{TokenResponse}
use omni_identity.Web.RefreshGrant.{grant_refresh_token}
use omni_identity.Web.RefreshGrant.Rotation.{Refreshed, grant_refresh_token-Refreshed}
use omni_identity.Web.Server.{Request, State}

abbrev code_request : Request
code_request = request (
    ("grant_type", "authorization_code")
    ∷ ("code", "c0de")
    ∷ ("redirect_uri", "https://app/cb")
    ∷ ("code_verifier", "v")
    ∷ [])

abbrev code_response : TokenResponse
code_response = record {
  access_token = "jwt";
  token_type = "Bearer";
  expires_in = 900;
  refresh_token = "new-token";
  id_token = "jwt";
  scope = "openid offline_access";
}

abbrev redeemed : State
redeemed = (grant_authorization_code env code_request state).1

code_runs : grant_authorization_code env code_request state ≡ (done code_response, redeemed)
unfolding runs
code_runs = refl

grant_authorization_code-Redeemed_example : Redeemed env code_request state code_response redeemed
grant_authorization_code-Redeemed_example =
    grant_authorization_code-Redeemed env code_request state code_runs

abbrev later_state : State
later_state = record redeemed { db = Dead.run (consume io "c0de" ∷ sweep io 0 ∷ []) redeemed.db }

redeem_once_example :
    grant_authorization_code env code_request later_state ≢ (done code_response, state)
redeem_once_example =
    redeem_once env env code_request code_request state redeemed later_state state code_response
      code_response (consume io "c0de" ∷ sweep io 0 ∷ []) code_runs (tt, (tt, tt)) refl refl

rotation_wins : (rotate_refresh_token io "r1" none db).0 ≡ ok true
unfolding runs
rotation_wins = refl

rotate_once_example :
    (rotate_refresh_token io "r1" none
      (run (revoke_pair io "u1" "app" ∷ []) (rotate_refresh_token io "r1" none db).1)).0
    ≢ ok true
rotate_once_example =
    rotate_once io io "r1" none none db (revoke_pair io "u1" "app" ∷ []) rotation_wins

abbrev refresh_request : Request
refresh_request =
    request
      (("grant_type", "refresh_token") ∷ ("refresh_token", "rt") ∷ ("scope", "openid api") ∷ [])

abbrev refresh_response : TokenResponse
refresh_response = record {
  access_token = "jwt";
  token_type = "Bearer";
  expires_in = 900;
  refresh_token = "";
  id_token = "jwt";
  scope = "openid api";
}

abbrev refreshed : State
refreshed = (grant_refresh_token env refresh_request state).1

refresh_runs : grant_refresh_token env refresh_request state ≡ (done refresh_response, refreshed)
unfolding runs
refresh_runs = refl

grant_refresh_token-Refreshed_example :
    Refreshed env refresh_request state refresh_response refreshed
grant_refresh_token-Refreshed_example =
    grant_refresh_token-Refreshed env refresh_request state refresh_runs

abbrev dead_token : RefreshToken
dead_token = record refresh_token { revoked = true }

abbrev reused : State
reused = record state { db = record db { refresh_tokens = dead_token ∷ refresh_token ∷ [] } }

token_found : get_refresh_token_by_hash io "rt" reused.db ≡ ok dead_token
unfolding runs
token_found = refl

app_authenticated : authenticate_client env refresh_request reused.db ≡ some app
unfolding runs
app_authenticated = refl

grant_refresh_token_reuse_example :
    ((grant_refresh_token env refresh_request reused).0
      ≡ refused (invalid_grant "refresh token reuse detected"))
    × (any
          (live_of_pair "u1" "app")
          (grant_refresh_token env refresh_request reused).1.db.refresh_tokens
        ≡ false)
grant_refresh_token_reuse_example =
    grant_refresh_token_reuse env refresh_request reused app dead_token app_authenticated
      (ground (arith, eq_iff "rt" "")) token_found refl refl refl
