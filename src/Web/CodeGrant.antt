-- ===== src/Web/CodeGrant.antt =====
-- internal/web/token_handler.go, grantAuthorizationCode.
pub mod Redeem
use omni_identity.Prelude.{
  ℕ, String, Bool, true, false, not, ◌&&◌, ◌||◌, Option, none, some, ◌==◌, if◌then◌else◌,
}
use omni_identity.Model.{User, Client, AuthorizationCode, is_public}
use omni_identity.Oidc.Scope.{has_scope, scope_offline_access}
use omni_identity.Oidc.Pkce.{verify_pkce}
use omni_identity.Store.Io.{Db, Result, ok, err}
use omni_identity.Store.Clients.{get_user_by_id}
use omni_identity.Store.AuthCodes.{consume_auth_code}
use omni_identity.Store.RefreshTokens.{create_refresh_token}
use omni_identity.Web.Server.{Env, Request, State}
use omni_identity.Web.Handler.{
  Handler, HttpError, oauth_error, pure, query, exec, or_reject, reject_if, reject_some, when,
  audit, ◌>>=◌, ◌>>◌,
}
use omni_identity.Web.ClientAuth.{authenticate_client, invalid_client}
use omni_identity.Web.Grants.{
  invalid_grant, invalid_request, server_error, require_client, require_user, issue_refresh, issued,
}
use omni_identity.Web.Issue.{
  TokenResponse, TokenContext, build_access_and_id, new_refresh_token, record_token_metrics,
  dpop_jkt,
}

-- What fails of the PKCE checks.
unfoldable pub pkce_error : Env → AuthorizationCode → Client → String → Option HttpError
pkce_error env code client verifier =
    if not (code.code_challenge == "")
    then if verifier == ""
        || not (verify_pkce env.s256 verifier code.code_challenge code.code_challenge_method)
      then some (invalid_grant "PKCE verification failed")
      else none
    else if is_public client
    then some (invalid_grant "PKCE is required")
    else none

-- From the consumed code on.
unfoldable pub redeem : Env → Request → Client → AuthorizationCode → Handler TokenResponse
redeem env req client code = do
  reject_if (not (code.client_id == client.client_id))
      (invalid_grant "code was issued to a different client")
  reject_if (not (code.redirect_uri == req.form "redirect_uri"))
      (invalid_grant "redirect_uri mismatch")
  reject_some (pkce_error env code client (req.form "code_verifier"))
  user ← require_user env code.user_id
  let tc : TokenContext = record { amr = code.amr; device = none; jkt = dpop_jkt req }
  resp ←
      or_reject (build_access_and_id env client user code.scope code.nonce code.auth_time tc)
        (server_error "could not issue tokens")
  resp' ← issue_refresh env client user code.scope code.auth_time tc resp
  issued env req client user "authorization_code" resp'

unfoldable pub grant_authorization_code : Env → Request → Handler TokenResponse
grant_authorization_code env req = do
  client ← require_client env req
  let raw_code = req.form "code"
  reject_if (raw_code == "") (invalid_request "missing code")
  code ←
      exec (consume_auth_code env.io (env.hash raw_code))
        (invalid_grant "invalid or expired authorization code")
  redeem env req client code
