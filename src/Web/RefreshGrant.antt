-- ===== src/Web/RefreshGrant.antt =====
-- internal/web/token_handler.go, grantRefreshToken.
pub mod Rotation
pub mod Reuse
use omni_identity.Prelude.{
  ℕ, String, Bool, true, false, not, ◌&&◌, ◌||◌, Option, none, some, ◌==◌, ltb, if◌then◌else◌,
}
use mathlib.Core.Option
use omni_identity.Model.{User, Client, Device, RefreshToken, is_active}
use omni_identity.Oidc.Scope.{has_scope, split_scope, scopes_subset, scope_offline_access}
use omni_identity.Store.Io.{Db, Result, ok, err}
use omni_identity.Web.Devices.{active_device}
use omni_identity.Store.RefreshTokens.{
  get_refresh_token_by_hash, rotate_refresh_token, revoke_refresh_tokens_for_user_client,
}
use omni_identity.Web.Server.{Env, Request, State}
use omni_identity.Web.Handler.{
  Handler, HttpError, oauth_error, pure, reject, query, exec, attempt, or_reject, find_or_reject,
  reject_if, when, ◌>>=◌, ◌>>◌,
}
use omni_identity.Web.Grants.{
  invalid_grant, invalid_request, server_error, require_client, require_user, issued,
}
use omni_identity.Web.Issue.{
  TokenResponse, TokenContext, build_access_and_id, new_refresh_token, dpop_jkt,
}

-- The device of the token: none to ask for, or one that must be active.
abbrev pub device_for : Env → String → Db → Option (Option Device)
device_for env id db = if id == "" then some none else Option.map some (active_device env id db)

-- The narrowed scope, if the form asks for one; `none` where it exceeds the grant.
unfoldable pub narrowed : String → String → Option String
narrowed requested granted =
    if requested == ""
    then some granted
    else if scopes_subset (split_scope requested) (split_scope granted)
    then some requested
    else none

abbrev pub replacement :
    Env → Client → User → String → RefreshToken → TokenContext → Option RefreshToken
replacement env client user scope rt tc =
    if has_scope scope scope_offline_access
    then some (new_refresh_token env client user scope rt.auth_time rt.id tc)
    else none

abbrev pub with_refresh : Env → String → TokenResponse → TokenResponse
with_refresh env scope resp =
    if has_scope scope scope_offline_access
    then record resp { refresh_token = env.random_token }
    else resp

-- Reuse of a rotated token: every token of the user and the client is revoked.
abbrev pub revoke_chain : Env → RefreshToken → Handler (Unit {0})
revoke_chain env rt = attempt (revoke_refresh_tokens_for_user_client env.io rt.user_id rt.client_id)

-- From the rotation on.
unfoldable pub rotate :
    Env
    → Request
    → Client
    → User
    → RefreshToken
    → String
    → TokenContext
    → TokenResponse
    → Handler TokenResponse
rotate env req client user rt scope tc resp = do
  won ←
      exec (rotate_refresh_token env.io rt.id (replacement env client user scope rt tc))
        (server_error "could not rotate refresh token")
  when (not won) (revoke_chain env rt >> reject (invalid_grant "refresh token reuse detected"))
  issued env req client user "refresh_token" (with_refresh env scope resp)

-- From the token that is neither revoked nor expired on.
unfoldable pub refresh : Env → Request → Client → RefreshToken → Handler TokenResponse
refresh env req client rt = do
  let jkt = dpop_jkt req
  reject_if (not (rt.dpop_jkt == "") && not (jkt == rt.dpop_jkt))
      (oauth_error 400 "invalid_dpop_proof" "refresh token is bound to a different DPoP key")
  user ← require_user env rt.user_id
  dev ← find_or_reject (device_for env rt.device_id) (invalid_grant "device is not active")
  let tc : TokenContext = record { amr = rt.amr; device = dev; jkt = jkt }
  scope ←
      or_reject (narrowed (req.form "scope") rt.scope)
        (oauth_error 400 "invalid_scope" "scope exceeds the original grant")
  resp ←
      or_reject (build_access_and_id env client user scope "" rt.auth_time tc)
        (server_error "could not issue tokens")
  rotate env req client user rt scope tc resp

unfoldable pub grant_refresh_token : Env → Request → Handler TokenResponse
grant_refresh_token env req = do
  client ← require_client env req
  let raw = req.form "refresh_token"
  reject_if (raw == "") (invalid_request "missing refresh_token")
  rt ←
      query (get_refresh_token_by_hash env.io (env.hash raw))
        (invalid_grant "invalid refresh token")
  reject_if (not (rt.client_id == client.client_id)) (invalid_grant "refresh token client mismatch")
  when rt.revoked (revoke_chain env rt >> reject (invalid_grant "refresh token reuse detected"))
  reject_if (ltb rt.expires_at env.io.now) (invalid_grant "refresh token expired")
  refresh env req client rt
