-- ===== src/Web/Grants.antt =====
-- internal/web/token_handler.go and its neighbours: the steps that the grants share. Each is written
-- out in every grant of the source.
pub mod Keeps
use omni_identity.Prelude.{
  ℕ, String, Bool, true, false, not, ◌&&◌, ◌||◌, Option, none, some, ◌==◌, if◌then◌else◌,
}
use omni_identity.Model.{User, Client}
use omni_identity.Oidc.Scope.{has_scope, scope_offline_access}
use omni_identity.Store.Io.{Db, Result, ok, err}
use omni_identity.Store.Clients.{get_user_by_id}
use omni_identity.Store.RefreshTokens.{create_refresh_token}
use omni_identity.Web.Server.{Env, Request, State}
use omni_identity.Web.Handler.{
  Handler, HttpError, oauth_error, pure, query, exec, find_or_reject, reject_if, when, audit, ◌>>=◌,
  ◌>>◌,
}
use omni_identity.Web.ClientAuth.{authenticate_client, invalid_client}
use omni_identity.Web.Issue.{TokenResponse, TokenContext, new_refresh_token, record_token_metrics}

abbrev pub invalid_grant : String → HttpError
invalid_grant desc = oauth_error 400 "invalid_grant" desc

abbrev pub invalid_request : String → HttpError
invalid_request desc = oauth_error 400 "invalid_request" desc

abbrev pub server_error : String → HttpError
server_error desc = oauth_error 500 "server_error" desc

abbrev pub enabled : Result User → Option User
enabled (err e) = none
enabled (ok u) = if u.disabled then none else some u

-- user, err := GetUserByID(id); err != nil || user.Disabled.
unfoldable pub available_user : Env → String → Db → Option User
available_user env id db = enabled (get_user_by_id env.io id db)

unfoldable pub require_client : Env → Request → Handler Client
require_client env req = find_or_reject (authenticate_client env req) invalid_client

unfoldable pub require_user : Env → String → Handler User
require_user env id = find_or_reject (available_user env id) (invalid_grant "user is not available")

-- The refresh token of an offline_access grant; the response carries its plain value.
unfoldable pub issue_refresh :
    Env → Client → User → String → ℕ → TokenContext → TokenResponse → Handler TokenResponse
issue_refresh env client user scope auth_time tc resp =
    if has_scope scope scope_offline_access
    then (do
      exec (create_refresh_token env.io (new_refresh_token env client user scope auth_time "" tc))
          (server_error "could not issue refresh token")
      pure (record resp { refresh_token = env.random_token }))
    else pure resp

unfoldable pub issued :
    Env → Request → Client → User → String → TokenResponse → Handler TokenResponse
issued env req client user detail resp = do
  record_token_metrics resp
  audit env req "token.issued" (record {
    actor_user_id = user.id;
    username = user.username;
    client_id = client.client_id;
    success = true;
    detail = detail;
  })
  pure resp
