-- ===== src/Web/Introspect.antt =====
-- internal/web/introspect_handler.go and revoke_handler.go: token introspection (RFC 7662), the
-- client_credentials grant, and token revocation (RFC 7009).
pub mod Laws
pub mod Revocation
pub mod Machine
use omni_identity.Prelude.{
  ℕ, ◌/◌, String, Bool, true, false, not, ◌&&◌, ◌||◌, Option, none, some, List, [], ◌∷◌, ◌==◌, ltb,
  if◌then◌else◌,
}
use omni_identity.Prelude.Text.{join}
use omni_identity.Model.{Client, RefreshToken, is_public, second, unix}
use omni_identity.Oidc.Scope.{split_scope, scopes_subset, scope_open_id}
use omni_identity.Store.Io.{Db, Result, ok, err}
use omni_identity.Store.RefreshTokens.{get_refresh_token_by_hash, revoke_refresh_token}
use omni_identity.Tokens.{VerifiedToken, verify, is_access_token, issue_access_token}
use omni_identity.Web.Server.{Env, Request, State}
use omni_identity.Web.Handler.{
  Handler, HttpError, oauth_error, Reply, done, refused, pure, or_reject, reject_if, attempt, audit,
  ◌>>=◌, ◌>>◌,
}
use omni_identity.Web.ClientAuth.{invalid_client}
use omni_identity.Web.Grants.{require_client, server_error}
use omni_identity.Web.Issue.{TokenResponse}

-- The bodies of the answers: `active` is false, or true with what is told of the token.
pub data Introspection : Type 0 where
  inactive : Introspection
  access : String → String → String → Introspection
  refresh : String → String → String → ℕ → Introspection

abbrev pub own_access : Client → Option VerifiedToken → Option VerifiedToken
own_access client none = none
own_access client (some vt) =
    if is_access_token vt && (vt.audience == client.client_id) then some vt else none

abbrev pub refresh_info : Env → Client → Result RefreshToken → Introspection
refresh_info env client (err e) = inactive
refresh_info env client (ok rt) =
    if rt.client_id == client.client_id && (not rt.revoked && ltb env.io.now rt.expires_at)
    then refresh rt.user_id rt.client_id rt.scope (unix rt.expires_at)
    else inactive

-- As an access token first, then as a refresh token.
abbrev pub info_or : Option VerifiedToken → Introspection → Introspection
info_or none other = other
info_or (some vt) other = access vt.subject vt.audience vt.scope

unfoldable pub introspect : Env → Client → String → Db → Introspection
introspect env client token db =
    if token == ""
    then inactive
    else (info_or (own_access client (verify env.issuer token))
        (refresh_info env client (get_refresh_token_by_hash env.io (env.hash token) db)))

abbrev look : Env → Client → String → Handler Introspection
look env client token s = pure (introspect env client token s.db) s

unfoldable pub handle_introspect : Env → Request → Handler Introspection
handle_introspect env req = do
  client ← require_client env req
  reject_if (is_public client) invalid_client
  look env client (req.form "token")

unfoldable pub non_open_id_scopes : List String → List String
non_open_id_scopes [] = []
non_open_id_scopes (s ∷ scopes) =
    let rest = non_open_id_scopes scopes in if s == scope_open_id then rest else s ∷ rest

-- The scope that is granted: all that is allowed by default; `none` where it exceeds that.
unfoldable pub machine_scope : String → Client → Option String
machine_scope scope client =
    let granted = non_open_id_scopes client.allowed_scopes in
    if scope == ""
    then some (join granted)
    else if scopes_subset (split_scope scope) granted
    then some scope
    else none

abbrev pub machine_response : Env → String → String → TokenResponse
machine_response env scope token = record {
  access_token = token;
  token_type = "Bearer";
  expires_in = env.issuer.access_ttl / second;
  refresh_token = "";
  id_token = "";
  scope = scope;
}

unfoldable pub grant_client_credentials : Env → Request → Handler TokenResponse
grant_client_credentials env req = do
  client ← require_client env req
  reject_if (is_public client) invalid_client
  scope ←
      or_reject (machine_scope (req.form "scope") client)
        (oauth_error 400 "invalid_scope" "requested scope is not allowed for this client")
  token ←
      or_reject (issue_access_token env.issuer client.client_id client.client_id scope [])
        (server_error "could not issue access token")
  audit env req "token.issued" (record {
    actor_user_id = "";
    username = "";
    client_id = client.client_id;
    success = true;
    detail = "client_credentials";
  })
  pure (machine_response env scope token)

abbrev pub own_row : Client → Result RefreshToken → Option RefreshToken
own_row client (err e) = none
own_row client (ok rt) = if rt.client_id == client.client_id then some rt else none

abbrev pub revoke_own : Env → Request → Client → Option RefreshToken → Handler (Unit {0})
revoke_own env req client none = pure tt
revoke_own env req client (some rt) = do
  attempt (revoke_refresh_token env.io rt.id)
  audit env req "token.revoked" (record {
    actor_user_id = rt.user_id;
    username = "";
    client_id = client.client_id;
    success = true;
    detail = "";
  })

-- The refresh token of the request, if it is the client's.
unfoldable pub own_token : Env → Client → String → Db → Option RefreshToken
own_token env client raw db =
    if raw == "" then none else own_row client (get_refresh_token_by_hash env.io (env.hash raw) db)

abbrev pub revoke_presented : Env → Request → Client → Handler (Unit {0})
revoke_presented env req client s =
    revoke_own env req client (own_token env client (req.form "token") s.db) s

unfoldable pub handle_revoke : Env → Request → Handler (Unit {0})
handle_revoke env req = do client ← require_client env req; revoke_presented env req client
