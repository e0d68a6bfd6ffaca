-- ===== src/Web/Userinfo.antt =====
-- internal/web/userinfo_handler.go: what a bearer of an access token is told of its user.
pub mod Told
use omni_identity.Prelude.{
  String, Bool, true, false, not, Option, none, some, List, [], ◌∷◌, ◌==◌, if◌then◌else◌,
}
use omni_identity.Prelude.Text.{trim_space}
use omni_identity.Prelude.Urls.{cut_space}
use omni_identity.Model.{User}
use omni_identity.Oidc.Scope.{has_scope, scope_profile, scope_email}
use omni_identity.Tokens.{
  Claims, Value, str, strs, flag, put, VerifiedToken, verify, is_access_token,
}
use omni_identity.Web.Grants.{available_user}
use omni_identity.Web.Handler.{
  Handler, HttpError, oauth_error, pure, or_reject, find_or_reject, reject_if, ◌>>=◌, ◌>>◌,
}
use omni_identity.Web.Issue.{with_groups}
use omni_identity.Web.Server.{Env, Request}

abbrev after_scheme : Option (String × String) → String
after_scheme none = ""
after_scheme (some (scheme, token)) = if scheme == "Bearer" then trim_space token else ""

-- The prefix `Bearer `, with its space, is cut off.
unfoldable pub bearer_token : Request → String
bearer_token req = after_scheme (cut_space req.authorization)

abbrev pub access_only : Option VerifiedToken → Option VerifiedToken
access_only none = none
access_only (some vt) = if is_access_token vt then some vt else none

abbrev pub put_if : Bool → String → Value → Claims → Claims
put_if b k v m = if b then put k v m else m

unfoldable pub user_claims : User → String → Claims
user_claims user scope =
    let told_email = has_scope scope scope_email in
    let told_profile = has_scope scope scope_profile in
    with_groups
      (put_if told_profile "name" (str user.username) (
        put_if told_profile "preferred_username" (str user.username) (
          put_if told_email "email_verified" (flag true)
            (put_if told_email "email" (str user.email) (("sub", str user.id) ∷ [])))))
      user

abbrev pub invalid_token : String → HttpError
invalid_token desc = oauth_error 401 "invalid_token" desc

unfoldable pub handle_userinfo : Env → Request → Handler Claims
handle_userinfo env req = do
  reject_if (bearer_token req == "") (invalid_token "missing bearer token")
  vt ←
      or_reject (access_only (verify env.issuer (bearer_token req)))
        (invalid_token "invalid or expired access token")
  user ← find_or_reject (available_user env vt.subject) (invalid_token "user is not available")
  pure (user_claims user vt.scope)
