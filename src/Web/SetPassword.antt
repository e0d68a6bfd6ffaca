-- ===== src/Web/SetPassword.antt =====
-- internal/web/password_reset_handler.go: a password is set by a token; and the setup of the first
-- administrator in auth_handlers.go, and the logout.
pub mod Once
use Prim.Native.String.{◌++◌, len}
use omni_identity.Prelude.{
  ℕ, ◌+◌, String, Bool, true, false, not, ◌&&◌, ◌||◌, Option, none, some, ◌==◌, ltb, if◌then◌else◌,
}
use omni_identity.Prelude.Text.{trim_space}
use omni_identity.Prelude.Urls.{trim_slashes}
use omni_identity.Auth.Policy.{validate_password}
use omni_identity.Model.{User, Session, PasswordToken, is_local, is_nil, second}
use omni_identity.Store.Io.{Db, Result, ok, err, StoreError}
use omni_identity.Store.Clients.{get_user_by_id}
use omni_identity.Store.PasswordTokens.{
  create_password_token, consume_password_token, get_valid_password_token,
  delete_password_tokens_for_user,
}
use omni_identity.Store.Sessions.{delete_sessions_for_user}
use omni_identity.Store.Users.{create_user, set_user_password}
use omni_identity.Web.Server.{Env, Request}
use omni_identity.Web.Handler.{
  Handler, HttpError, page, see_other, Reply, done, refused, pure, reject, query, exec, attempt,
  or_reject, reject_if, audit, ◌>>=◌, ◌>>◌,
}
use omni_identity.Web.Authorize.{Answer, to_page, form_shown}
use omni_identity.Web.Login.{needs_setup}
use omni_identity.Web.Sessions.{issue, current, destroy, check_csrf}

abbrev pub new_password_token : Env → String → String → ℕ → PasswordToken
new_password_token env user_id purpose ttl = record {
  id = env.new_id;
  user_id = user_id;
  token_hash = env.hash env.random_token;
  purpose = purpose;
  used = false;
  expires_at = env.io.now + ttl;
  created_at = env.io.now;
}

-- The link that is shared, or `e` where the token cannot be stored.
unfoldable pub issue_password_token : Env → String → String → ℕ → HttpError → Handler String
issue_password_token env user_id purpose ttl e = do
  exec (create_password_token env.io (new_password_token env user_id purpose ttl)) e
  pure (trim_slashes env.settings.public_url ++ ("/set-password?token=" ++ env.random_token))

abbrev bad_link : HttpError
bad_link =
    page 400 "This password link is invalid or has expired. Ask an administrator for a new one."

unfoldable pub handle_set_password_form : Env → Request → Handler Answer
handle_set_password_form env req = do
  reject_if (req.query_param "token" == "") (page 400 "This password link is missing its token.")
  _ ← query (get_valid_password_token env.io (env.hash (req.query_param "token"))) bad_link
  pure form_shown

abbrev pub was_consumed : Result (Option PasswordToken) × Db → Result (Unit {0}) × Db
was_consumed (ok (some t), db) = (ok tt, db)
was_consumed (ok none, db) = (err StoreError.not_found, db)
was_consumed (err e, db) = (err e, db)

unfoldable pub spend_token : Env → Request → Db → Result (Unit {0}) × Db
spend_token env req db =
    was_consumed (consume_password_token env.io (env.hash (req.form "token")) db)

abbrev pub problem_of : Env → Request → User → Bool
problem_of env req user = not (
    is_nil (
      validate_password env.char_class (req.form "password") user.username user.email
        env.settings.password_policy))

-- Both errors are dropped.
abbrev pub forget_credentials : Env → User → Db → Db
forget_credentials env user db =
    (delete_sessions_for_user env.io user.id ""
      (delete_password_tokens_for_user env.io user.id db)).1

-- From the spent token on.
unfoldable pub store_password : Env → Request → PasswordToken → User → Handler Answer
store_password env req tok user = do
  hash ← or_reject (env.hash_password (req.form "password")) (page 500 "internal error")
  exec (set_user_password env.io user.id hash) (page 500 "could not set password")
  attempt (forget_credentials env user)
  audit env req "password.set_via_token" (record {
    actor_user_id = user.id;
    username = user.username;
    client_id = "";
    success = true;
    detail = tok.purpose;
  })
  pure (to_page "/login?notice=password-set" "")

-- The message of the policy stands for each of its problems.
unfoldable pub handle_set_password_submit : Env → Request → Handler Answer
handle_set_password_submit env req = do
  check_csrf req
  tok ← query (get_valid_password_token env.io (env.hash (req.form "token"))) bad_link
  user ← query (get_user_by_id env.io tok.user_id) (page 400 "This account is no longer available.")
  reject_if (not (is_local user)) (page 400 "This account is managed by an external directory.")
  reject_if (not (req.form "password" == req.form "confirm"))
      (page 400 "The two passwords don't match.")
  reject_if (problem_of env req user) (page 400 "The password breaks the policy.")
  exec (spend_token env req) (page 400 "This password link is invalid or has expired.")
  store_password env req tok user

unfoldable pub handle_logout : Env → Request → Handler Answer
handle_logout env req = do
  check_csrf req
  sess ← current env req
  destroy env req (page 500 "logout failed")
  audit env req "logout" (record {
    actor_user_id = actor sess;
    username = "";
    client_id = "";
    success = true;
    detail = "";
  })
  pure form_shown
  where
    actor : Option Session → String
    actor none = ""
    actor (some sess) = sess.user_id
