-- ===== src/Web/Login.antt =====
-- internal/web/auth_handlers.go: the login form. Rows that directories bring are those of
-- Store.Users. A password is verified within one call here, so that `verify_active` is what other
-- requests hold.
pub mod Local
pub mod Directory
pub mod Credentials
pub mod Opens
pub mod Gate
pub mod Parked
pub mod Reauth
use Prim.Native.String.{◌++◌}
use omni_identity.Prelude.{
  ℕ, ◌+◌, ◌-◌, String, Bool, true, false, not, ◌&&◌, ◌||◌, Option, none, some, List, [], ◌∷◌, ◌==◌,
  ltb, leb, if◌then◌else◌,
}
use omni_identity.Prelude.Text.{trim_space, byte_len}
use omni_identity.Model.{User, Session, is_local, is_locked}
use omni_identity.Store.Io.{Db, Result, ok, err}
use omni_identity.Store.Users.{
  get_user_by_username, record_failed_login, reset_failed_logins, count_admins,
  upsert_external_user, Profile,
}
use omni_identity.Web.RateLimit.{RateLimiter, allowed, fail, reset}
use omni_identity.Web.Server.{
  Env, Request, State, login, Identity, Login, failed, rejected, accepted,
}
use omni_identity.Web.Handler.{
  Handler, HttpError, page, see_other, Reply, done, refused, pure, reject, attempt, reject_if, when,
  record_metric, audit, ◌>>=◌, ◌>>◌,
}
use omni_identity.Web.Authorize.{
  Answer, to_page, form_shown, AuthzParams, load_auth_request, peek_auth_request,
  continue_after_auth,
}
use omni_identity.Web.Landing.{redirect_after_login, safe_next, signed_in_landing}
use omni_identity.Web.Mfa.{start_mfa_challenge}
use omni_identity.Web.Sessions.{current, issue, check_csrf}

abbrev pub user_name : Request → String
user_name req = trim_space (req.form "username")

abbrev too_many : HttpError
too_many = page 429 "Too many sign-in attempts. Please wait a few minutes and try again."

abbrev rate_key : Request → String
rate_key req = req.ip ++ ("|" ++ user_name req)

abbrev budget : Bool → Reply (Unit {0})
budget true = done tt
budget false = refused too_many

-- s.loginIPRate.Allowed and s.loginRate.Allowed, and the page where they refuse.
unfoldable pub check_ip_rate : Env → Request → Handler (Unit {0})
check_ip_rate env req s =
    let (free, rl) =
      allowed env.io.now req.ip env.settings.login_ip_max_attempts env.settings.rate_limit_window
        s.login_ip_rate in
    (budget free, record s { login_ip_rate = rl })

unfoldable pub check_login_rate : Env → Request → Handler (Unit {0})
check_login_rate env req s =
    let (free, rl) =
      allowed env.io.now (rate_key req) env.settings.max_failed_logins
        env.settings.rate_limit_window s.login_rate in
    (budget free, record s { login_rate = rl })

unfoldable pub fail_rates : Env → Request → Handler (Unit {0})
fail_rates env req s =
    let window = env.settings.rate_limit_window in
    (
      done tt,
      record s {
        login_ip_rate = fail env.io.now req.ip window s.login_ip_rate;
        login_rate = fail env.io.now (rate_key req) window s.login_rate;
      },
    )

unfoldable pub reset_rates : Request → Handler (Unit {0})
reset_rates req s = (
  done tt,
  record s {
    login_rate = reset (rate_key req) s.login_rate;
    login_ip_rate = reset req.ip s.login_ip_rate;
  },
)

unfoldable pub invalid {ℓ} : {A : Type ℓ} → Env → Request → Handler A
invalid env req = do fail_rates env req; reject (page 401 "Invalid username or password.")

abbrev pub login_audit : Env → Request → String → String → Bool → String → Handler (Unit {0})
login_audit env req event actor success detail = audit env req event (record {
  actor_user_id = actor;
  username = user_name req;
  client_id = "";
  success = success;
  detail = detail;
})

abbrev pub verify_limit : Env → ℕ
verify_limit env =
    if ltb env.settings.password_verify_concurrency 1
    then 4
    else env.settings.password_verify_concurrency

unfoldable pub acquire_password_verify : Env → Handler (Unit {0})
acquire_password_verify env s =
    if leb (verify_limit env) s.verify_active
    then (refused too_many, s)
    else (done tt, record s { verify_active = s.verify_active + 1 })

unfoldable pub release_password_verify : Handler (Unit {0})
release_password_verify s = (done tt, record s { verify_active = s.verify_active - 1 })

abbrev or_zero : Result ℕ → ℕ
or_zero (ok n) = n
or_zero (err e) = 0

unfoldable pub count_failure : Env → User → Handler ℕ
count_failure env user s =
    let (r, db) =
      record_failed_login env.io user.id env.settings.max_failed_logins
        (env.io.now + env.settings.lockout_duration) s.db in
    (done (or_zero r), record s { db = db })

abbrev audit_count : Env → Request → User → ℕ → Handler (Unit {0})
audit_count env req user count =
    if leb env.settings.max_failed_logins count
    then login_audit env req "login.locked" user.id false "locked after failed attempts"
    else login_audit env req "login.failed" user.id false "bad password"

unfoldable pub audit_failure : Env → Request → User → Handler (Unit {0})
audit_failure env req user =
    if user.disabled
    then login_audit env req "login.failed" user.id false "disabled account"
    else count_failure env user >>= audit_count env req user

unfoldable pub refuse_password : Env → Request → User → Handler (Unit {0})
refuse_password env req user = do
  audit_failure env req user
  record_metric (login "local" "failure")
  invalid env req

unfoldable pub refuse_locked : Env → Request → User → Handler (Unit {0})
refuse_locked env req user = do
  record_metric (login "local" "failure")
  login_audit env req "login.locked" user.id false "attempt while locked"
  reject (
      page 429
        "Your account is temporarily locked due to too many failed sign-in attempts. Please try again later.")

abbrev pub password_matches : Env → Request → User → Bool
password_matches env req user = env.verify_password (req.form "password") user.password_hash

unfoldable pub local_login : Env → Request → User → Handler User
local_login env req user = do
  when (is_locked user env.io.now) (refuse_locked env req user)
  acquire_password_verify env
  release_password_verify
  when (not (password_matches env req user) || user.disabled) (refuse_password env req user)
  attempt (reset_failed_logins env.io user.id)
  record_metric (login "local" "success")
  pure user

abbrev pub profile_of : Identity → Profile
profile_of id = record {
  source = id.connector;
  external_id = id.external_id;
  username = id.username;
  email = id.email;
  is_admin = id.is_admin;
}

abbrev pub provisioned : Result User × Db → Option User × Db
provisioned (ok u, db) = (some u, db)
provisioned (err e, db) = (none, db)

-- What a directory's answer leads to, given what the directories after it lead to.
abbrev pub tried : Env → Login → Db → Option User × Db → Option User × Db
tried env (accepted id) db rest =
    provisioned (upsert_external_user env.io env.new_user_id (profile_of id) db)
tried env failed db rest = rest
tried env rejected db rest = rest

-- The first directory that accepts decides.
unfoldable pub auth_via_connectors :
    Env → String → String → List (String → String → Login) → Db → Option User × Db
auth_via_connectors env name password [] db = (none, db)
auth_via_connectors env name password (c ∷ cs) db =
    tried env (c name password) db (auth_via_connectors env name password cs db)

abbrev pub checked_external : Env → Request → Option User → Handler User
checked_external env req none = do
  record_metric (login "ldap" "failure")
  login_audit env req "login.failed" "" false "external: invalid"
  invalid env req
checked_external env req (some u) =
    if u.disabled
    then (do
      record_metric (login u.auth_source "failure")
      login_audit env req "login.failed" u.id false "disabled account"
      invalid env req)
    else (do record_metric (login u.auth_source "success"); pure u)

unfoldable pub external_login : Env → Request → Handler User
external_login env req s =
    let (found, db) =
      auth_via_connectors env (user_name req) (req.form "password") env.connectors s.db in
    checked_external env req found (record s { db = db })

-- The password is verified against a dummy hash, whose result is dropped.
unfoldable pub unknown_login : Env → Request → Handler User
unknown_login env req = do
  acquire_password_verify env
  release_password_verify
  login_audit env req "login.failed" "" false "unknown user"
  record_metric (login "unknown" "failure")
  invalid env req

abbrev pub other_login : Env → Request → List (String → String → Login) → Handler User
other_login env req [] = unknown_login env req
other_login env req (c ∷ cs) = external_login env req

abbrev pub login_of : Env → Request → Result User → Handler User
login_of env req (err e) = other_login env req env.connectors
login_of env req (ok u) =
    if is_local u then local_login env req u else other_login env req env.connectors

-- The source's `switch`: a local password, the directories, or nobody.
unfoldable pub check_credentials : Env → Request → Handler User
check_credentials env req s = login_of env req (get_user_by_username env.io (user_name req) s.db) s

-- A parked request that is gone: a signed-in user is sent on, another sees that it has expired.
abbrev pub request_gone : Env → Request → Option Session → Handler (Option AuthzParams)
request_gone env req (some sess) s =
    (refused (see_other (signed_in_landing env sess.user_id s.db)), s)
request_gone env req none s =
    (do _ ← load_auth_request env (req.form "req"); reject (page 200 "")) s

unfoldable pub gone : Env → Request → Handler (Option AuthzParams)
gone env req = do sess ← current env req; request_gone env req sess

abbrev pub resume_or_gone : Env → Request → Option AuthzParams → Handler (Option AuthzParams)
resume_or_gone env req none = gone env req
resume_or_gone env req (some p) = pure (some p)

unfoldable pub requested_app : Env → Request → Handler (Option AuthzParams)
requested_app env req s =
    if req.form "req" == ""
    then (done none, s)
    else resume_or_gone env req (peek_auth_request env (req.form "req") s.db) s

abbrev pub too_long : Env → Request → Bool
too_long env req =
    ltb env.settings.max_login_username_bytes (byte_len (user_name req))
    || ltb env.settings.max_login_password_bytes (byte_len (req.form "password"))

abbrev landing : String → User → String
landing next user = if next == "" then redirect_after_login user else next

abbrev pub go_on : Env → Request → User → Option AuthzParams → Session → Handler Answer
go_on env req user (some p) sess =
    continue_after_auth env p (req.form "req") user.id env.io.now sess.amr
go_on env req user none sess = pure (to_page (landing (safe_next env (req.form "next")) user) "")

unfoldable pub open_session : Env → Request → User → Option AuthzParams → Handler Answer
open_session env req user p = do
  sess ← issue env req user.id "pwd" (page 500 "could not create session")
  login_audit env req "login.success" user.id true ""
  go_on env req user p sess

-- From the accepted credentials on.
abbrev pub logged_in : Env → Request → User → Option AuthzParams → Handler Answer
logged_in env req user p =
    if user.mfa_enabled
    then start_mfa_challenge env req user (safe_next env (req.form "next")) (req.form "req")
    else open_session env req user p

unfoldable pub handle_login_submit : Env → Request → Handler Answer
handle_login_submit env req = do
  check_csrf req
  check_ip_rate env req
  p ← requested_app env req
  check_login_rate env req
  when (too_long env req) (invalid env req)
  user ← check_credentials env req
  reset_rates req
  logged_in env req user p

abbrev no_admins : Result ℕ → Bool
no_admins (ok n) = not (ltb 0 n)
no_admins (err e) = false

unfoldable pub needs_setup : Env → Db → Bool
needs_setup env db = no_admins (count_admins env.io db)

abbrev pub setup_first : Env → Handler (Unit {0})
setup_first env s = if needs_setup env s.db then (refused (see_other "/setup"), s) else (done tt, s)

abbrev pub signed_in : Env → Request → Session → Option AuthzParams → Handler Answer
signed_in env req sess (some p) s =
    continue_after_auth env p (req.query_param "req") sess.user_id sess.created_at sess.amr s
signed_in env req sess none s = (done (to_page (signed_in_landing env sess.user_id s.db) ""), s)

abbrev pub peek_if_named : Env → String → Db → Option AuthzParams
peek_if_named env id db = if id == "" then none else peek_auth_request env id db

abbrev pub show_form : Env → Request → Handler Answer
show_form env req =
    if req.query_param "req" == ""
    then pure form_shown
    else (do _ ← load_auth_request env (req.query_param "req"); pure form_shown)

abbrev pub form_for : Env → Request → Option Session → Handler Answer
form_for env req (some sess) s =
    signed_in env req sess (peek_if_named env (req.query_param "req") s.db) s
form_for env req none s = show_form env req s

unfoldable pub handle_login_form : Env → Request → Handler Answer
handle_login_form env req = do setup_first env; sess ← current env req; form_for env req sess
