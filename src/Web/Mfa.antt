-- ===== src/Web/Mfa.antt =====
-- internal/web/mfa_handler.go: the second factor of a login.
pub mod Factor
pub mod Gate
use Prim.Native.String.{◌++◌}
use omni_identity.Prelude.{
  ℕ, ◌+◌, ◌*◌, String, Bool, true, false, not, ◌&&◌, ◌||◌, Option, none, some, ◌==◌, if◌then◌else◌,
}
use omni_identity.Prelude.Text.{trim_space}
use omni_identity.Prelude.Digits.{to_lower, remove_char}
use omni_identity.Auth.Totp.{verify_totp}
use omni_identity.Model.{User, Session, LoginChallenge, second}
use omni_identity.Store.Io.{Db, Result, ok, err}
use omni_identity.Store.Clients.{get_user_by_id}
use omni_identity.Store.Mfa.{
  create_login_challenge, get_login_challenge, delete_login_challenge, consume_recovery_code,
}
use omni_identity.Web.RateLimit.{allowed, fail, reset}
use omni_identity.Web.Server.{Env, Request, State, mfa}
use omni_identity.Web.Handler.{
  Handler, HttpError, page, see_other, Reply, done, refused, pure, reject, exec, attempt, or_reject,
  find_or_reject, record_metric, audit, ◌>>=◌, ◌>>◌,
}
use omni_identity.Web.Authorize.{
  Answer, to_page, form_shown, load_auth_request, continue_after_auth,
}
use omni_identity.Web.Landing.{redirect_after_login, safe_next}
use omni_identity.Web.Sessions.{issue, set_cookie, check_csrf}

abbrev mfa_cookie : String
mfa_cookie = "omni_mfa"

abbrev mfa_challenge_ttl : ℕ
mfa_challenge_ttl = 300 * second

abbrev pub mfa_audit : Env → Request → String → User → Bool → Handler (Unit {0})
mfa_audit env req event user success = audit env req event (record {
  actor_user_id = user.id;
  username = user.username;
  client_id = "";
  success = success;
  detail = "";
})

unfoldable pub new_challenge : Env → User → String → String → String → LoginChallenge
new_challenge env user next req_id amr = record {
  id = env.random_token;
  user_id = user.id;
  next = next;
  req = req_id;
  amr = amr;
  created_at = env.io.now;
  expires_at = env.io.now + mfa_challenge_ttl;
}

-- createMFAChallenge with the answer of its caller where it fails.
unfoldable pub create_mfa_challenge :
    Env → Request → User → String → String → String → HttpError → Handler (Unit {0})
create_mfa_challenge env req user next req_id amr e = do
  exec (create_login_challenge env.io (new_challenge env user next req_id amr)) e
  set_cookie mfa_cookie env.random_token
  record_metric (mfa "challenge")
  mfa_audit env req "mfa.challenge" user false

unfoldable pub start_mfa_challenge : Env → Request → User → String → String → Handler Answer
start_mfa_challenge env req user next req_id = do
  create_mfa_challenge env req user next req_id "pwd" (page 500 "could not start MFA")
  pure (to_page "/login/mfa" "")

abbrev of_result : Result LoginChallenge → Option LoginChallenge
of_result (err e) = none
of_result (ok c) = some c

unfoldable pub current_challenge : Env → Request → Db → Option LoginChallenge
current_challenge env req db =
    if req.cookie mfa_cookie == ""
    then none
    else of_result (get_login_challenge env.io (req.cookie mfa_cookie) db)

unfoldable pub handle_mfa_form : Env → Request → Handler Answer
handle_mfa_form env req = do
  _ ← find_or_reject (current_challenge env req) (see_other "/login")
  pure form_shown

unfoldable pub normalize_recovery : String → String
normalize_recovery code = to_lower (remove_char 0x2d (trim_space code))

abbrev pub totp_passes : Env → User → String → Bool
totp_passes env user code = passes (env.decrypt user.totp_secret)
  where
    passes : Option String → Bool
    passes none = false
    passes (some secret) = verify_totp env.hmac env.decode_secret secret code env.io.now

abbrev pub consumed : Result Bool → Bool
consumed (ok b) = b
consumed (err e) = false

-- A one-time code, or else a recovery code, which is used up.
unfoldable pub verify_second_factor : Env → User → String → Db → Bool × Db
verify_second_factor env user code db =
    if code == ""
    then (false, db)
    else if totp_passes env user code
    then (true, db)
    else (let (r, db') =
          consume_recovery_code env.io user.id (env.hash (normalize_recovery code)) db in
        (consumed r, db'))

abbrev pub usable_user : Result User → Option User
usable_user (err e) = none
usable_user (ok u) = if u.disabled || not u.mfa_enabled then none else some u

-- The user of a challenge, or the cookie is cleared and the login starts again.
abbrev pub challenged : Option User → Handler User
challenged none = do set_cookie mfa_cookie ""; reject (see_other "/login")
challenged (some u) = pure u

unfoldable pub challenge_user : Env → LoginChallenge → Handler User
challenge_user env ch s = challenged (usable_user (get_user_by_id env.io ch.user_id s.db)) s

abbrev rate_key : User → String
rate_key user = "mfa|" ++ user.id

unfoldable pub check_mfa_rate : Env → User → Handler (Unit {0})
check_mfa_rate env user s =
    let (free, rl) =
      allowed env.io.now (rate_key user) env.settings.max_failed_logins
        env.settings.rate_limit_window s.mfa_rate in
    (
      (if free
          then done tt
          else refused (page 429 "Too many attempts. Please wait and try again.")),
      record s { mfa_rate = rl },
    )

unfoldable pub fail_mfa_rate : Env → User → Handler (Unit {0})
fail_mfa_rate env user s = (
  done tt,
  record s { mfa_rate = fail env.io.now (rate_key user) env.settings.rate_limit_window s.mfa_rate },
)

unfoldable pub reset_mfa_rate : User → Handler (Unit {0})
reset_mfa_rate user s = (done tt, record s { mfa_rate = reset (rate_key user) s.mfa_rate })

unfoldable pub refuse_code : Env → Request → User → Handler (Unit {0})
refuse_code env req user = do
  fail_mfa_rate env user
  record_metric (mfa "failure")
  mfa_audit env req "mfa.failed" user false
  reject (page 401 "Invalid verification code.")

-- The factor is checked, with what it uses up, and its failure is answered.
abbrev pub factor_checked : Env → Request → User → Bool → Handler (Unit {0})
factor_checked env req user true = pure tt
factor_checked env req user false = refuse_code env req user

unfoldable pub check_factor : Env → Request → User → Handler (Unit {0})
check_factor env req user s =
    let (good, db) = verify_second_factor env user (trim_space (req.form "code")) s.db in
    factor_checked env req user good (record s { db = db })

abbrev pub first_factor : LoginChallenge → String
first_factor ch = if ch.amr == "" then "pwd" else ch.amr

abbrev pub landing : String → User → String
landing next user = if next == "" then redirect_after_login user else next

unfoldable pub resume_after_mfa : Env → LoginChallenge → User → Session → Handler Answer
resume_after_mfa env ch user sess =
    if ch.req == "" then pure (to_page (landing (safe_next env ch.next) user) "") else (do
      p ← load_auth_request env ch.req
      continue_after_auth env p ch.req user.id env.io.now sess.amr)

unfoldable pub finish_mfa : Env → Request → LoginChallenge → User → Handler Answer
finish_mfa env req ch user = do
  reset_mfa_rate user
  attempt (delete_login_challenge env.io ch.id)
  set_cookie mfa_cookie ""
  sess ← issue env req user.id (first_factor ch ++ " otp mfa") (page 500 "could not create session")
  record_metric (mfa "success")
  mfa_audit env req "mfa.success" user true
  resume_after_mfa env ch user sess

unfoldable pub handle_mfa_submit : Env → Request → Handler Answer
handle_mfa_submit env req = do
  check_csrf req
  ch ← find_or_reject (current_challenge env req) (see_other "/login")
  user ← challenge_user env ch
  check_mfa_rate env user
  check_factor env req user
  finish_mfa env req ch user
