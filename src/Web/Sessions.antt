-- ===== src/Web/Sessions.antt =====
-- internal/auth/session.go and csrf.go: the session of a browser, which its cookie names.
pub mod Laws
use omni_identity.Prelude.{
  ℕ, ◌+◌, ◌-◌, String, Bool, true, false, not, ◌&&◌, ◌||◌, Option, none, some, ◌∷◌, ◌==◌, ltb,
  if◌then◌else◌,
}
use omni_identity.Model.{Session, is_zero}
use omni_identity.Store.Io.{Db, Result, ok, err, Stmt}
use omni_identity.Store.Sessions.{
  create_session_row, touch_session_row, get_session_row, delete_session_row,
}
use omni_identity.Web.Server.{Env, Request, State}
use omni_identity.Web.Handler.{
  Handler, HttpError, page, Reply, done, pure, attempt, exec, reject_if, ◌>>=◌, ◌>>◌,
}

abbrev pub session_cookie : String
session_cookie = "omni_session"

-- http.SetCookie, by name and value.
unfoldable pub set_cookie : String → String → Handler (Unit {0})
set_cookie name value s = (done tt, record s { cookies = (name, value) ∷ s.cookies })

unfoldable pub new_session : Env → Request → String → String → Session
new_session env req user_id amr = record {
  id = env.new_id;
  user_id = user_id;
  csrf_secret = env.csrf_secret;
  user_agent = req.user_agent;
  created_at = env.io.now;
  expires_at = env.io.now + env.settings.session_lifetime;
  last_seen_at = env.io.now;
  amr = amr;
}

-- The row that the cookie names goes, so that a session id does not outlive a login.
unfoldable pub drop_prior : Env → Request → Db → Db
drop_prior env req db =
    if req.cookie session_cookie == ""
    then db
    else delete_session_row env.io (req.cookie session_cookie) db

-- `e` is what the caller answers where the session cannot be stored.
unfoldable pub issue : Env → Request → String → String → HttpError → Handler Session
issue env req user_id amr e = do
  attempt (drop_prior env req)
  exec (create_session_row env.io (new_session env req user_id amr)) e
  set_cookie session_cookie env.new_id
  pure (new_session env req user_id amr)

abbrev pub last_activity : Session → ℕ
last_activity sess = if is_zero sess.last_seen_at then sess.created_at else sess.last_seen_at

abbrev pub idle : Env → Session → Bool
idle env sess = ltb env.settings.session_idle_timeout (env.io.now - last_activity sess)

-- From the session that the store gives on. Callers do not tell the errors apart.
abbrev pub seen : Env → Result Session → Handler (Option Session)
seen env (err e) s = (done none, s)
seen env (ok sess) s =
    if not (ltb 0 env.settings.session_idle_timeout)
    then (done (some sess), s)
    else if idle env sess
    then (done none, record s { db = delete_session_row env.io sess.id s.db })
    else (
      done (some (record sess { last_seen_at = env.io.now })),
      record s { db = touch_session_row env.io sess.id env.io.now s.db },
    )

unfoldable pub current : Env → Request → Handler (Option Session)
current env req s =
    if req.cookie session_cookie == ""
    then (done none, s)
    else seen env (get_session_row env.io (req.cookie session_cookie) s.db) s

unfoldable pub destroy : Env → Request → HttpError → Handler (Unit {0})
destroy env req e = do
  reject_if (not (req.cookie session_cookie == "") && env.io.fails Stmt.delete_session) e
  attempt (drop_prior env req)
  set_cookie session_cookie ""

abbrev csrf_cookie : String
csrf_cookie = "omni_csrf"

unfoldable pub validate_csrf_token : Request → String → Bool
validate_csrf_token req submitted =
    not (req.cookie csrf_cookie == "" || submitted == "") && req.cookie csrf_cookie == submitted

-- if !auth.ValidateCSRFToken(…) { http.Error(…); return }.
abbrev pub check_csrf : Request → Handler (Unit {0})
check_csrf req =
    reject_if (not (validate_csrf_token req (req.form "csrf_token")))
      (page 403 "invalid CSRF token")
