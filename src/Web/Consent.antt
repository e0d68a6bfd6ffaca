-- ===== src/Web/Consent.antt =====
-- internal/web/consent_handler.go: the consent of a signed-in user. What a page shows, beyond its
-- being shown, is left out.
use Prim.Native.String.{◌++◌}
use omni_identity.Prelude.{ℕ, String, Bool, true, false, ◌==◌, if◌then◌else◌}
use omni_identity.Model.{Session, is_zero}
use omni_identity.Store.AuthRequests.{delete_auth_request}
use omni_identity.Store.Clients.{get_user_by_id}
use omni_identity.Web.Server.{Env, Request}
use omni_identity.Web.Handler.{
  Handler, HttpError, see_other, pure, reject, query, or_reject, attempt, audit, ◌>>=◌, ◌>>◌,
}
use omni_identity.Web.Authorize.{
  Answer, form_shown, AuthzParams, load_auth_request, issue_code, redirect_err,
}
use omni_identity.Web.Sessions.{current, check_csrf}

abbrev to_login : String → HttpError
to_login req_id = see_other ("/login?req=" ++ req_id)

-- Without a session the browser is sent to log in, with the same request.
unfoldable pub require_session : Env → Request → String → Handler Session
require_session env req req_id = do sess ← current env req; or_reject sess (to_login req_id)

unfoldable pub handle_consent_form : Env → Request → Handler Answer
handle_consent_form env req = do
  p ← load_auth_request env (req.query_param "req")
  sess ← require_session env req (req.query_param "req")
  user ← query (get_user_by_id env.io sess.user_id) (to_login (req.query_param "req"))
  pure form_shown

abbrev pub login_time : Env → Session → ℕ
login_time env sess = if is_zero sess.created_at then env.io.now else sess.created_at

abbrev consent_audit : Env → Request → String → Session → AuthzParams → Bool → Handler (Unit {0})
consent_audit env req event sess p success = audit env req event (record {
  actor_user_id = sess.user_id;
  username = "";
  client_id = p.client.client_id;
  success = success;
  detail = "";
})

unfoldable pub deny_consent : Env → Request → Session → AuthzParams → Handler Answer
deny_consent env req sess p = do
  attempt (delete_auth_request env.io (req.form "req"))
  consent_audit env req "consent.denied" sess p false
  reject (redirect_err env p.redirect_uri "access_denied" "the user denied the request" p.state)

unfoldable pub grant_consent : Env → Request → Session → AuthzParams → Handler Answer
grant_consent env req sess p = do
  attempt (delete_auth_request env.io (req.form "req"))
  consent_audit env req "consent.granted" sess p true
  issue_code env p sess.user_id (login_time env sess) sess.amr

abbrev pub consented : Env → Request → Session → AuthzParams → Handler Answer
consented env req sess p =
    if req.form "action" == "allow"
    then grant_consent env req sess p
    else deny_consent env req sess p

unfoldable pub handle_consent_submit : Env → Request → Handler Answer
handle_consent_submit env req = do
  check_csrf req
  p ← load_auth_request env (req.form "req")
  sess ← require_session env req (req.form "req")
  consented env req sess p
