-- ===== src/Web/Mfa/Gate.antt =====
-- What the second factor of a login needs before it opens a session.
use mathlib.Core.Path.{subst}
use Prim.Native.String.{◌++◌}
use omni_identity.Prelude.{String, true, some, List, ◌∷◌, ◌≡◌, refl, ap, ◌∙◌, arith, ◌==◌}
use omni_identity.Prelude.Text.{trim_space}
use omni_identity.Model.{User, Session, LoginChallenge}
use omni_identity.Store.Io.{Db, Io}
use omni_identity.Store.Mfa.{delete_login_challenge}
use omni_identity.Web.Authorize.{Answer, load_auth_request}
use omni_identity.Web.Handler.{
  done, after_bind, after_find, after_reject_if, after_attempt, ended_as, ◌>>◌, record_metric,
}
use omni_identity.Web.Handler.Keeps.{
  Keeps, Keeps-bind, Keeps-query, Keeps-find_or_reject, Keeps-reject_if, Keeps-pure, Keeps-if,
  Keeps-record_metric, kept,
}
use omni_identity.Web.Login.Opens.{
  Sessions, issue-sessions, continue_after_auth-Keeps, audit-Sessions,
}
use omni_identity.Web.Mfa.{
  current_challenge, challenged, challenge_user, check_mfa_rate, first_factor, resume_after_mfa,
  finish_mfa, reset_mfa_rate, mfa_audit, handle_mfa_submit,
}
use omni_identity.Web.Server.{Env, Request, State, mfa}
use omni_identity.Web.Sessions.{new_session, drop_prior, set_cookie}
use omni_identity.Web.Login.Gate.{drop_prior-sessions}
use omni_identity.Web.Mfa.Factor.{
  FactorHeld, check_factor-FactorHeld, Challenged, challenge_user-Challenged,
}

load_auth_request-Keeps :
    (P : Db → Type 0) (env : Env) (id : String) → Keeps P (load_auth_request env id)
unfolding load_auth_request
load_auth_request-Keeps P env id = Keeps-bind _ _ (Keeps-query _ _) (λ a.
    Keeps-bind _ _ (Keeps-find_or_reject _ _)
      (λ c. Keeps-bind _ _ (Keeps-reject_if _ _) (λ _. Keeps-pure _)))

resume_after_mfa-Keeps :
    (rows : List Session) (env : Env) (ch : LoginChallenge) (user : User) (sess : Session)
    → Keeps (Sessions rows) (resume_after_mfa env ch user sess)
unfolding resume_after_mfa
resume_after_mfa-Keeps rows env ch user sess = Keeps-if (ch.req == "") _ _ (Keeps-pure _) (
    Keeps-bind _ _ (load_auth_request-Keeps (Sessions rows) env ch.req)
      (λ p. continue_after_auth-Keeps rows env p ch.req user.id env.io.now sess.amr))

abbrev opened_by : Env → Request → LoginChallenge → User → Session
opened_by env req ch user = new_session env req user.id (first_factor ch ++ " otp mfa")

reset_mfa_rate-db : (user : User) (s : State) → (reset_mfa_rate user s).1.db ≡ s.db
unfolding reset_mfa_rate
reset_mfa_rate-db user s = refl

check_mfa_rate-db : (env : Env) (user : User) (s : State) → (check_mfa_rate env user s).1.db ≡ s.db
unfolding check_mfa_rate
check_mfa_rate-db env user s = refl

cleared-sessions :
    (io : Io) (id : String) (db : Db) → (delete_login_challenge io id db).sessions ≡ db.sessions
unfolding delete_login_challenge
cleared-sessions io id db = ground arith

finish_mfa-sessions :
    (env : Env) (req : Request) (ch : LoginChallenge) (user : User) (s : State) {a : Answer}
    {s' : State}
    → finish_mfa env req ch user s ≡ (done a, s')
    → s'.db.sessions ≡ opened_by env req ch user ∷ (drop_prior env req s.db).sessions
unfolding finish_mfa set_cookie reset_mfa_rate
finish_mfa-sessions env req ch user s h =
    let (_, _, h1) = after_bind _ _ s h in
    let h2 = after_attempt (delete_login_challenge env.io ch.id) _ _ h1 in
    let (_, _, h3) = after_bind _ _ _ h2 in
    let (sess, begun, h4) = after_bind _ _ _ h3 in
    let (same, rows) = issue-sessions env req user.id _ _ _ (ended_as _ begun) in
    let opened =
      rows
      ∙ ap (λ xs. opened_by env req ch user ∷ xs)
          (drop_prior-sessions env req
            (delete_login_challenge env.io ch.id (reset_mfa_rate user s).1.db) s.db
            (cleared-sessions env.io ch.id (reset_mfa_rate user s).1.db)) in
    kept (Sessions (opened_by env req ch user ∷ (drop_prior env req s.db).sessions))
      (record_metric (mfa "success")
        >> (mfa_audit env req "mfa.success" user true >> resume_after_mfa env ch user sess))
      _
      (Keeps-bind _ _ (Keeps-record_metric _) (λ _.
        Keeps-bind _ _ (audit-Sessions _ env req "mfa.success" _)
          (λ _. resume_after_mfa-Keeps _ env ch user sess)))
      h4 opened

-- What a login by a second factor has: a challenge of the browser, the user it was made for, and a
-- factor of this user.
pub record SecondFactor (env : Env) (req : Request) (s s' : State) : Type 0 where
  pub challenge : LoginChallenge
  pub user : User
  pub pending : current_challenge env req s.db ≡ some challenge
  pub challenged : Challenged env challenge s.db user
  pub factor : FactorHeld env user (trim_space (req.form "code")) s.db
  pub sessions :
      s'.db.sessions
      ≡ new_session env req user.id (first_factor challenge ++ " otp mfa")
        ∷ (drop_prior env req s.db).sessions

-- A second step of a login that ends well comes with a challenge that the browser's cookie names and
-- that has not expired; the user of the challenge is enabled and still has a second factor, and the
-- code is a one-time code of the user's secret, or an unused recovery code of this user. The session
-- that the cookie names is replaced by a new one of this user, with the first factor and the second.
pub handle_mfa_submit-SecondFactor :
    (env : Env) (req : Request) (s : State) {a : Answer} {s' : State}
    → handle_mfa_submit env req s ≡ (done a, s')
    → SecondFactor env req s s'
unfolding handle_mfa_submit
handle_mfa_submit-SecondFactor env req s h =
    let (_, h1) = after_reject_if _ _ _ s h in
    let (ch, pending, h2) = after_find _ _ _ s h1 in
    let (user, found, h3) = after_bind _ _ s h2 in
    let (state, challenged) = challenge_user-Challenged env ch s (ended_as _ found) in
    let (_, _, h4) = after_bind _ _ _ h3 in
    let (_, checked, h5) = after_bind _ _ _ h4 in
    let (factor, kept) = check_factor-FactorHeld env req user _ (ended_as _ checked) in
    let before = check_mfa_rate-db env user (challenge_user env ch s).1 ∙ ap (λ x. x.db) state in
    record {
      challenge = ch;
      user = user;
      pending = pending;
      challenged = challenged;
      factor = subst (FactorHeld env user (trim_space (req.form "code"))) before factor;
      sessions =
          finish_mfa-sessions env req ch user _ h5
          ∙ ap (λ xs. opened_by env req ch user ∷ xs)
              (drop_prior-sessions env req _ s.db (kept ∙ ap (λ x. x.sessions) before));
    }
