-- ===== src/Web/Login/Gate.antt =====
-- What a login needs before it opens a session, and what it opens.
use mathlib.Core.Path.{subst}
use omni_identity.Prelude.{
  true, false, Option, none, some, ◌∷◌, ◌≡◌, refl, ap, ◌∙◌, arith, ◌==◌, Bool-cases, inl, inr,
}
use omni_identity.Model.{User, Session}
use omni_identity.Store.Io.{Db}
use omni_identity.Store.Sessions.{delete_session_row}
use omni_identity.Web.Authorize.{Answer, to_page, AuthzParams, peek_auth_request}
use omni_identity.Web.Handler.{
  ended_as, done, pure, after_bind, after_reject_if, if_taken, if_passed, done_inj, ◌>>=◌, ◌>>◌,
}
use omni_identity.Web.Handler.Refuses.{
  Refuses, reject-Refuses, bind-Refuses, after_refusal, never_done,
}
use omni_identity.Web.Login.{
  requested_app, resume_or_gone, gone, request_gone, check_ip_rate, check_login_rate, reset_rates,
  check_credentials, logged_in, handle_login_submit,
}
use omni_identity.Web.Login.Local.{invalid-Refuses}
use omni_identity.Web.Login.Credentials.{Accepted, check_credentials-Accepted}
use omni_identity.Web.Login.Opens.{open_session-sessions, start_mfa_challenge-sessions}
use omni_identity.Web.Server.{Env, Request, State}
use omni_identity.Web.Sessions.{new_session, drop_prior}

request_gone-Refuses :
    (env : Env) (req : Request) (o : Option Session) → Refuses (request_gone env req o)
request_gone-Refuses env req (some sess) s a e = cc
request_gone-Refuses env req none s a e = bind-Refuses _ _ (λ _. reject-Refuses _) s a e

gone-Refuses : (env : Env) (req : Request) → Refuses (gone env req)
unfolding gone
gone-Refuses env req = bind-Refuses _ _ (λ o. request_gone-Refuses env req o)

resume_or_gone-state :
    (env : Env) (req : Request) (o : Option AuthzParams) (s : State) {p : Option AuthzParams}
    {s' : State}
    → resume_or_gone env req o s ≡ (done p, s')
    → s' ≡ s
unfolding pure
resume_or_gone-state env req (some p) s h = cc
resume_or_gone-state env req none s h =
    absurd (never_done (gone env req) s (gone-Refuses env req) h)

requested_app-state :
    (env : Env) (req : Request) (s : State) {p : Option AuthzParams} {s' : State}
    → requested_app env req s ≡ (done p, s')
    → s' ≡ s
unfolding requested_app
requested_app-state env req s h = elim (Bool-cases (req.form "req" == "")) [
  | inl unnamed ↦ (done_inj (rw unnamed at h)).1
  | inr named ↦
      resume_or_gone-state env req (peek_auth_request env (req.form "req") s.db) s (rw named at h)
]

-- The counters of failed logins are no part of the database.
check_ip_rate-db : (env : Env) (req : Request) (s : State) → (check_ip_rate env req s).1.db ≡ s.db
unfolding check_ip_rate
check_ip_rate-db env req s = refl

check_login_rate-db :
    (env : Env) (req : Request) (s : State) → (check_login_rate env req s).1.db ≡ s.db
unfolding check_login_rate
check_login_rate-db env req s = refl

reset_rates-db : (req : Request) (s : State) → (reset_rates req s).1.db ≡ s.db
unfolding reset_rates
reset_rates-db req s = refl

-- A login that ends well, from the accepted credentials on: with a second factor the sessions are as
-- before; without one the session of the browser's cookie is replaced by a new one of the user.
pub data Opened (env : Env) (req : Request) (user : User) (db db' : Db) (a : Answer) : Type 0 where
  second_factor :
      user.mfa_enabled ≡ true
      → a ≡ to_page "/login/mfa" ""
      → db'.sessions ≡ db.sessions
      → Opened env req user db db' a
  session :
      user.mfa_enabled ≡ false
      → db'.sessions ≡ new_session env req user.id "pwd" ∷ (drop_prior env req db).sessions
      → Opened env req user db db' a

pub drop_prior-sessions :
    (env : Env) (req : Request) (db start : Db)
    → db.sessions ≡ start.sessions
    → (drop_prior env req db).sessions ≡ (drop_prior env req start).sessions
unfolding drop_prior delete_session_row
drop_prior-sessions env req db start same = ground arith

logged_in-Opened :
    (env : Env) (req : Request) (user : User) (p : Option AuthzParams) (s : State) {a : Answer}
    {s' : State}
    → logged_in env req user p s ≡ (done a, s')
    → Opened env req user s.db s'.db a
logged_in-Opened env req user p s h = elim (Bool-cases user.mfa_enabled) [
  | inl mfa ↦
      let (page, kept) =
        start_mfa_challenge-sessions env req user _ _ s (if_taken user.mfa_enabled _ _ s mfa h) in
      second_factor mfa page kept
  | inr plain ↦
      session plain
        (open_session-sessions env req user p s (if_passed user.mfa_enabled _ _ s plain h))
]

-- The sessions are all that the outcome reads.
same-Opened :
    (env : Env) (req : Request) (user : User) (start : Db) (db db' : Db) (a : Answer)
    → db.sessions ≡ start.sessions
    → Opened env req user db db' a
    → Opened env req user start db' a
same-Opened env req user start db db' a same (second_factor mfa page kept) =
    second_factor mfa page (kept ∙ same)
same-Opened env req user start db db' a same (session plain rows) = session plain (
    rows
    ∙ ap (λ xs. new_session env req user.id "pwd" ∷ xs) (drop_prior-sessions env req db start same))

abbrev Outcome : Env → Request → Db → Db → Answer → Type 0
Outcome env req db' db a = (user : User) × Accepted env req db user × Opened env req user db db' a

from_credentials :
    (env : Env) (req : Request) (p : Option AuthzParams) (s : State) {a : Answer} {s' : State}
    → (check_credentials env req >>= λ user. reset_rates req >> logged_in env req user p) s
      ≡ (done a, s')
    → Outcome env req s'.db s.db a
from_credentials env req p s h =
    let (user, good, h1) = after_bind _ _ s h in
    let (_, _, h2) = after_bind _ _ _ h1 in
    let (accepted, rows) = check_credentials-Accepted env req s (ended_as _ good) in
    (
      user,
      accepted,
      same-Opened env req user s.db _ _ _
          (ap (λ db. db.sessions) (reset_rates-db req (check_credentials env req s).1) ∙ rows)
          (logged_in-Opened env req user p _ h2),
    )

-- A login that ends well has accepted the credentials of a user that is enabled: the password of a
-- local account that is not locked; or what the first directory to accept it names as its user, for the
-- account that has this directory and this name in it as its origin, and that only where no local
-- account has the name. A user with a second factor is sent on to it and the sessions are as before; otherwise
-- the session that the browser's cookie names is replaced by a new session of this user.
pub handle_login_submit-Opened :
    (env : Env) (req : Request) (s : State) {a : Answer} {s' : State}
    → handle_login_submit env req s ≡ (done a, s')
    → (user : User) × Accepted env req s.db user × Opened env req user s.db s'.db a
unfolding handle_login_submit
handle_login_submit-Opened env req s {a} {s'} h =
    let (_, h1) = after_reject_if _ _ _ s h in
    let (_, _, h2) = after_bind _ _ s h1 in
    let (p, named, h3) = after_bind _ _ _ h2 in
    let (_, _, h4) = after_bind _ _ _ h3 in
    let (_, h5) = after_refusal _ _ _ _ h4 (invalid-Refuses env req) in
    let same =
      check_login_rate-db env req (requested_app env req (check_ip_rate env req s).1).1
      ∙ (ap (λ x. x.db) (requested_app-state env req (check_ip_rate env req s).1 (ended_as _ named))
          ∙ check_ip_rate-db env req s) in
    subst (λ db. Outcome env req s'.db db a) same (from_credentials env req p _ h5)
