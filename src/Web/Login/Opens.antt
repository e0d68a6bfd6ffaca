-- ===== src/Web/Login/Opens.antt =====
-- What a login that succeeds does to the sessions.
use omni_identity.Prelude.{ℕ, String, true, Option, none, some, List, ◌∷◌, ◌≡◌, refl, ◌∙◌, arith}
use omni_identity.Model.{User, Session}
use omni_identity.Store.Io.{Db, Io, ok}
use omni_identity.Store.Sessions.{create_session_row}
use omni_identity.Web.Authorize.{Answer, to_page, AuthzParams}
use omni_identity.Web.Handler.{
  HttpError, ended_as, done, pure, after_bind, after_exec, after_attempt, done_inj, ◌>>=◌, ◌>>◌,
}
use omni_identity.Web.Handler.Keeps.{Keeps, Keeps-pure}
use omni_identity.Web.Login.{open_session, go_on}
use omni_identity.Web.Mfa.{start_mfa_challenge, create_mfa_challenge}
use omni_identity.Web.Server.{Env, Request, State}
use omni_identity.Web.Sessions.{issue, set_cookie, new_session, drop_prior}
use omni_identity.Model.{AuditEvent, AuthorizationCode, LoginChallenge}
use omni_identity.Store.AuthCodes.{create_auth_code}
use omni_identity.Store.AuthRequests.{delete_auth_request}
use omni_identity.Store.Clients.{append_audit_event}
use omni_identity.Web.Authorize.{issue_code, new_code, continue_after_auth}
use omni_identity.Store.Mfa.{create_login_challenge}
use omni_identity.Web.Mfa.{new_challenge}
use omni_identity.Web.Grants.Keeps.{audit-Keeps}
use omni_identity.Web.Handler.{AuditEntry, audit}
use omni_identity.Web.Handler.Keeps.{
  Keeps-exec, Keeps-or_reject, Keeps-bind, Keeps-attempt, Keeps-if, Keeps-record_metric, kept,
}
use omni_identity.Web.Login.{login_audit}

create_session_row-sessions :
    (io : Io) (r : Session) (db : Db) {u : Unit {0}}
    → (create_session_row io r db).0 ≡ ok u
    → (create_session_row io r db).1.sessions ≡ r ∷ db.sessions
unfolding create_session_row
create_session_row-sessions io r db h = ground arith

pub issue-sessions :
    (env : Env) (req : Request) (user_id amr : String) (e : HttpError) (s : State) {sess : Session}
    {s' : State}
    → issue env req user_id amr e s ≡ (done sess, s')
    → (sess ≡ new_session env req user_id amr)
      × (s'.db.sessions ≡ new_session env req user_id amr ∷ (drop_prior env req s.db).sessions)
unfolding issue set_cookie pure ◌>>=◌
issue-sessions env req user_id amr e s h =
    let h1 = after_attempt (drop_prior env req) _ s h in
    let (u, stored, h2) = after_exec _ e _ _ h1 in
    let (same, state) = done_inj h2 in
    (same, rw state (create_session_row-sessions env.io _ (drop_prior env req s.db) stored))

abbrev pub Sessions : List Session → Db → Type 0
Sessions rows db = db.sessions ≡ rows

-- The other tables' statements leave the sessions alone.
create_auth_code-sessions :
    (io : Io) (c : AuthorizationCode) (db : Db)
    → (create_auth_code io c db).1.sessions ≡ db.sessions
unfolding create_auth_code
create_auth_code-sessions io c db = ground arith

delete_auth_request-sessions :
    (io : Io) (id : String) (db : Db) → (delete_auth_request io id db).sessions ≡ db.sessions
unfolding delete_auth_request
delete_auth_request-sessions io id db = ground arith

append_audit_event-sessions :
    (io : Io) (ev : AuditEvent) (db : Db) → (append_audit_event io ev db).sessions ≡ db.sessions
unfolding append_audit_event
append_audit_event-sessions io ev db = ground arith

create_login_challenge-sessions :
    (io : Io) (c : LoginChallenge) (db : Db)
    → (create_login_challenge io c db).1.sessions ≡ db.sessions
unfolding create_login_challenge
create_login_challenge-sessions io c db = ground arith

module _ (rows : List Session) where
  pub set_cookie-Keeps : (name value : String) → Keeps (Sessions rows) (set_cookie name value)
  unfolding set_cookie
  set_cookie-Keeps name value = record { at = λ s h. h }

  issue_code-Keeps :
      (env : Env) (p : AuthzParams) (user_id : String) (t : ℕ) (amr : String)
      → Keeps (Sessions rows) (issue_code env p user_id t amr)
  unfolding issue_code
  issue_code-Keeps env p user_id t amr =
      Keeps-bind _ _
        (Keeps-exec _ _
          (λ db h. create_auth_code-sessions env.io (new_code env p user_id t amr) db ∙ h))
        (λ _. Keeps-bind _ _ (Keeps-or_reject _ _) (λ _. Keeps-pure _))

  pub continue_after_auth-Keeps :
      (env : Env) (p : AuthzParams) (id user_id : String) (t : ℕ) (amr : String)
      → Keeps (Sessions rows) (continue_after_auth env p id user_id t amr)
  unfolding continue_after_auth
  continue_after_auth-Keeps env p id user_id t amr =
      Keeps-if p.client.skip_consent _ _
        (Keeps-bind _ _ (Keeps-attempt _ (λ db h. delete_auth_request-sessions env.io id db ∙ h))
          (λ _. issue_code-Keeps env p user_id t amr))
        (Keeps-pure _)

  pub audit-Sessions :
      (env : Env) (req : Request) (event : String) (e : AuditEntry)
      → Keeps (Sessions rows) (audit env req event e)
  audit-Sessions env req event e =
      audit-Keeps env (λ ev db h. append_audit_event-sessions env.io ev db ∙ h) req event e

  go_on-Keeps :
      (env : Env) (req : Request) (user : User) (p : Option AuthzParams) (sess : Session)
      → Keeps (Sessions rows) (go_on env req user p sess)
  go_on-Keeps env req user none sess = Keeps-pure _
  go_on-Keeps env req user (some p) sess =
      continue_after_auth-Keeps env p (req.form "req") user.id env.io.now sess.amr

  start_mfa_challenge-Keeps :
      (env : Env) (req : Request) (user : User) (next id : String)
      → Keeps (Sessions rows) (start_mfa_challenge env req user next id)
  unfolding start_mfa_challenge create_mfa_challenge
  start_mfa_challenge-Keeps env req user next id =
      Keeps-bind _ _
        (Keeps-bind _ _
          (Keeps-exec _ _ (λ db h.
            create_login_challenge-sessions env.io (new_challenge env user next id "pwd") db ∙ h))
          (λ _. Keeps-bind _ _ (set_cookie-Keeps _ _) (λ _.
            Keeps-bind _ _ (Keeps-record_metric _)
              (λ _. audit-Sessions env req "mfa.challenge" _))))
        (λ _. Keeps-pure _)

-- What follows a new session leaves the sessions alone.
pub open_session-sessions :
    (env : Env) (req : Request) (user : User) (p : Option AuthzParams) (s : State) {a : Answer}
    {s' : State}
    → open_session env req user p s ≡ (done a, s')
    → s'.db.sessions ≡ new_session env req user.id "pwd" ∷ (drop_prior env req s.db).sessions
unfolding open_session
open_session-sessions env req user p s h =
    let (sess, begun, h1) = after_bind _ _ s h in
    let (same, rows) = issue-sessions env req user.id "pwd" _ s (ended_as _ begun) in
    kept (Sessions _)
      (login_audit env req "login.success" user.id true "" >> go_on env req user p sess) _
      (Keeps-bind _ _ (audit-Sessions _ env req "login.success" _)
        (λ _. go_on-Keeps _ env req user p sess))
      h1 rows

-- So does the start of a second factor.
pub start_mfa_challenge-sessions :
    (env : Env) (req : Request) (user : User) (next id : String) (s : State) {a : Answer}
    {s' : State}
    → start_mfa_challenge env req user next id s ≡ (done a, s')
    → (a ≡ to_page "/login/mfa" "") × (s'.db.sessions ≡ s.db.sessions)
unfolding start_mfa_challenge pure
start_mfa_challenge-sessions env req user next id s h =
    let (u, _, h1) = after_bind _ _ s h in
    (
      (done_inj h1).0,
      kept (Sessions s.db.sessions) (start_mfa_challenge env req user next id) s
          (start_mfa_challenge-Keeps s.db.sessions env req user next id) h refl,
    )
