-- ===== src/Web/SetPassword/Once.antt =====
-- A token sets one password.
use mathlib.Core.Path.{subst}
use omni_identity.Prelude.{
  ℕ, String, true, false, Option, none, some, ◌≡◌, ◌≢◌, refl, ap, ◌∙◌, arith, leb, ◌==◌,
  eq_of_refusal, find, any, any-find, none-delete_where, Bool-cases, inl, inr,
}
use omni_identity.Model.{User, PasswordToken, AuditEvent, is_local}
use omni_identity.Store.Io.{Db, Io, Result, ok, err, Stmt}
use omni_identity.Store.Clients.{get_user_by_id, append_audit_event}
use omni_identity.Store.PasswordTokens.{
  usable, consume_password_token, delete_password_tokens_for_user,
}
use omni_identity.Store.PasswordTokens.Once.{
  Spent, consume_password_token-Spent, get_valid_password_token-usable,
}
use omni_identity.Store.Sessions.{delete_sessions_for_user}
use omni_identity.Store.Users.{set_user_password}
use omni_identity.Web.Authorize.{Answer}
use omni_identity.Web.Authorize.Valid.{true_of}
use omni_identity.Web.Grants.Keeps.{audit-Keeps}
use omni_identity.Web.Handler.{done, after_query, after_exec, after_reject_if}
use omni_identity.Web.Handler.Keeps.{
  Keeps, Keeps-bind, Keeps-or_reject, Keeps-exec, Keeps-attempt, Keeps-pure, kept,
}
use omni_identity.Web.Server.{Env, Request, State}
use omni_identity.Web.SetPassword.{
  spend_token, was_consumed, problem_of, forget_credentials, store_password,
  handle_set_password_submit,
}

spend_token-Spent :
    (env : Env) (req : Request) (db : Db) {u : Unit {0}}
    → (spend_token env req db).0 ≡ ok u
    → Spent (env.hash (req.form "token")) env.io.now (spend_token env req db).1
unfolding spend_token
spend_token-Spent env req db e = consumed _ refl e
  where
    consumed :
        (r : Result (Option PasswordToken) × Db) {u : Unit {0}}
        → consume_password_token env.io (env.hash (req.form "token")) db ≡ r
        → (was_consumed r).0 ≡ ok u
        → Spent (env.hash (req.form "token")) env.io.now (was_consumed r).1
    consumed (ok (some t), db') same e =
        subst (λ x. Spent (env.hash (req.form "token")) env.io.now x.1) same
          (consume_password_token-Spent env.io (env.hash (req.form "token")) db
            (ap (λ x. x.0) same))
    consumed (ok none, db') same e = absurd (cc)
    consumed (err x, db') same e = absurd (cc)

module _ (h : String) (now : ℕ) where
  set_user_password-Spent :
      (io : Io) (id hash : String) (db : Db)
      → Spent h now db
      → Spent h now (set_user_password io id hash db).1
  unfolding set_user_password
  set_user_password-Spent io id hash db spent t later = ground (arith, spent t later)

  delete_tokens-Spent :
      (io : Io) (id : String) (db : Db)
      → Spent h now db
      → Spent h now (delete_password_tokens_for_user io id db)
  unfolding delete_password_tokens_for_user
  delete_tokens-Spent io id db spent t later =
      elim (Bool-cases (io.fails Stmt.delete_user_password_tokens)) [
        | inl bad ↦ rw bad (spent t later)
        | inr fine ↦ rw fine (
            none-delete_where (usable h t) (λ x. x.user_id == id) db.password_tokens
              (spent t later))
      ]

  delete_sessions-tokens :
      (io : Io) (id keep : String) (db : Db)
      → (delete_sessions_for_user io id keep db).1.password_tokens ≡ db.password_tokens
  unfolding delete_sessions_for_user
  delete_sessions-tokens io id keep db = ground arith

  forget_credentials-Spent :
      (env : Env) (user : User) (db : Db)
      → Spent h now db
      → Spent h now (forget_credentials env user db)
  forget_credentials-Spent env user db spent t later =
      ap (any (usable h t)) (
        delete_sessions-tokens env.io user.id ""
          (delete_password_tokens_for_user env.io user.id db))
      ∙ delete_tokens-Spent env.io user.id db spent t later

  append_audit_event-Spent :
      (io : Io) (ev : AuditEvent) (db : Db)
      → Spent h now db
      → Spent h now (append_audit_event io ev db)
  unfolding append_audit_event
  append_audit_event-Spent io ev db spent t later = ground (arith, spent t later)

  store_password-Keeps :
      (env : Env) (req : Request) (tok : PasswordToken) (user : User)
      → Keeps (Spent h now) (store_password env req tok user)
  unfolding store_password
  store_password-Keeps env req tok user = Keeps-bind _ _ (Keeps-or_reject _ _) (λ hash.
      Keeps-bind _ _ (Keeps-exec _ _ (λ db p. set_user_password-Spent env.io user.id hash db p))
        (λ _.
          Keeps-bind _ _ (Keeps-attempt _ (λ db p. forget_credentials-Spent env user db p)) (λ _.
            Keeps-bind _ _
              (audit-Keeps env (λ ev db p. append_audit_event-Spent env.io ev db p) _ _ _)
              (λ _. Keeps-pure _))))

-- What a request that sets a password has: a token that could be used, of a local user, and a password
-- that the policy of the settings accepts.
pub record PasswordSet (env : Env) (req : Request) (s s' : State) : Type 0 where
  pub token : PasswordToken
  pub user : User
  pub stored :
      find (usable (env.hash (req.form "token")) env.io.now) s.db.password_tokens ≡ some token
  pub owner : get_user_by_id env.io token.user_id s.db ≡ ok user
  pub local : is_local user ≡ true
  pub repeated : req.form "password" ≡ req.form "confirm"
  pub accepted : problem_of env req user ≡ false
  pub spent : Spent (env.hash (req.form "token")) env.io.now s'.db

-- A request that sets a password carries a token that is stored, unused and not expired, of a local
-- user, and gives twice the same password, with which the policy has no problem; afterwards no token
-- with this hash can be used, then or later.
pub handle_set_password_submit-PasswordSet :
    (env : Env) (req : Request) (s : State) {a : Answer} {s' : State}
    → handle_set_password_submit env req s ≡ (done a, s')
    → PasswordSet env req s s'
unfolding handle_set_password_submit
handle_set_password_submit-PasswordSet env req s h =
    let (_, h1) = after_reject_if _ _ _ s h in
    let (tok, valid, h2) = after_query _ _ _ s h1 in
    let (user, owner, h3) = after_query _ _ _ s h2 in
    let (local, h4) = after_reject_if _ _ _ s h3 in
    let (repeated, h5) = after_reject_if _ _ _ s h4 in
    let (accepted, h6) = after_reject_if _ _ _ s h5 in
    let (u, consumed, h7) = after_exec _ _ _ s h6 in
    record {
      token = tok;
      user = user;
      stored = get_valid_password_token-usable env.io (env.hash (req.form "token")) s.db valid;
      owner = owner;
      local = true_of (is_local user) local;
      repeated = eq_of_refusal (req.form "password") (req.form "confirm") repeated;
      accepted = accepted;
      spent =
          kept (Spent (env.hash (req.form "token")) env.io.now) (store_password env req tok user) _
            (store_password-Keeps (env.hash (req.form "token")) env.io.now env req tok user) h7
            (spend_token-Spent env req s.db consumed);
    }

-- A token that has set a password does not set another: no later request with a token of the same
-- hash ends well, on the state that the first one leaves.
pub set_password_once :
    (env env' : Env) (req req' : Request) (s s' s'' : State) (a a' : Answer)
    → handle_set_password_submit env req s ≡ (done a, s')
    → env'.hash (req'.form "token") ≡ env.hash (req.form "token")
    → leb env.io.now env'.io.now ≡ true
    → handle_set_password_submit env' req' s' ≢ (done a', s'')
set_password_once env env' req req' s s' s'' a a' h same later again =
    let first = handle_set_password_submit-PasswordSet env req s h in
    let second = handle_set_password_submit-PasswordSet env' req' s' again in
    let there =
      any-find (usable (env'.hash (req'.form "token")) env'.io.now) s'.db.password_tokens
        second.stored in
    let gone = first.spent env'.io.now later in cc
