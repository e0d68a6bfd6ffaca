-- ===== src/Web/Login/Credentials.antt =====
-- Whose credentials a login accepts.
use mathlib.Core.Path.{subst}
use omni_identity.Prelude.{
  String, false, Option, none, some, List, [], ◌∷◌, ◌≡◌, refl, sym, ap, ◌∙◌, arith, inl, inr,
  Bool-cases,
}
use omni_identity.Model.{User, is_local}
use omni_identity.Store.Io.{Db, Io, Result, ok, err}
use omni_identity.Store.Users.{get_user_by_username, reset_failed_logins}
use omni_identity.Web.Handler.{Handler, done, pure, record_metric, ◌>>=◌, ◌>>◌, if_taken, if_passed}
use omni_identity.Web.Handler.Refuses.{Refuses, bind-Refuses, never_done}
use omni_identity.Web.Login.{
  user_name, invalid, checked_external, external_login, other_login, unknown_login, login_of,
  check_credentials, login_audit,
}
use omni_identity.Web.Server.{Env, Request, State, Metric, login, Login}
use omni_identity.Web.Login.Local.{LocalLogin, local_login-done, invalid-Refuses}
use omni_identity.Web.Login.Directory.{
  AcceptedBy, auth_via_connectors-AcceptedBy, auth_via_connectors-sessions,
}

abbrev refused_external : Env → Request → Metric → String → String → Handler User
refused_external env req m actor detail =
    record_metric m >> (login_audit env req "login.failed" actor false detail >> invalid env req)

refuse_external :
    (env : Env) (req : Request) (m : Metric) (actor detail : String)
    → Refuses (refused_external env req m actor detail)
refuse_external env req m actor detail =
    bind-Refuses _ _ (λ _. bind-Refuses _ _ (λ _. invalid-Refuses env req))

counted :
    (m : Metric) (u : User) (s : State) {got : User} {s' : State}
    → (record_metric m >> pure u) s ≡ (done got, s')
    → (got ≡ u) × (s'.db ≡ s.db)
unfolding record_metric pure ◌>>=◌
counted m u s h = (cc, cc)

checked_user-done :
    (env : Env) (req : Request) (u : User) (s : State) {got : User} {s' : State}
    → checked_external env req (some u) s ≡ (done got, s')
    → (u.disabled ≡ false) × (got ≡ u) × (s'.db ≡ s.db)
checked_user-done env req u s h = elim (Bool-cases u.disabled) [
  | inl off ↦
      let refusal =
        refused_external env req (login u.auth_source "failure") u.id "disabled account" in
      absurd (
        never_done refusal s
          (refuse_external env req (login u.auth_source "failure") u.id "disabled account")
          (if_taken u.disabled refusal _ s off h))
  | inr on ↦
      let (same, db) =
        counted (login u.auth_source "success") u s (if_passed u.disabled _ _ s on h) in
      (on, same, db)
]

checked_external-done :
    (env : Env) (req : Request) (o : Option User) (s : State) {got : User} {s' : State}
    → checked_external env req o s ≡ (done got, s')
    → (o ≡ some got) × (got.disabled ≡ false) × (s'.db ≡ s.db)
checked_external-done env req none s h = absurd (
    never_done (checked_external env req none) s
      (refuse_external env req (login "ldap" "failure") "" "external: invalid") h)
checked_external-done env req (some u) s h =
    let (on, same, db) = checked_user-done env req u s h in
    (ap some (sym same), subst (λ x. x.disabled ≡ false) (sym same) on, db)

unknown_login-Refuses : (env : Env) (req : Request) → Refuses (unknown_login env req)
unfolding unknown_login
unknown_login-Refuses env req = bind-Refuses _ _ (λ _.
    bind-Refuses _ _ (λ _. bind-Refuses _ _ (λ _. bind-Refuses _ _ (λ _. invalid-Refuses env req))))

-- The credentials are those of an enabled local account that is not locked, or a directory accepts them
-- and the account is the one of the user that it names, and enabled; where there is a local account of
-- the name, it alone is asked.
pub data Accepted (env : Env) (req : Request) (db : Db) (user : User) : Type 0 where
  by_password : LocalLogin env req db user → Accepted env req db user
  by_directory :
      AcceptedBy env.connectors (user_name req) (req.form "password") user
      → user.disabled ≡ false
      → ((u : User) → get_user_by_username env.io (user_name req) db ≡ ok u → is_local u ≡ false)
      → Accepted env req db user

external_login-done :
    (env : Env) (req : Request) (s : State) {got : User} {s' : State}
    → external_login env req s ≡ (done got, s')
    → AcceptedBy env.connectors (user_name req) (req.form "password") got
      × (got.disabled ≡ false)
      × (s'.db.sessions ≡ s.db.sessions)
unfolding external_login
external_login-done env req s h =
    let (found, on, same) = checked_external-done env req _ _ h in
    (
      auth_via_connectors-AcceptedBy env (user_name req) (req.form "password") env.connectors s.db
          found,
      on,
      ap (λ db. db.sessions) same
          ∙ auth_via_connectors-sessions env (user_name req) (req.form "password") env.connectors
              s.db,
    )

other_login-done :
    (env : Env) (req : Request) (cs : List (String → String → Login)) (s : State) {got : User}
    {s' : State}
    → other_login env req cs s ≡ (done got, s')
    → AcceptedBy env.connectors (user_name req) (req.form "password") got
      × (got.disabled ≡ false)
      × (s'.db.sessions ≡ s.db.sessions)
other_login-done env req [] s h =
    absurd (never_done (unknown_login env req) s (unknown_login-Refuses env req) h)
other_login-done env req (c ∷ cs) s h = external_login-done env req s h

reset-sessions :
    (io : Io) (id : String) (db : Db) → (reset_failed_logins io id db).sessions ≡ db.sessions
unfolding reset_failed_logins
reset-sessions io id db = ground arith

login_of-Accepted :
    (env : Env) (req : Request) (r : Result User) (s : State) {got : User} {s' : State}
    → get_user_by_username env.io (user_name req) s.db ≡ r
    → login_of env req r s ≡ (done got, s')
    → Accepted env req s.db got × (s'.db.sessions ≡ s.db.sessions)
login_of-Accepted env req (err e) s known h =
    let (accepts, on, same) = other_login-done env req env.connectors s h in
    (by_directory accepts on (λ u there. absurd (cc)), same)
login_of-Accepted env req (ok u) s known h = elim (Bool-cases (is_local u)) [
  | inl local ↦
      let (same, unlocked, good, db) =
        local_login-done env req u s (if_taken (is_local u) _ _ s local h) in
      (
        subst (Accepted env req s.db) (sym same) (
            by_password (record {
              known = known;
              local = local;
              unlocked = unlocked;
              password = ground arith;
              enabled = ground arith;
            })),
        ap (λ x. x.sessions) db ∙ reset-sessions env.io u.id s.db,
      )
  | inr foreign ↦
      let (accepts, on, same) =
        other_login-done env req env.connectors s (if_passed (is_local u) _ _ s foreign h) in
      (
        by_directory accepts on
            (λ v there. subst (λ x. is_local x ≡ false) (ok_inj (sym known ∙ there)) foreign),
        same,
      )
]
  where
    ok_inj : {a b : User} → ok a ≡ ok b → a ≡ b
    ok_inj h = cc

pub check_credentials-Accepted :
    (env : Env) (req : Request) (s : State) {got : User} {s' : State}
    → check_credentials env req s ≡ (done got, s')
    → Accepted env req s.db got × (s'.db.sessions ≡ s.db.sessions)
unfolding check_credentials
check_credentials-Accepted env req s h = login_of-Accepted env req _ s refl h
