-- ===== src/Web/Login/Local.antt =====
-- What a login with the password of a local account checks.
use omni_identity.Prelude.{true, false, not, ◌||◌, ◌≡◌, refl, ap, ◌∙◌, inl, inr, leb, Bool-cases}
use omni_identity.Model.{User, is_local, is_locked}
use omni_identity.Store.Io.{Db, ok}
use omni_identity.Store.Users.{get_user_by_username, reset_failed_logins}
use omni_identity.Web.Handler.{done, pure, record_metric, attempt, ◌>>=◌, ◌>>◌, after_bind}
use omni_identity.Web.Handler.Refuses.{Refuses, reject-Refuses, bind-Refuses, after_refusal}
use omni_identity.Web.Login.{
  user_name, password_matches, local_login, refuse_locked, refuse_password, invalid, verify_limit,
  acquire_password_verify, release_password_verify,
}
use omni_identity.Web.Server.{Env, Request, State, Metric}

-- The account is local, enabled and not locked, and the password is its own.
pub record LocalLogin (env : Env) (req : Request) (db : Db) (user : User) : Type 0 where
  pub known : get_user_by_username env.io (user_name req) db ≡ ok user
  pub local : is_local user ≡ true
  pub unlocked : is_locked user env.io.now ≡ false
  pub password : password_matches env req user ≡ true
  pub enabled : user.disabled ≡ false

acquire-db : (env : Env) (s : State) → (acquire_password_verify env s).1.db ≡ s.db
unfolding acquire_password_verify
acquire-db env s = elim (Bool-cases (leb (verify_limit env) s.verify_active)) [
  | inl full ↦ rw full refl
  | inr free ↦ rw free refl
]

pub invalid-Refuses {ℓ} :
    {A : Type ℓ} (env : Env) (req : Request) → Refuses (invalid {A = A} env req)
unfolding invalid
invalid-Refuses env req = bind-Refuses _ _ (λ _. reject-Refuses _)

refuse_locked-Refuses :
    (env : Env) (req : Request) (user : User) → Refuses (refuse_locked env req user)
unfolding refuse_locked
refuse_locked-Refuses env req user =
    bind-Refuses _ _ (λ _. bind-Refuses _ _ (λ _. reject-Refuses _))

refuse_password-Refuses :
    (env : Env) (req : Request) (user : User) → Refuses (refuse_password env req user)
unfolding refuse_password
refuse_password-Refuses env req user =
    bind-Refuses _ _ (λ _. bind-Refuses _ _ (λ _. invalid-Refuses env req))

finished :
    (user : User) (f : Db → Db) (m : Metric) (s : State) {got : User} {s' : State}
    → (attempt f >> (record_metric m >> pure user)) s ≡ (done got, s')
    → (got ≡ user) × (s'.db ≡ f s.db)
unfolding attempt record_metric pure ◌>>=◌
finished user f m s h = (cc, cc)

-- A password is verified without a change of the database.
held-db :
    (env : Env) (s : State)
    → (release_password_verify (acquire_password_verify env s).1).1.db ≡ s.db
unfolding release_password_verify
held-db env s = acquire-db env s

pub local_login-done :
    (env : Env) (req : Request) (user : User) (s : State) {got : User} {s' : State}
    → local_login env req user s ≡ (done got, s')
    → (got ≡ user)
      × (is_locked user env.io.now ≡ false)
      × ((not (password_matches env req user) || user.disabled) ≡ false)
      × (s'.db ≡ reset_failed_logins env.io user.id s.db)
unfolding local_login
local_login-done env req user s h =
    let (unlocked, h1) = after_refusal _ _ _ s h (refuse_locked-Refuses env req user) in
    let (_, _, h2) = after_bind _ _ s h1 in
    let (_, _, h3) = after_bind _ _ _ h2 in
    let (good, h4) = after_refusal _ _ _ _ h3 (refuse_password-Refuses env req user) in
    let (same, db) = finished user (reset_failed_logins env.io user.id) _ _ h4 in
    (same, unlocked, good, db ∙ ap (reset_failed_logins env.io user.id) (held-db env s))
