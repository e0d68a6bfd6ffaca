-- ===== src/Web/Mfa/Factor.antt =====
-- What is checked of a second factor and of the user who gives it.
use mathlib.Core.Path.{subst}
use omni_identity.Prelude.{
  String, Bool, true, false, not, ◌||◌, Option, none, some, ◌≡◌, refl, sym, ap, ◌∙◌, arith, ◌⊎◌,
  inl, inr, ◌==◌, Bool-cases,
}
use omni_identity.Prelude.Text.{trim_space}
use omni_identity.Model.{User, LoginChallenge}
use omni_identity.Store.Io.{Db, Result, ok, err}
use omni_identity.Store.Clients.{get_user_by_id}
use omni_identity.Store.Mfa.{consume_recovery_code}
use omni_identity.Web.Handler.{done, pure, done_inj}
use omni_identity.Web.Handler.Refuses.{Refuses, reject-Refuses, bind-Refuses, never_done}
use omni_identity.Web.Mfa.{
  usable_user, challenged, challenge_user, totp_passes, consumed, verify_second_factor,
  factor_checked, refuse_code, check_factor, normalize_recovery,
}
use omni_identity.Web.Server.{Env, Request, State}

-- A code is accepted: it is a one-time code of the user's secret, or an unused recovery code.
abbrev pub FactorHeld : Env → User → String → Db → Type 0
FactorHeld env user code db =
    (totp_passes env user code ≡ true)
    ⊎ ((consume_recovery_code env.io user.id (env.hash (normalize_recovery code)) db).0 ≡ ok true)

verify_second_factor-FactorHeld :
    (env : Env) (user : User) (code : String) (db : Db)
    → (verify_second_factor env user code db).0 ≡ true
    → FactorHeld env user code db
unfolding verify_second_factor
verify_second_factor-FactorHeld env user code db h = elim (Bool-cases (code == "")) [
  | inl blank ↦ absurd (false_not_true (rw blank at h))
  | inr given ↦ elim (Bool-cases (totp_passes env user code)) [
    | inl passes ↦ inl passes
    | inr fails ↦ inr (was_consumed _ (rw (given, fails) at h))
  ]
]
  where
    false_not_true : false ≡ true → ⊥
    false_not_true h = cc

    was_consumed : (r : Result Bool) → consumed r ≡ true → r ≡ ok true
    was_consumed (ok true) h = refl
    was_consumed (ok false) h = absurd (cc)
    was_consumed (err e) h = absurd (cc)

refuse_code-Refuses : (env : Env) (req : Request) (user : User) → Refuses (refuse_code env req user)
unfolding refuse_code
refuse_code-Refuses env req user =
    bind-Refuses _ _ (λ _. bind-Refuses _ _ (λ _. bind-Refuses _ _ (λ _. reject-Refuses _)))

factor_checked-true :
    (env : Env) (req : Request) (user : User) (good : Bool) (s : State) {u : Unit {0}} {s' : State}
    → factor_checked env req user good s ≡ (done u, s')
    → (good ≡ true) × (s' ≡ s)
unfolding pure
factor_checked-true env req user true s h = (refl, (done_inj h).1)
factor_checked-true env req user false s h =
    absurd (never_done (refuse_code env req user) s (refuse_code-Refuses env req user) h)

second_factor-sessions :
    (env : Env) (user : User) (code : String) (db : Db)
    → (verify_second_factor env user code db).1.sessions ≡ db.sessions
unfolding verify_second_factor consume_recovery_code
second_factor-sessions env user code db = ground arith

pub check_factor-FactorHeld :
    (env : Env) (req : Request) (user : User) (s : State) {u : Unit {0}} {s' : State}
    → check_factor env req user s ≡ (done u, s')
    → FactorHeld env user (trim_space (req.form "code")) s.db × (s'.db.sessions ≡ s.db.sessions)
unfolding check_factor
check_factor-FactorHeld env req user s h =
    let code = trim_space (req.form "code") in
    let (good, state) = factor_checked-true env req user _ _ h in
    (
      verify_second_factor-FactorHeld env user code s.db good,
      ap (λ x. x.db.sessions) state ∙ second_factor-sessions env user code s.db,
    )

-- The user of the challenge, who still signs in with a second factor.
pub record Challenged (env : Env) (ch : LoginChallenge) (db : Db) (user : User) : Type 0 where
  pub known : get_user_by_id env.io ch.user_id db ≡ ok user
  pub enabled : user.disabled ≡ false
  pub mfa : user.mfa_enabled ≡ true

usable_user-some :
    (r : Result User) {u : User}
    → usable_user r ≡ some u
    → (r ≡ ok u) × (u.disabled ≡ false) × (u.mfa_enabled ≡ true)
usable_user-some (err e) h = absurd (cc)
usable_user-some (ok v) {u} h = elim (Bool-cases (v.disabled || not v.mfa_enabled)) [
  | inl bad ↦ absurd (none_not_some (rw bad at h))
  | inr good ↦
      let same : v ≡ u = some_inj (rw good at h) in
      (
        ap ok same,
        subst (λ x. x.disabled ≡ false) same (ground arith),
        subst (λ x. x.mfa_enabled ≡ true) same (ground arith),
      )
]
  where
    none_not_some : {x : User} → ◌≡◌ {A = Option User} none (some x) → ⊥
    none_not_some h = cc

    some_inj : {x y : User} → some x ≡ some y → x ≡ y
    some_inj h = cc

pub challenge_user-Challenged :
    (env : Env) (ch : LoginChallenge) (s : State) {u : User} {s' : State}
    → challenge_user env ch s ≡ (done u, s')
    → (s' ≡ s) × Challenged env ch s.db u
unfolding challenge_user pure
challenge_user-Challenged env ch s h =
    let (found, state) = of_user _ h in
    let (known, enabled, mfa) = usable_user-some (get_user_by_id env.io ch.user_id s.db) found in
    (state, record { known = known; enabled = enabled; mfa = mfa })
  where
    of_user :
        (o : Option User) {u : User} {s' : State}
        → challenged o s ≡ (done u, s')
        → (o ≡ some u) × (s' ≡ s)
    of_user (some u) h = let (same, state) = done_inj h in (ap some (sym same), state)
    of_user none h =
        absurd (never_done (challenged none) s (bind-Refuses _ _ (λ _. reject-Refuses _)) h)
