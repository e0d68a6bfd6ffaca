-- ===== src/Web/TokenExchange/Checks.antt =====
-- What a token exchange checks of the device that acts and of the grant.
use mathlib.Core.Path.{subst}
use omni_identity.Prelude.{
  ℕ, ◌≤◌, String, true, false, not, ◌||◌, Option, none, some, ◌≡◌, ◌≢◌, refl, sym, ap, ◌∙◌, arith,
  ◌==◌, eq_iff, ltb, Bool, Bool-cases, inl, inr,
}
use omni_identity.Model.{Client, Device, RefreshToken}
use omni_identity.Store.Io.{Db, Result, ok, err}
use omni_identity.Store.RefreshTokens.{get_refresh_token_by_hash}
use omni_identity.Tokens.{VerifiedToken, verify, is_device_token}
use omni_identity.Web.Devices.{active_device}
use omni_identity.Web.Handler.{
  Handler, HttpError, Reply, done, reject_if, pure, after_find, after_reject_if, after_or_reject,
  found, done_inj, ◌>>=◌, ◌>>◌,
}
use omni_identity.Web.Issue.{dpop_jkt}
use omni_identity.Web.Server.{Env, Request, State}
use omni_identity.Web.TokenExchange.{
  check_exchange_form, device_actor, acting_device, usable_grant, subject_grant,
}

-- The device that acts: its token names it and is bound to the key of the request's proof.
pub record Acting (env : Env) (req : Request) (db : Db) (dev : Device) : Type 0 where
  pub actor : VerifiedToken
  pub verified : verify env.issuer (req.form "actor_token") ≡ some actor
  pub device_token : is_device_token actor ≡ true
  pub bound : actor.jkt ≡ dpop_jkt req
  pub keyed : dpop_jkt req ≢ ""
  pub active : active_device env actor.subject db ≡ some dev

-- The grant behind the subject token: live, of the client, and bound to the device and the key.
pub record Granted (env : Env) (req : Request) (db : Db) (client : Client) (dev : Device)
    (rt : RefreshToken) : Type 0 where
  pub known : get_refresh_token_by_hash env.io (env.hash (req.form "subject_token")) db ≡ ok rt
  pub live : rt.revoked ≡ false
  pub unexpired : env.io.now ≤ rt.expires_at
  pub own : rt.client_id ≡ client.client_id
  pub of_device : rt.device_id ≡ dev.id
  pub of_key : rt.dpop_jkt ≡ dpop_jkt req

device_actor-some :
    (jkt : String) (o : Option VerifiedToken) {vt : VerifiedToken}
    → device_actor jkt o ≡ some vt
    → (o ≡ some vt) × (is_device_token vt ≡ true) × (vt.jkt ≡ jkt) × (jkt ≢ "")
device_actor-some jkt none h = absurd (cc)
device_actor-some jkt (some v) {vt} h =
    elim (Bool-cases (not (is_device_token v) || v.jkt == "" || not (v.jkt == jkt))) [
      | inl bad ↦ absurd (none_not_some (rw bad at h))
      | inr good ↦
          let same : v ≡ vt = some_inj (rw good at h) in
          (
            ap some same,
            subst (λ x. is_device_token x ≡ true) same (ground arith),
            subst (λ (x : VerifiedToken). x.jkt ≡ jkt) same (ground (arith, eq_iff v.jkt jkt)),
            λ empty. ground (arith, eq_iff v.jkt jkt, eq_iff v.jkt ""),
          )
    ]
  where
    none_not_some : {x : VerifiedToken} → ◌≡◌ {A = Option VerifiedToken} none (some x) → ⊥
    none_not_some h = cc

    some_inj : {x y : VerifiedToken} → some x ≡ some y → x ≡ y
    some_inj h = cc

pub acting_device-Acting :
    (env : Env) (req : Request) (s : State) {dev : Device} {s' : State}
    → acting_device env req s ≡ (done dev, s')
    → Acting env req s.db dev × (s' ≡ s)
unfolding acting_device
acting_device-Acting env req s h =
    let (actor, named, h1) = after_or_reject _ _ _ s h in
    let (active, state) = found (active_device env actor.subject) _ s h1 in
    let (verified, device_token, bound, keyed) =
      device_actor-some (dpop_jkt req) (verify env.issuer (req.form "actor_token")) named in
    (
      record {
        actor = actor;
        verified = verified;
        device_token = device_token;
        bound = bound;
        keyed = keyed;
        active = active;
      },
      state,
    )

usable_grant-some :
    (now : ℕ) (client : Client) (r : Result RefreshToken) {rt : RefreshToken}
    → usable_grant now client r ≡ some rt
    → (r ≡ ok rt) × (rt.revoked ≡ false) × (now ≤ rt.expires_at) × (rt.client_id ≡ client.client_id)
usable_grant-some now client (err e) h = absurd (cc)
usable_grant-some now client (ok v) {rt} h =
    elim (Bool-cases (v.revoked || ltb v.expires_at now || not (v.client_id == client.client_id))) [
      | inl bad ↦ absurd (none_not_some (rw bad at h))
      | inr good ↦
          let same : v ≡ rt = some_inj (rw good at h) in
          (
            ap ok same,
            subst (λ (x : RefreshToken). x.revoked ≡ false) same (ground arith),
            subst (λ (x : RefreshToken). now ≤ x.expires_at) same (ground arith),
            subst (λ (x : RefreshToken). x.client_id ≡ client.client_id) same
                (ground (arith, eq_iff v.client_id client.client_id)),
          )
    ]
  where
    none_not_some : {x : RefreshToken} → ◌≡◌ {A = Option RefreshToken} none (some x) → ⊥
    none_not_some h = cc

    some_inj : {x y : RefreshToken} → some x ≡ some y → x ≡ y
    some_inj h = cc

pub subject_grant-Granted :
    (env : Env) (req : Request) (client : Client) (dev : Device) (s : State) {rt : RefreshToken}
    {s' : State}
    → subject_grant env req client dev s ≡ (done rt, s')
    → Granted env req s.db client dev rt × (s' ≡ s)
unfolding subject_grant pure
subject_grant-Granted env req client dev s {rt} h =
    let (got, usable, h1) = after_find _ _ _ s h in
    let (bound, h2) = after_reject_if _ _ _ s h1 in
    let (same, state) = done_inj h2 in
    let (known, live, unexpired, own) = usable_grant-some env.io.now client _ usable in
    (
      subst (Granted env req s.db client dev) (sym same) (record {
        known = known;
        live = live;
        unexpired = unexpired;
        own = own;
        of_device = ground (arith, eq_iff got.device_id dev.id);
        of_key = ground (arith, eq_iff got.dpop_jkt (dpop_jkt req));
      }),
      state,
    )

reject_if-state :
    (t : Bool) (e : HttpError) (k : Handler (Unit {0})) (s : State)
    → (k s).1 ≡ s
    → ((reject_if t e >> k) s).1 ≡ s
unfolding reject_if ◌>>=◌
reject_if-state true e k s h = refl
reject_if-state false e k s h = h

last_reject_if-state : (t : Bool) (e : HttpError) (s : State) → (reject_if t e s).1 ≡ s
unfolding reject_if
last_reject_if-state true e s = refl
last_reject_if-state false e s = refl

check_exchange_form-state : (req : Request) (s : State) → (check_exchange_form req s).1 ≡ s
unfolding check_exchange_form
check_exchange_form-state req s = reject_if-state _ _ _ s (
    reject_if-state _ _ _ s
      (reject_if-state _ _ _ s (reject_if-state _ _ _ s (last_reject_if-state _ _ s))))

pub check_exchange_form-still :
    (req : Request) (s t : State) {u : Unit {0}} → check_exchange_form req s ≡ (done u, t) → t ≡ s
check_exchange_form-still req s t h =
    sym (ap (λ (x : Reply (Unit {0}) × State). x.1) h) ∙ check_exchange_form-state req s
