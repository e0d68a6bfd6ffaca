-- ===== src/Web/TokenExchange/Delegation.antt =====
-- What an exchanged token delegates, and what the exchange has checked.
use mathlib.Core.Path.{subst}
use omni_identity.Prelude.{
  String, true, false, not, ◌||◌, Option, none, some, List, ◌≡◌, sym, ap, ◌∙◌, arith, Bool,
  Bool-cases, inl, inr,
}
use omni_identity.Prelude.Text.{trim_space}
use omni_identity.Model.{User, Client, Device, RefreshToken, built_in, AuditEvent}
use omni_identity.Oidc.Scope.{split_scope, scopes_subset}
use omni_identity.Oidc.Scope.Laws.{Within, scopes_subset_sound}
use omni_identity.Store.Io.{Db, Io}
use omni_identity.Store.Clients.{append_audit_event}
use omni_identity.Tokens.{obj, claim, issue_access_token}
use omni_identity.Web.Authorize.{enabled_client}
use omni_identity.Web.ClientAuth.{authenticate_client}
use omni_identity.Web.Grants.{available_user, require_client, require_user}
use omni_identity.Web.Handler.{
  Reply, done, audit_event, pure, after_find, after_reject_if, after_or_reject, after_still, ◌>>=◌,
  ◌>>◌, audit, attempt, record_metric, AuditEntry,
}
use omni_identity.Web.Server.{Env, Request, State, Metric}
use omni_identity.Web.TokenExchange.Delegate.{delegate}
use omni_identity.Web.TokenExchange.Checks.{
  Acting, Granted, acting_device-Acting, subject_grant-Granted, check_exchange_form-still,
}
use omni_identity.Web.TokenExchange.{
  TokenExchangeResponse, checked_scope, none_requested, exchange_scope, check_exchange_form,
  acting_device, subject_grant, delegated_claims, exchange_response, exchange_for,
  grant_token_exchange,
}

checked_scope-Within :
    (scope : String) (granted allowed : List String) {out : String}
    → checked_scope scope granted allowed ≡ some out
    → Within (split_scope out) granted × Within (split_scope out) allowed
checked_scope-Within scope granted allowed {out} h =
    elim (Bool-cases (
      none_requested (split_scope scope)
      || not (scopes_subset (split_scope scope) granted)
      || not (scopes_subset (split_scope scope) allowed))) [
        | inl bad ↦ absurd (none_not_some (rw bad at h))
        | inr good ↦
            let same : scope ≡ out = some_inj (rw good at h) in
            (
              subst (λ x. Within (split_scope x) granted) same
                  (scopes_subset_sound (split_scope scope) granted (ground arith)),
              subst (λ x. Within (split_scope x) allowed) same
                  (scopes_subset_sound (split_scope scope) allowed (ground arith)),
            )
      ]
  where
    none_not_some : {x : String} → ◌≡◌ {A = Option String} none (some x) → ⊥
    none_not_some h = cc

    some_inj : {x y : String} → some x ≡ some y → x ≡ y
    some_inj h = cc

logged-refresh_tokens :
    (io : Io) (ev : AuditEvent) (db : Db)
    → (append_audit_event io ev db).refresh_tokens ≡ db.refresh_tokens
unfolding append_audit_event
logged-refresh_tokens io ev db = ground arith

told :
    (env : Env) (req : Request) (m : Metric) (event : String) (entry : AuditEntry)
    (a : TokenExchangeResponse) (s : State) {b : TokenExchangeResponse} {s' : State}
    → (record_metric m >> (audit env req event entry >> pure a)) s ≡ (done b, s')
    → (a ≡ b) × (s'.db.refresh_tokens ≡ s.db.refresh_tokens)
unfolding record_metric audit attempt pure ◌>>=◌
told env req m event entry a s h = (
  cc h,
  ap (λ (x : Reply TokenExchangeResponse × State). x.1.db.refresh_tokens) (sym h)
      ∙ logged-refresh_tokens env.io (audit_event env req event entry) s.db,
)

exchange_for-done :
    (env : Env) (req : Request) (dev : Device) (rt : RefreshToken) (user : User) (target : Client)
    (s : State) {resp : TokenExchangeResponse} {s' : State}
    → exchange_for env req dev rt user target s ≡ (done resp, s')
    → Within (split_scope resp.scope) (split_scope rt.scope)
      × Within (split_scope resp.scope) target.allowed_scopes
      × (issue_access_token env.issuer user.id target.client_id resp.scope
            (delegated_claims env dev rt user resp.scope)
          ≡ some resp.access_token)
      × (resp.token_type ≡ "Bearer")
      × (s'.db.refresh_tokens ≡ s.db.refresh_tokens)
unfolding exchange_for exchange_scope
exchange_for-done env req dev rt user target s {resp} h =
    let (scope, granted, h1) = after_or_reject _ _ _ s h in
    let (access, signed, h2) = after_or_reject _ _ _ s h1 in
    let (same, rows) = told env req _ _ _ (exchange_response env scope access) s h2 in
    let (of_grant, of_audience) = checked_scope-Within _ _ _ granted in
    (
      subst (λ (r : TokenExchangeResponse). Within (split_scope r.scope) (split_scope rt.scope))
          same of_grant,
      subst (λ (r : TokenExchangeResponse). Within (split_scope r.scope) target.allowed_scopes) same
          of_audience,
      subst
          (λ (r : TokenExchangeResponse).
            issue_access_token env.issuer user.id target.client_id r.scope
              (delegated_claims env dev rt user r.scope)
            ≡ some r.access_token)
          same signed,
      sym (ap (λ (r : TokenExchangeResponse). r.token_type) same),
      rows,
    )

-- What a successful exchange has checked and done.
pub record Exchanged (env : Env) (req : Request) (s : State) (resp : TokenExchangeResponse)
    (s' : State) : Type 0 where
  pub client : Client
  pub device : Device
  pub grant : RefreshToken
  pub user : User
  pub target : Client
  pub authenticated : authenticate_client env req s.db ≡ some client
  pub enrollment : built_in client ≡ true
  pub acting : Acting env req s.db device
  pub granted : Granted env req s.db client device grant
  pub owner : available_user env grant.user_id s.db ≡ some user
  pub audience : enabled_client env (trim_space (req.form "audience")) s.db ≡ some target
  pub of_grant : Within (split_scope resp.scope) (split_scope grant.scope)
  pub of_audience : Within (split_scope resp.scope) target.allowed_scopes
  pub access :
      issue_access_token env.issuer user.id target.client_id resp.scope
        (delegated_claims env device grant user resp.scope)
      ≡ some resp.access_token
  pub delegate :
      claim "act" (delegated_claims env device grant user resp.scope) ≡ some (obj "sub" device.id)
  pub no_key : claim "cnf" (delegated_claims env device grant user resp.scope) ≡ none
  pub kind : resp.token_type ≡ "Bearer"
  pub kept : s'.db.refresh_tokens ≡ s.db.refresh_tokens

-- A successful token exchange comes from the built-in client; its actor token is a device token that
-- is bound to the key of the request's proof and names an active device; its subject token is a live
-- refresh token of this client, bound to this device and this key, of an enabled user. The answer is
-- a bearer access token for the audience, an enabled client, that names the user, and the device as
-- the delegate, and is bound to no key; each of its scopes is in the grant and allowed to the audience. The refresh tokens
-- stay as they are.
pub grant_token_exchange-Exchanged :
    (env : Env) (req : Request) (s : State) {resp : TokenExchangeResponse} {s' : State}
    → grant_token_exchange env req s ≡ (done resp, s')
    → Exchanged env req s resp s'
unfolding grant_token_exchange require_client require_user
grant_token_exchange-Exchanged env req s {resp} {s'} h =
    let (client, auth, h1) = after_find _ _ _ s h in
    let (foreign, h2) = after_reject_if _ _ _ s h1 in
    let (_, _, h3) =
      after_still (check_exchange_form req) _ s (λ _ t e. check_exchange_form-still req s t e) h2 in
    let (dev, acted, h4) =
      after_still (acting_device env req) _ s (λ _ _ e. (acting_device-Acting env req s e).1) h3 in
    let (rt, held, h5) =
      after_still (subject_grant env req client dev) _ s
        (λ _ _ e. (subject_grant-Granted env req client dev s e).1) h4 in
    let (user, owner, h7) = after_find _ _ _ s h5 in
    let (target, audience, h8) = after_find _ _ _ s h7 in
    let (of_grant, of_audience, access, kind, rows) =
      exchange_for-done env req dev rt user target s h8 in
    record {
      client = client;
      device = dev;
      grant = rt;
      user = user;
      target = target;
      authenticated = auth;
      enrollment = is_enrollment foreign;
      acting = (acting_device-Acting env req s acted).0;
      granted = (subject_grant-Granted env req client dev s held).0;
      owner = owner;
      audience = audience;
      of_grant = of_grant;
      of_audience = of_audience;
      access = access;
      delegate = (delegate env dev rt user resp.scope).0;
      no_key = (delegate env dev rt user resp.scope).2;
      kind = kind;
      kept = rows;
    }
  where
    is_enrollment : {b : Bool} → not b ≡ false → b ≡ true
    is_enrollment h = ground arith
