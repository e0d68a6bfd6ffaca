-- ===== src/Web/RefreshGrant/Rotation.antt =====
-- What the refresh_token grant has checked when it answers with tokens, and what it does with a
-- token that was already rotated.
use mathlib.Core.Option
use mathlib.Core.Path.{subst}
use omni_identity.Prelude.{
  ne_of_test, ◌≤◌, String, true, false, not, Option, none, some, ◌≡◌, ◌≢◌, ◌⊎◌, inl, inr, refl, sym,
  ap, ◌∙◌, arith, ◌==◌, eq_iff, Bool-cases, ltb→le,
}
use omni_identity.Model.{User, Client, Device, RefreshToken, AuditEvent}
use omni_identity.Oidc.Scope.{has_scope, split_scope, scopes_subset, scope_offline_access}
use omni_identity.Oidc.Scope.Laws.{Within, scopes_subset_sound}
use omni_identity.Store.Io.{Db, ok, Stmt}
use omni_identity.Store.Clients.{append_audit_event}
use omni_identity.Store.RefreshTokens.{get_refresh_token_by_hash, rotate_refresh_token}
use omni_identity.Store.RefreshTokens.Spent.{Spent, rotate_refresh_token-Spent}
use omni_identity.Web.Server.{Env, Request, State}
use omni_identity.Web.Handler.{
  Reply, done, done_inj, after_bind, pure, after_find, after_reject_if, after_query, after_exec,
  after_or_reject, after_unless, attempt,
}
use omni_identity.Web.ClientAuth.{authenticate_client}
use omni_identity.Web.Issue.{TokenResponse, TokenContext, dpop_jkt}
use omni_identity.Web.Grants.{available_user, require_client, require_user, issued}
use omni_identity.Tokens.{issue_access_token}
use omni_identity.Web.Issue.Bindings.{grant_claims}
use omni_identity.Web.Issue.Laws.{build_access_and_id-IssuedTokens}
use omni_identity.Web.Grants.Keeps.{issued-Keeps}
use omni_identity.Web.Devices.{active_device}
use omni_identity.Web.RefreshGrant.{
  device_for, narrowed, replacement, with_refresh, rotate, refresh, grant_refresh_token,
}

-- The scope of the new tokens is within that of the old one.
narrowed-asked :
    (requested granted scope : String)
    → narrowed requested granted ≡ some scope
    → ((requested ≡ "") × (scope ≡ granted)) ⊎ ((requested ≢ "") × (scope ≡ requested))
unfolding narrowed
narrowed-asked requested granted scope h = elim (Bool-cases (requested == "")) [
  | inl blank ↦ inl (ground (arith, eq_iff requested ""), ground arith)
  | inr named ↦ inr (ne_of_test requested "" named, ground arith)
]

-- The refresh token of the answer changes neither its access token nor its scope.
with_refresh-same :
    (env : Env) (scope : String) (resp : TokenResponse)
    → ((with_refresh env scope resp).scope ≡ resp.scope)
      × ((with_refresh env scope resp).access_token ≡ resp.access_token)
with_refresh-same env scope resp = elim (Bool-cases (has_scope scope scope_offline_access)) [
  | inl e ↦ rw e (refl, refl)
  | inr e ↦ rw e (refl, refl)
]

issued-answer :
    (env : Env) (req : Request) (client : Client) (user : User) (detail : String)
    (resp : TokenResponse) (s : State) {r : TokenResponse} {s' : State}
    → issued env req client user detail resp s ≡ (done r, s')
    → r ≡ resp
unfolding issued pure
issued-answer env req client user detail resp s h =
    let (_, _, h1) = after_bind _ _ s h in let (_, _, h2) = after_bind _ _ _ h1 in (done_inj h2).0

narrowed-Within :
    (requested granted scope : String)
    → narrowed requested granted ≡ some scope
    → Within (split_scope scope) (split_scope granted)
unfolding narrowed
narrowed-Within requested granted scope h = elim (Bool-cases (requested == "")) [
  | inl same ↦ let e : granted ≡ scope = ground arith in λ t m. rw e m
  | inr other ↦ elim (Bool-cases (scopes_subset (split_scope requested) (split_scope granted))) [
    | inl fits ↦
        let e : requested ≡ scope = ground arith in
        scopes_subset_sound (split_scope scope) (split_scope granted) (rw e at fits)
    | inr exceeds ↦ absurd (ground arith)
  ]
]

-- The device of a token that names one is stored and active.
abbrev pub DeviceMet : Env → RefreshToken → Db → Option Device → Type 0
DeviceMet env rt db dev =
    ((rt.device_id ≡ "") × (dev ≡ none))
    ⊎ ((rt.device_id ≢ "")
        × ((d : Device) × (dev ≡ some d) × (active_device env rt.device_id db ≡ some d)))

device_for-DeviceMet :
    (env : Env) (rt : RefreshToken) (db : Db) (dev : Option Device)
    → device_for env rt.device_id db ≡ some dev
    → DeviceMet env rt db dev
device_for-DeviceMet env rt db dev h = elim (Bool-cases (rt.device_id == "")) [
  | inl unbound ↦ inl (ground (arith, eq_iff rt.device_id ""), ground arith)
  | inr bound ↦
      let (d, found, same) =
        (Option.map-eq-some_iff some (active_device env rt.device_id db)).0 (rw bound at h) in
      inr (ground (arith, eq_iff rt.device_id ""), (d, cc, found))
]

-- What is true of a refresh that answers with tokens.
pub record Refreshed (env : Env) (req : Request) (s : State) (resp : TokenResponse) (s' : State)
    : Type 0 where
  pub client : Client
  pub authenticated : authenticate_client env req s.db ≡ some client
  pub rt : RefreshToken
  pub found : get_refresh_token_by_hash env.io (env.hash (req.form "refresh_token")) s.db ≡ ok rt
  pub own : rt.client_id ≡ client.client_id
  pub live : rt.revoked ≡ false
  pub in_time : env.io.now ≤ rt.expires_at
  pub bound : (rt.dpop_jkt ≡ "") ⊎ (dpop_jkt req ≡ rt.dpop_jkt)
  pub user : User
  pub available : available_user env rt.user_id s.db ≡ some user
  pub device : Option Device
  pub device_met : DeviceMet env rt s.db device
  pub scope_asked :
      ((req.form "scope" ≡ "") × (resp.scope ≡ rt.scope))
      ⊎ ((req.form "scope" ≢ "") × (resp.scope ≡ req.form "scope"))
  pub scope_within : Within (split_scope resp.scope) (split_scope rt.scope)
  -- The access token of the answer is for this user, client, scope, device and key, and so for no
  -- more than the answer says.
  pub access :
      issue_access_token env.issuer user.id client.client_id resp.scope
        (grant_claims (record { amr = rt.amr; device = device; jkt = dpop_jkt req }) user)
      ≡ some resp.access_token
  pub won :
      (rotate_refresh_token env.io rt.id
        (replacement env client user resp.scope rt
          (record { amr = rt.amr; device = device; jkt = dpop_jkt req }))
        s.db).0
      ≡ ok true
  pub spent : Spent rt.id s'.db

append_audit_event-Spent :
    (env : Env) (id : String) (ev : AuditEvent) (db : Db)
    → Spent id db
    → Spent id (append_audit_event env.io ev db)
unfolding append_audit_event
append_audit_event-Spent env id ev db h = elim (Bool-cases (env.io.fails Stmt.append_audit)) [
  | inl bad ↦ rw bad h
  | inr works ↦ rw works (record { stored = h.stored; dead = h.dead })
]

rotate_done :
    (env : Env) (req : Request) (client : Client) (user : User) (rt : RefreshToken) (scope : String)
    (tc : TokenContext) (resp : TokenResponse) (s : State) {r : TokenResponse} {s' : State}
    → rotate env req client user rt scope tc resp s ≡ (done r, s')
    → ((rotate_refresh_token env.io rt.id (replacement env client user scope rt tc) s.db).0
        ≡ ok true)
      × Spent rt.id s'.db
      × (r ≡ with_refresh env scope resp)
unfolding rotate attempt
rotate_done env req client user rt scope tc resp s {r} {s'} h =
    let (won, took, h1) = after_exec _ _ _ s h in
    let db' =
      (rotate_refresh_token env.io rt.id (replacement env client user scope rt tc) s.db).1 in
    let (lost, h2) = after_unless (not won) _ _ _ (record s { db = db' }) h1 (λ _. refl) in
    let yes : (rotate_refresh_token env.io rt.id (replacement env client user scope rt tc) s.db).0
        ≡ ok true =
      ground (arith, took, lost) in
    let kept =
      (issued-Keeps env (append_audit_event-Spent env rt.id) req client user "refresh_token"
          (with_refresh env scope resp)).at
        (record s { db = db' })
        (rotate_refresh_token-Spent env.io rt.id (replacement env client user scope rt tc) s.db
          yes) in
    (
      yes,
      subst (λ (p : Reply TokenResponse × State). Spent rt.id p.1.db) h2 kept,
      issued-answer env req client user "refresh_token" (with_refresh env scope resp) _ h2,
    )

refresh-Refreshed :
    (env : Env) (req : Request) (client : Client) (rt : RefreshToken) (s : State)
    {resp : TokenResponse} {s' : State}
    → authenticate_client env req s.db ≡ some client
    → get_refresh_token_by_hash env.io (env.hash (req.form "refresh_token")) s.db ≡ ok rt
    → (rt.client_id ≡ client.client_id) × (rt.revoked ≡ false) × (env.io.now ≤ rt.expires_at)
    → refresh env req client rt s ≡ (done resp, s')
    → Refreshed env req s resp s'
unfolding refresh require_user
refresh-Refreshed env req client rt s {resp} auth found checks h =
    let (bound, h1) = after_reject_if _ _ _ s h in
    let (user, available, h2) = after_find _ _ _ s h1 in
    let (dev, met, h3) = after_find _ _ _ s h2 in
    let (scope, within, h4) = after_or_reject _ _ _ s h3 in
    let (resp', built, h5) = after_or_reject _ _ _ s h4 in
    let tc : TokenContext = record { amr = rt.amr; device = dev; jkt = dpop_jkt req } in
    let (won, spent, answer) = rotate_done env req client user rt scope tc resp' s h5 in
    let tokens = build_access_and_id-IssuedTokens env client user scope "" rt.auth_time tc built in
    let (same_scope, same_access) = with_refresh-same env scope resp' in
    let granted : resp.scope ≡ scope =
      ap (λ (x : TokenResponse). x.scope) answer ∙ (same_scope ∙ tokens.granted) in
    let signed : resp'.access_token ≡ resp.access_token =
      sym (ap (λ (x : TokenResponse). x.access_token) answer ∙ same_access) in
    record {
      client = client;
      authenticated = auth;
      rt = rt;
      found = found;
      own = checks.0;
      live = checks.1;
      in_time = checks.2;
      bound = ground (arith, eq_iff rt.dpop_jkt "", eq_iff (dpop_jkt req) rt.dpop_jkt);
      user = user;
      available = available;
      device = dev;
      device_met = device_for-DeviceMet env rt s.db dev met;
      scope_asked = rw granted (narrowed-asked (req.form "scope") rt.scope scope within);
      scope_within = rw granted (narrowed-Within (req.form "scope") rt.scope scope within);
      access = rw granted (tokens.access ∙ ap some signed);
      won = rw granted won;
      spent = spent;
    }

-- Tokens are refreshed only for the authenticated client of a stored refresh token that is neither
-- revoked nor expired, with a proof of the token's DPoP key if it has one, for an enabled user, on
-- an active device if the token names one. The scope of the answer is the one asked for, or that of the
-- stored token where none is; each of its scopes is in the stored token's; and the access token is
-- signed for this user, client, scope, device and key. The stored token has then been rotated by this
-- request, and is spent.
pub grant_refresh_token-Refreshed :
    (env : Env) (req : Request) (s : State) {resp : TokenResponse} {s' : State}
    → grant_refresh_token env req s ≡ (done resp, s')
    → Refreshed env req s resp s'
unfolding grant_refresh_token require_client attempt
grant_refresh_token-Refreshed env req s h =
    let (client, auth, h1) = after_find _ _ _ s h in
    let (_, h2) = after_reject_if _ _ _ s h1 in
    let (rt, found, h3) = after_query _ _ _ s h2 in
    let (own, h4) = after_reject_if _ _ _ s h3 in
    let (live, h5) = after_unless _ _ _ _ s h4 (λ _. refl) in
    let (in_time, h6) = after_reject_if _ _ _ s h5 in
    refresh-Refreshed env req client rt s auth found
      (
        ground (arith, eq_iff rt.client_id client.client_id),
        live,
        ltb→le rt.expires_at env.io.now in_time,
      )
      h6
