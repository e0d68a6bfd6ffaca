-- ===== src/Web/Authorize/Valid.antt =====
-- What a validated authorization request satisfies.
use mathlib.Core.Path.{subst}
use omni_identity.Prelude.{
  String, Bool, true, false, not, ◌&&◌, some, ◌≡◌, ◌≢◌, refl, arith, ◌==◌, eq_iff, ap, sym, inl,
  inr, Bool-cases, eq_of_refusal,
}
use omni_identity.Model.{Client, is_public}
use omni_identity.Oidc.Scope.{has_scope, split_scope, scopes_subset, scope_open_id}
use omni_identity.Store.Io.{Db, Result, ok, err}
use omni_identity.Store.Clients.{get_client_row}
use omni_identity.Web.Server.{Env, Request, State}
use omni_identity.Web.Handler.{Reply, done, pure, after_find, after_reject_if}
use omni_identity.Web.Authorize.{
  AuthzParams, params_of, enabled_client, if_enabled, redirect_uri_allowed, check_params,
  validate_authorize,
}

if_enabled-some :
    (r : Result Client) {c : Client} → if_enabled r ≡ some c → (r ≡ ok c) × (c.disabled ≡ false)
if_enabled-some (err e) h = absurd (cc)
if_enabled-some (ok d) {c} h = elim (Bool-cases d.disabled) [
  | inl off ↦ absurd (ground arith)
  | inr on ↦
      let same : d ≡ c = ground arith in (ap ok same, subst (λ x. x.disabled ≡ false) same on)
]

pub enabled_client-some :
    (env : Env) (id : String) (db : Db) {c : Client}
    → enabled_client env id db ≡ some c
    → (get_client_row env.io id db ≡ ok c) × (c.disabled ≡ false)
unfolding enabled_client
enabled_client-some env id db h = if_enabled-some (get_client_row env.io id db) h

-- What the checks establish of the parameters.
pub record Checked (env : Env) (p : AuthzParams) : Type 0 where
  pub allowed : redirect_uri_allowed env.pop p.client p.redirect_uri ≡ true
  pub code_asked : p.response_type ≡ "code"
  pub openid : has_scope p.scope scope_open_id ≡ true
  pub within : scopes_subset (split_scope p.scope) p.client.allowed_scopes ≡ true
  pub pkce : is_public p.client ≡ true → p.challenge ≢ ""
  pub hashed : p.challenge ≢ "" → p.method ≡ "S256"

pub true_of : (b : Bool) → not b ≡ false → b ≡ true
true_of true h = refl
true_of false h = cc

ne_of_guarded : (b : Bool) (s t : String) → (b && s == t) ≡ false → b ≡ true → s ≢ t
ne_of_guarded b s t h e same = ground (arith, eq_iff s t)

eq_of_both : (s t u : String) → (not (s == t) && not (u == "S256")) ≡ false → s ≢ t → u ≡ "S256"
eq_of_both s t u h other = ground (arith, eq_iff s t, eq_iff u "S256")

check_params-Checked :
    (env : Env) (p : AuthzParams) (s : State) {q : AuthzParams} {s' : State}
    → check_params env p s ≡ (done q, s')
    → (q ≡ p) × (s' ≡ s) × Checked env p
unfolding check_params pure
check_params-Checked env p s h =
    let (allowed, h1) = after_reject_if _ _ _ s h in
    let (code_asked, h2) = after_reject_if _ _ _ s h1 in
    let (openid, h3) = after_reject_if _ _ _ s h2 in
    let (within, h4) = after_reject_if _ _ _ s h3 in
    let (pkce, h5) = after_reject_if _ _ _ s h4 in
    let (hashed, h6) = after_reject_if _ _ _ s h5 in
    (
      done-eq h6,
      state-eq h6,
      record {
        allowed = true_of (redirect_uri_allowed env.pop p.client p.redirect_uri) allowed;
        code_asked = eq_of_refusal p.response_type "code" code_asked;
        openid = true_of (has_scope p.scope scope_open_id) openid;
        within = true_of (scopes_subset (split_scope p.scope) p.client.allowed_scopes) within;
        pkce = ne_of_guarded (is_public p.client) p.challenge "" pkce;
        hashed = eq_of_both p.challenge "" p.method hashed;
      },
    )
  where
    done-eq :
        {a b : AuthzParams} {s s' : State}
        → ◌≡◌ {A = Reply AuthzParams × State} (done a, s) (done b, s')
        → b ≡ a
    done-eq h = cc

    state-eq :
        {a b : AuthzParams} {s s' : State}
        → ◌≡◌ {A = Reply AuthzParams × State} (done a, s) (done b, s')
        → s' ≡ s
    state-eq h = cc

-- A request that is valid, with its client as it is stored.
pub record Valid (env : Env) (req : Request) (db : Db) (p : AuthzParams) : Type 0 where
  pub known : get_client_row env.io (req.query_param "client_id") db ≡ ok p.client
  pub enabled : p.client.disabled ≡ false
  pub params : p ≡ params_of req p.client
  pub checked : Checked env p

params_of-Valid :
    (env : Env) (req : Request) (client : Client) (s : State) {p : AuthzParams} {s' : State}
    → (get_client_row env.io (req.query_param "client_id") s.db ≡ ok client)
      × (client.disabled ≡ false)
    → check_params env (params_of req client) s ≡ (done p, s')
    → (s' ≡ s) × Valid env req s.db p
params_of-Valid env req client s (known, enabled) h =
    let (same, kept, checked) = check_params-Checked env (params_of req client) s h in
    (
      kept,
      subst (Valid env req s.db) (sym same)
          (record { known = known; enabled = enabled; params = refl; checked = checked }),
    )

pub validate_authorize-Valid :
    (env : Env) (req : Request) (s : State) {p : AuthzParams} {s' : State}
    → validate_authorize env req s ≡ (done p, s')
    → (s' ≡ s) × Valid env req s.db p
unfolding validate_authorize
validate_authorize-Valid env req s h =
    let (client, found, h1) = after_find _ _ _ s h in
    params_of-Valid env req client s
      (enabled_client-some env (req.query_param "client_id") s.db found) h1
