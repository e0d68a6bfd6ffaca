-- ===== src/Web/CodeGrant/Redeem.antt =====
-- What the authorization_code grant has checked when it answers with tokens, and that it spends the
-- code.
use omni_identity.Prelude.{
  ℕ, ◌≤◌, String, true, false, none, some, ◌≡◌, ◌≢◌, ◌⊎◌, arith, eq_iff, refl, ap, ◌∙◌, List, find,
  any,
}
use mathlib.Core.Path.{subst}
use omni_identity.Model.{User, Client, AuthorizationCode, RefreshToken, AuditEvent, is_public}
use omni_identity.Oidc.Pkce.{verify_pkce}
use omni_identity.Store.Io.{Db, Io}
use omni_identity.Store.Clients.{append_audit_event}
use omni_identity.Store.AuthCodes.{mark_used, has_hash}
use omni_identity.Store.AuthCodes.Laws.{code_row, Consumed, consume_auth_code-Consumed}
use omni_identity.Store.AuthCodes.Dead.{
  CodeOp, run, AllSpare, Dead, fresh, run-Dead, marked-Dead, Dead-found,
}
use omni_identity.Store.RefreshTokens.{create_refresh_token}
use omni_identity.Web.Server.{Env, Request, State}
use omni_identity.Web.Handler.{
  Reply, done, after_find, after_reject_if, after_reject_some, after_exec,
}
use omni_identity.Web.Handler.Keeps.{Keeps, keeps_rules}
use omni_identity.Web.ClientAuth.{authenticate_client}
use omni_identity.Web.Issue.{TokenResponse, TokenContext}
use omni_identity.Web.Grants.{available_user, require_client, require_user, issue_refresh}
use omni_identity.Web.Grants
use omni_identity.Web.Grants.Keeps.{issue_refresh-Keeps, issued-Keeps, require_user-Keeps}
use omni_identity.Web.CodeGrant.{pkce_error, redeem, grant_authorization_code}

create_refresh_token-auth_codes :
    (io : Io) (rt : RefreshToken) (db : Db)
    → (create_refresh_token io rt db).1.auth_codes ≡ db.auth_codes
unfolding create_refresh_token
create_refresh_token-auth_codes io rt db = ground arith

append_audit_event-auth_codes :
    (io : Io) (ev : AuditEvent) (db : Db) → (append_audit_event io ev db).auth_codes ≡ db.auth_codes
unfolding append_audit_event
append_audit_event-auth_codes io ev db = ground arith

-- Where the verifier passes: the challenge is met, or there is none and the client keeps a secret.
abbrev pub PkceMet : Env → AuthorizationCode → Client → String → Type 0
PkceMet env code client verifier =
    ((code.code_challenge ≢ "")
      × (verifier ≢ "")
      × (verify_pkce env.s256 verifier code.code_challenge code.code_challenge_method ≡ true))
    ⊎ ((code.code_challenge ≡ "") × (is_public client ≡ false))

pkce_error-PkceMet :
    (env : Env) (code : AuthorizationCode) (client : Client) (verifier : String)
    → pkce_error env code client verifier ≡ none
    → PkceMet env code client verifier
unfolding pkce_error
pkce_error-PkceMet env code client verifier h =
    ground (arith, eq_iff code.code_challenge "", eq_iff verifier "")

-- What is true of a redemption that answers with tokens.
pub record Redeemed (env : Env) (req : Request) (s : State) (resp : TokenResponse) (s' : State)
    : Type 0 where
  pub client : Client
  pub authenticated : authenticate_client env req s.db ≡ some client
  pub stored : AuthorizationCode
  pub found : code_row (env.hash (req.form "code")) s.db ≡ some stored
  pub unused : stored.used ≡ false
  pub in_time : env.io.now ≤ stored.expires_at
  pub own : stored.client_id ≡ client.client_id
  pub redirect : stored.redirect_uri ≡ req.form "redirect_uri"
  pub pkce : PkceMet env stored client (req.form "code_verifier")
  pub burnt : code_row (env.hash (req.form "code")) s'.db ≡ some (mark_used stored)
  pub dead : Dead (env.hash (req.form "code")) s'.db.auth_codes

-- The steps after the consumption leave the codes alone.
redeem-auth_codes :
    (env : Env) (req : Request) (client : Client) (code : AuthorizationCode)
    (rows : List AuthorizationCode)
    → Keeps (λ db. db.auth_codes ≡ rows) (redeem env req client code)
unfolding redeem
redeem-auth_codes env req client code rows =
    search (keeps_rules, require_user-Keeps, issued, refresh) depth 12
  where
    issued :
        (client : Client) (user : User) (detail : String) (resp : TokenResponse)
        → Keeps (λ db. db.auth_codes ≡ rows) (Grants.issued env req client user detail resp)
    issued = issued-Keeps env (λ ev db e. rw (append_audit_event-auth_codes env.io ev db) e) req

    refresh :
        (client : Client) (user : User) (scope : String) (t : ℕ) (tc : TokenContext)
        (resp : TokenResponse)
        → Keeps (λ db. db.auth_codes ≡ rows) (issue_refresh env client user scope t tc resp)
    refresh =
        issue_refresh-Keeps env (λ rt db e. rw (create_refresh_token-auth_codes env.io rt db) e)

-- What `redeem` has checked.
redeem_checked :
    (env : Env) (req : Request) (client : Client) (code : AuthorizationCode) (s : State)
    {resp : TokenResponse} {s' : State}
    → redeem env req client code s ≡ (done resp, s')
    → (code.client_id ≡ client.client_id)
      × (code.redirect_uri ≡ req.form "redirect_uri")
      × PkceMet env code client (req.form "code_verifier")
unfolding redeem
redeem_checked env req client code s h =
    let (own, h1) = after_reject_if _ _ _ s h in
    let (redirect, h2) = after_reject_if _ _ _ s h1 in
    let (pkce, _) = after_reject_some _ _ s h2 in
    (
      ground (arith, eq_iff code.client_id client.client_id),
      ground (arith, eq_iff code.redirect_uri (req.form "redirect_uri")),
      pkce_error-PkceMet env code client (req.form "code_verifier") pkce,
    )

redeem-Redeemed :
    (env : Env) (req : Request) (s : State) (client : Client) (code : AuthorizationCode) (db : Db)
    {resp : TokenResponse} {s' : State}
    → authenticate_client env req s.db ≡ some client
    → Consumed env.io (env.hash (req.form "code")) s.db code db
    → redeem env req client code (record s { db = db }) ≡ (done resp, s')
    → Redeemed env req s resp s'
redeem-Redeemed env req s client code db {resp} {s'} auth c h =
    let checked = redeem_checked env req client code (record s { db = db }) h in
    let h' = env.hash (req.form "code") in
    let kept =
      (redeem-auth_codes env req client code db.auth_codes).at (record s { db = db }) refl in
    let same : s'.db.auth_codes ≡ db.auth_codes =
      subst (λ (p : Reply TokenResponse × State). p.1.db.auth_codes ≡ db.auth_codes) h kept in
    record {
      client = client;
      authenticated = auth;
      stored = c.stored;
      found = c.found;
      unused = c.unused;
      in_time = c.in_time;
      own = cc (c.same, checked.0);
      redirect = cc (c.same, checked.1);
      pkce = rw c.same at (checked.2);
      burnt = ap (find (has_hash h')) same ∙ c.burnt;
      dead = ap (any (fresh h')) (same ∙ c.rows) ∙ marked-Dead h' s.db.auth_codes;
    }

-- Tokens are issued for a code only to the authenticated client that it was issued to, at the
-- redirect URI that it was issued for, unused and in time, with its PKCE challenge met (or, where
-- it has none, to a client that is not public); and the code is then marked used.
pub grant_authorization_code-Redeemed :
    (env : Env) (req : Request) (s : State) {resp : TokenResponse} {s' : State}
    → grant_authorization_code env req s ≡ (done resp, s')
    → Redeemed env req s resp s'
unfolding grant_authorization_code require_client
grant_authorization_code-Redeemed env req s {resp} {s'} h =
    let (client, auth, h1) = after_find _ _ _ s h in
    let (_, h2) = after_reject_if _ _ _ s h1 in
    let (code, took, h3) = after_exec _ _ _ s h2 in
    redeem-Redeemed env req s client code _ auth
      (consume_auth_code-Consumed env.io (env.hash (req.form "code")) s.db took) h3

-- After a redemption that issued tokens, and whatever the program then
-- does to the table of codes (creations of other codes, consumptions and sweeps, whatever fails in
-- them), no request with the same code is answered with tokens, whatever its client, its other
-- parameters, its time and the failures of the store. Each statement on the table runs on its own
-- here: two consumptions that overlap are not covered.
pub redeem_once :
    (env env' : Env) (req req' : Request) (s s' t t' : State) (resp resp' : TokenResponse)
    (ops : List CodeOp)
    → grant_authorization_code env req s ≡ (done resp, s')
    → AllSpare (env.hash (req.form "code")) ops
    → t.db.auth_codes ≡ (run ops s'.db).auth_codes
    → env'.hash (req'.form "code") ≡ env.hash (req.form "code")
    → grant_authorization_code env' req' t ≢ (done resp', t')
redeem_once env env' req req' s s' t t' resp resp' ops first spares reached same second =
    let h = env.hash (req.form "code") in
    let one = grant_authorization_code-Redeemed env req s first in
    let two = grant_authorization_code-Redeemed env' req' t second in
    let dead : Dead h t.db.auth_codes =
      ap (any (fresh h)) reached ∙ run-Dead h ops s'.db spares one.dead in
    let again : find (has_hash h) t.db.auth_codes ≡ some two.stored = rw same at two.found in
    Dead-found h t.db.auth_codes dead again two.unused
