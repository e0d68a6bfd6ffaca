-- ===== src/Web/Authorize/Issued.antt =====
-- What an authorization code stands for.
use mathlib.Core.Path.{subst}
use omni_identity.Prelude.{
  ℕ, String, Bool, true, false, ◌||◌, Option, none, some, ◌∷◌, ◌≡◌, refl, arith, ◌==◌, ◌∙◌, ap,
  Bool-cases, inl, inr, any,
}
use omni_identity.Model.{Session, AuthorizationCode}
use omni_identity.Store.AuthCodes.{create_auth_code, has_hash}
use omni_identity.Store.Io.{Db, Io, Result, ok, Stmt}
use omni_identity.Web.Authorize.{
  Answer, code_to_client, to_page, AuthzParams, max_age_exceeded, new_code, issue_code, proceed,
  to_login, to_consent, park_and_redirect, handle_authorize,
}
use omni_identity.Web.Authorize.Valid.{Valid, validate_authorize-Valid}
use omni_identity.Web.Handler.{
  Reply, done, pure, reject, ◌>>=◌, after_bind, after_exec, after_or_reject, if_taken, if_passed,
  ended_as,
}
use omni_identity.Web.Server.{Env, Request, State}
use omni_identity.Web.Sessions.{current}
use omni_identity.Web.Sessions.Laws.{Live, current-Live, current-codes}

abbrev Ended : Type 0
Ended = Reply Answer × State

done-inj :
    {a b : Answer} {s s' : State} → ◌≡◌ {A = Ended} (done a, s) (done b, s') → (b ≡ a) × (s' ≡ s)
done-inj h = (cc, cc)

create_auth_code-row :
    (io : Io) (c : AuthorizationCode) (db : Db)
    → (create_auth_code io c db).0 ≡ ok tt
    → (create_auth_code io c db).1.auth_codes ≡ c ∷ db.auth_codes
unfolding create_auth_code
create_auth_code-row io c db h =
    elim (Bool-cases (io.fails Stmt.create_code || any (has_hash c.code_hash) db.auth_codes)) [
      | inl bad ↦ absurd (ground arith)
      | inr fine ↦ rw fine refl
    ]

pub issue_code-row :
    (env : Env) (p : AuthzParams) (user_id : String) (auth_time : ℕ) (amr : String) (s : State)
    {a : Answer} {s' : State}
    → issue_code env p user_id auth_time amr s ≡ (done a, s')
    → (a ≡ code_to_client p.redirect_uri env.random_token p.state)
      × (s'.db.auth_codes ≡ new_code env p user_id auth_time amr ∷ s.db.auth_codes)
unfolding issue_code pure
issue_code-row env p user_id auth_time amr s h =
    let (u, stored, h1) = after_exec _ _ _ s h in
    let (_, _, h2) = after_or_reject _ _ _ _ h1 in
    let (answer, state) = done-inj h2 in
    let row =
      create_auth_code-row env.io (new_code env p user_id auth_time amr) s.db (is_ok stored) in
    (answer, rw state row)
  where
    is_ok : {r : Result (Unit {0})} {u : Unit {0}} → r ≡ ok u → r ≡ ok tt
    is_ok {u = tt} e = e

park_and_redirect-page :
    (env : Env) (p : AuthzParams) (dest : String) (s : State) {a : Answer} {s' : State}
    → park_and_redirect env p dest s ≡ (done a, s')
    → a ≡ to_page dest env.random_token
unfolding park_and_redirect pure
park_and_redirect-page env p dest s h =
    let (u, stored, h1) = after_exec _ _ _ s h in (done-inj h1).0

-- A browser that is sent to a page of this server takes no code to the client.
abbrev IsPage : Answer → Type 0
IsPage a = (dest id : String) × (a ≡ to_page dest id)

to_login-IsPage :
    (env : Env) (req : Request) (p : AuthzParams) (s : State) {a : Answer} {s' : State}
    → to_login env req p s ≡ (done a, s')
    → a ≡ to_page "/login" env.random_token
unfolding reject
to_login-IsPage env req p s h = elim (Bool-cases (req.query_param "prompt" == "none")) [
  | inl silent ↦ absurd (ground arith)
  | inr free ↦ park_and_redirect-page env p "/login" s (rw free at h)
]

to_consent-IsPage :
    (env : Env) (req : Request) (p : AuthzParams) (s : State) {a : Answer} {s' : State}
    → to_consent env req p s ≡ (done a, s')
    → a ≡ to_page "/consent" env.random_token
unfolding reject
to_consent-IsPage env req p s h = elim (Bool-cases (req.query_param "prompt" == "none")) [
  | inl silent ↦ absurd (ground arith)
  | inr free ↦ park_and_redirect-page env p "/consent" s (rw free at h)
]

pub code_not_page :
    {uri code st dest id : String} → code_to_client uri code st ≡ to_page dest id → ⊥
code_not_page e = cc

abbrev pub asks_login : Env → Request → Session → Bool
asks_login env req sess =
    req.query_param "prompt" == "login"
    || max_age_exceeded (req.query_param "max_age") sess.created_at env.io.now

proceed-code :
    (env : Env) (req : Request) (p : AuthzParams) (o : Option Session) (s : State)
    {uri code st : String} {s' : State}
    → proceed env req p o s ≡ (done (code_to_client uri code st), s')
    → (sess : Session) × (o ≡ some sess)
      × (asks_login env req sess ≡ false)
      × (p.client.skip_consent ≡ true)
      × (issue_code env p sess.user_id sess.created_at sess.amr s
          ≡ (done (code_to_client uri code st), s'))
proceed-code env req p none s h = absurd (code_not_page (to_login-IsPage env req p s h))
proceed-code env req p (some sess) s h = elim (Bool-cases (asks_login env req sess)) [
  | inl asks ↦ absurd (code_not_page (to_login-IsPage env req p s (if_taken _ _ _ s asks h)))
  | inr quiet ↦
      let h1 = if_passed (asks_login env req sess) _ _ s quiet h in
      elim (Bool-cases p.client.skip_consent) [
        | inl trusted ↦
            (sess, refl, quiet, trusted, if_taken p.client.skip_consent _ _ s trusted h1)
        | inr asked ↦ absurd (
            code_not_page
              (to_consent-IsPage env req p s (if_passed p.client.skip_consent _ _ s asked h1)))
      ]
]

-- A code that the authorization endpoint gives at once: what the request, the client and the session
-- were, and the row that is stored for it.
pub record IssuedCode (env : Env) (req : Request) (s : State) (uri code st : String) (s' : State)
    : Type 0 where
  pub params : AuthzParams
  pub valid : Valid env req s.db params
  pub session : Session
  pub live : Live env req s.db session
  pub no_login : (req.query_param "prompt" == "login") ≡ false
  pub recent : max_age_exceeded (req.query_param "max_age") session.created_at env.io.now ≡ false
  pub consented : params.client.skip_consent ≡ true
  pub address : uri ≡ params.redirect_uri
  pub raw : code ≡ env.random_token
  pub echoed : st ≡ params.state
  pub row :
      s'.db.auth_codes
      ≡ new_code env params session.user_id session.created_at session.amr ∷ s.db.auth_codes

issued :
    (env : Env) (req : Request) (s s2 : State) (p : AuthzParams) (sess : Session)
    {uri code st : String} {s' : State}
    → Valid env req s.db p
    → Live env req s.db sess
    → s2.db.auth_codes ≡ s.db.auth_codes
    → asks_login env req sess ≡ false
    → p.client.skip_consent ≡ true
    → issue_code env p sess.user_id sess.created_at sess.amr s2
      ≡ (done (code_to_client uri code st), s')
    → IssuedCode env req s uri code st s'
issued env req s s2 p sess valid live kept quiet trusted h =
    let (answer, row) = issue_code-row env p sess.user_id sess.created_at sess.amr s2 h in
    record {
      params = p;
      valid = valid;
      session = sess;
      live = live;
      no_login = first (req.query_param "prompt" == "login") _ quiet;
      recent = second (req.query_param "prompt" == "login") _ quiet;
      consented = trusted;
      address = cc;
      raw = cc;
      echoed = cc;
      row = rw kept at row;
    }
  where
    first : (a b : Bool) → (a || b) ≡ false → a ≡ false
    first false b h = refl
    first true b h = h

    second : (a b : Bool) → (a || b) ≡ false → b ≡ false
    second false b h = h
    second true b h = cc

-- A code that the authorization endpoint gives without showing a page goes to the address of the
-- request, which the enabled client is registered with or matches as a loopback address; the scopes
-- are the client's, `openid` among them; a public client gave a code challenge, and any challenge is
-- of S256; the browser has a live session, the request does not ask for a login, and the login is
-- not older than the request allows; the client needs no consent. The row that is stored is for this
-- client, address, challenge and scope, and for the user of the session with the time of its login.
pub handle_authorize-IssuedCode :
    (env : Env) (req : Request) (s : State) {uri code st : String} {s' : State}
    → handle_authorize env req s ≡ (done (code_to_client uri code st), s')
    → IssuedCode env req s uri code st s'
unfolding handle_authorize
handle_authorize-IssuedCode env req s {uri} {code} {st} {s'} h =
    let (p, ended, h1) = after_bind _ _ s h in
    let (same, valid) = validate_authorize-Valid env req s (ended_as _ ended) in
    let h2 : (current env req >>= proceed env req p) s ≡ (done (code_to_client uri code st), s') =
      subst
        (λ x. (current env req >>= proceed env req p) x ≡ (done (code_to_client uri code st), s'))
        same h1 in
    let (o, looked, h3) = after_bind _ _ s h2 in
    let (sess, there, quiet, trusted, h4) = proceed-code env req p o _ h3 in
    issued env req s (current env req s).1 p sess valid
      (current-Live env req s (ended_as _ (looked ∙ ap (λ x. done x) there)))
      (current-codes env req s) quiet trusted h4
