-- ===== src/Web/Authorize/Redirects.antt =====
-- No browser is sent to an address that no client takes its answers at.
use mathlib.Core.Path.{subst}
use omni_identity.Prelude.{
  ℕ, String, Bool, true, false, Option, none, some, ◌≡◌, ◌==◌, if◌then◌else◌, Bool-cases, ltb, inl,
  inr,
}
use omni_identity.Model.{Client, Session}
use omni_identity.Store.Clients.{get_client_row}
use omni_identity.Store.Io.{Db, Result, ok, err}
use omni_identity.Store.Sessions.{get_session_row}
use omni_identity.Web.Authorize.{
  Answer, code_to_client, AuthzParams, params_of, enabled_client, redirect_uri_allowed,
  redirect_err, check_params, validate_authorize, park_and_redirect, issue_code, to_login,
  to_consent, proceed, handle_authorize,
}
use omni_identity.Web.Authorize.Targets.{
  answer_uri, Sends, nowhere, bind-Sends, redirect_err-SafeError, silent, exec-Sends,
  or_reject-Sends, unless-Sends, find-Sends,
}
use omni_identity.Web.Authorize.Issued.{asks_login}
use omni_identity.Web.Authorize.Valid.{
  Valid, validate_authorize-Valid, enabled_client-some, true_of,
}
use omni_identity.Web.Handler.{Handler, panicked, done, pure, reject, ended_as}
use omni_identity.Web.Server.{Env, Request, State}
use omni_identity.Web.Sessions.Laws.{choose}
use omni_identity.Web.Sessions.{current, seen, idle, session_cookie}

-- A client that is stored, and enabled, takes its answers at this address.
abbrev pub Registered : Env → Db → String → Type 0
Registered env db uri =
    (id : String) × (client : Client) × (get_client_row env.io id db ≡ ok client)
    × (client.disabled ≡ false)
    × (redirect_uri_allowed env.pop client uri ≡ true)

module _ (P : String → Type 0) where
  code_to_client-Sends :
      (uri code st : String) (s : State)
      → P uri
      → Sends P answer_uri (pure (code_to_client uri code st) s).0
  unfolding pure
  code_to_client-Sends uri code st s safe got h = subst P (some_inj h) safe
    where
      some_inj : {a b : String} → some a ≡ some b → a ≡ b
      some_inj h = cc

  pub issue_code-Sends :
      (env : Env) (p : AuthzParams) (user_id : String) (auth_time : ℕ) (amr : String) (s : State)
      → P p.redirect_uri
      → Sends P answer_uri (issue_code env p user_id auth_time amr s).0
  unfolding issue_code
  issue_code-Sends env p user_id auth_time amr s safe =
      bind-Sends P answer_uri _ _ s
        (exec-Sends P _ _ s (redirect_err-SafeError P env p.redirect_uri _ _ _ safe))
        (λ u stored.
          bind-Sends P answer_uri _ _ _
            (or_reject-Sends P (env.pop.parse_url p.redirect_uri) panicked _ (silent P))
            (λ u parsed. code_to_client-Sends p.redirect_uri env.random_token p.state _ safe))

  park_and_redirect-Sends :
      (env : Env) (p : AuthzParams) (dest : String) (s : State)
      → Sends P answer_uri (park_and_redirect env p dest s).0
  unfolding park_and_redirect pure
  park_and_redirect-Sends env p dest s =
      bind-Sends P answer_uri _ _ s (exec-Sends P _ _ s (silent P)) (λ u stored. silent P)

  refuse-Sends :
      (env : Env) (p : AuthzParams) (code desc : String) (s : State)
      → P p.redirect_uri
      → Sends P answer_uri (reject (redirect_err env p.redirect_uri code desc p.state) s).0
  unfolding reject
  refuse-Sends env p code desc s safe =
      redirect_err-SafeError P env p.redirect_uri code desc p.state safe

  pub if-Sends :
      (b : Bool) (m n : Handler Answer) (s : State)
      → Sends P answer_uri (m s).0
      → Sends P answer_uri (n s).0
      → Sends P answer_uri ((if b then m else n) s).0
  if-Sends true m n s x y = x
  if-Sends false m n s x y = y

  module _ (env : Env) (req : Request) (p : AuthzParams) (s : State) (safe : P p.redirect_uri) where
    to_login-Sends : Sends P answer_uri (to_login env req p s).0
    to_login-Sends =
        if-Sends (req.query_param "prompt" == "none") _ _ s (refuse-Sends env p _ _ s safe)
          (park_and_redirect-Sends env p "/login" s)

    to_consent-Sends : Sends P answer_uri (to_consent env req p s).0
    to_consent-Sends =
        if-Sends (req.query_param "prompt" == "none") _ _ s (refuse-Sends env p _ _ s safe)
          (park_and_redirect-Sends env p "/consent" s)

    proceed-Sends : (o : Option Session) → Sends P answer_uri (proceed env req p o s).0
    proceed-Sends none = to_login-Sends
    proceed-Sends (some sess) = if-Sends (asks_login env req sess) _ _ s to_login-Sends (
        if-Sends p.client.skip_consent _ _ s
          (issue_code-Sends env p sess.user_id sess.created_at sess.amr s safe) to_consent-Sends)

  -- The first check is of the address; the errors after it go there.
  check_params-Sends :
      (env : Env) (p : AuthzParams) (s : State)
      → (redirect_uri_allowed env.pop p.client p.redirect_uri ≡ true → P p.redirect_uri)
      → Sends P nowhere (check_params env p s).0
  unfolding check_params pure
  check_params-Sends env p s safe = unless-Sends P nowhere _ _ _ s (silent P) (λ not_refused.
      let there =
        safe (true_of (redirect_uri_allowed env.pop p.client p.redirect_uri) not_refused) in
      let safe_error = redirect_err-SafeError P env p.redirect_uri in
      unless-Sends P nowhere _ _ _ s (safe_error _ _ p.state there) (λ e1.
        unless-Sends P nowhere _ _ _ s (safe_error _ _ p.state there) (λ e2.
          unless-Sends P nowhere _ _ _ s (safe_error _ _ p.state there) (λ e3.
            unless-Sends P nowhere _ _ _ s (safe_error _ _ p.state there) (λ e4.
              unless-Sends P nowhere _ _ _ s (safe_error _ _ p.state there) (λ e5. silent P))))))

-- A client that the endpoint has found makes its addresses registered.
registered :
    (env : Env) (id uri : String) (db : Db) (client : Client)
    → enabled_client env id db ≡ some client
    → redirect_uri_allowed env.pop client uri ≡ true
    → Registered env db uri
registered env id uri db client found allowed =
    let (known, enabled) = enabled_client-some env id db found in
    (id, client, known, enabled, allowed)

validate_authorize-Sends :
    (env : Env) (req : Request) (s : State)
    → Sends (Registered env s.db) nowhere (validate_authorize env req s).0
unfolding validate_authorize
validate_authorize-Sends env req s =
    find-Sends (Registered env s.db) nowhere _ _ _ s (silent (Registered env s.db)) (λ client found.
      check_params-Sends (Registered env s.db) env (params_of req client) s (
        registered env (req.query_param "client_id") (req.query_param "redirect_uri") s.db client
          found))

choose-Sends :
    (P : String → Type 0) (on late : Bool) (a b : Option Session) (x y z : State)
    → Sends P nowhere (choose on late (done a, x) (done none, y) (done b, z)).0
choose-Sends P false late a b x y z = silent P
choose-Sends P true true a b x y z = silent P
choose-Sends P true false a b x y z = silent P

seen-Sends :
    (P : String → Type 0) (env : Env) (r : Result Session) (s : State)
    → Sends P nowhere (seen env r s).0
seen-Sends P env (err e) s = silent P
seen-Sends P env (ok r) s =
    choose-Sends P (ltb 0 env.settings.session_idle_timeout) (idle env r) _ _ _ _ _

current-Sends :
    (P : String → Type 0) (env : Env) (req : Request) (s : State)
    → Sends P nowhere (current env req s).0
unfolding current
current-Sends P env req s = elim (Bool-cases (req.cookie session_cookie == "")) [
  | inl none_sent ↦ rw none_sent (silent P)
  | inr sent ↦
      rw sent (seen-Sends P env (get_session_row env.io (req.cookie session_cookie) s.db) s)
]

Valid-uri :
    (env : Env) (req : Request) (s : State) (p : AuthzParams)
    → Valid env req s.db p
    → Registered env s.db p.redirect_uri
Valid-uri env req s p v =
    (req.query_param "client_id", p.client, v.known, v.enabled, v.checked.allowed)

-- Whatever the authorization endpoint answers, a code or an error that it sends the browser away
-- with goes to an address that a stored and enabled client is registered with, or that a loopback
-- address of it matches; every other answer stays on this server.
pub handle_authorize-Registered :
    (env : Env) (req : Request) (s : State)
    → Sends (Registered env s.db) answer_uri (handle_authorize env req s).0
unfolding handle_authorize
handle_authorize-Registered env req s =
    let P = Registered env s.db in
    bind-Sends P answer_uri _ _ s (validate_authorize-Sends env req s) (λ p validated.
      let (_, valid) = validate_authorize-Valid env req s (ended_as _ validated) in
      bind-Sends P answer_uri _ _ _ (current-Sends P env req _)
        (λ o looked. proceed-Sends P env req p _ (Valid-uri env req s p valid) o))
