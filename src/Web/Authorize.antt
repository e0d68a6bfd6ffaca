-- ===== src/Web/Authorize.antt =====
-- internal/web/authorize_handler.go: the authorization endpoint, where a browser gets a code that it
-- takes to the client.
pub mod Valid
pub mod Issued
pub mod Targets
pub mod Redirects
use Prim.Native.String.{◌++◌}
use omni_identity.Prelude.{
  ℕ, ◌+◌, ◌-◌, ◌*◌, ◌%◌, String, Bool, true, false, not, ◌&&◌, ◌||◌, Option, none, some, List, [],
  ◌∷◌, ◌==◌, ltb, if◌then◌else◌, any,
}
use omni_identity.Prelude.Digits.{atoi_not_negative}
use omni_identity.Model.{Client, Session, AuthRequest, AuthorizationCode, is_public, second, is_nil}
use omni_identity.Oidc.Scope.{has_scope, split_scope, scopes_subset, scope_open_id}
use omni_identity.Pop.{Pop, Url}
use omni_identity.Store.Io.{Db, Result, ok, err}
use omni_identity.Store.AuthCodes.{create_auth_code}
use omni_identity.Store.AuthRequests.{create_auth_request, get_auth_request, delete_auth_request}
use omni_identity.Store.Clients.{get_client_row}
use omni_identity.Web.Server.{Env, Request}
use omni_identity.Web.Handler.{
  Handler, HttpError, page, error_to_client, panicked, pure, reject, exec, query, or_reject,
  find_or_reject, reject_if, attempt, ◌>>=◌, ◌>>◌,
}
use omni_identity.Web.Sessions.{current}

-- How a browser request ends well: it takes a code and the state to the client, is sent to a page
-- of this server with the id of a parked request, or is shown a form.
pub data Answer : Type 0 where
  code_to_client : String → String → String → Answer
  to_page : String → String → Answer
  form_shown : Answer

pub record AuthzParams : Type 0 where
  pub client : Client
  pub response_type : String
  pub redirect_uri : String
  pub scope : String
  pub state : String
  pub nonce : String
  pub challenge : String
  pub method : String

abbrev auth_code_ttl : ℕ
auth_code_ttl = 300 * second

abbrev auth_request_ttl : ℕ
auth_request_ttl = 600 * second

abbrev pub loopback_host : String → Bool
loopback_host h = h == "127.0.0.1" || h == "::1"

-- The two addresses, parsed.
abbrev pub same_but_port : Option Url → Option Url → Bool
same_but_port (some ru) (some pu) =
    ru.scheme == "http"
    && ru.port == ""
    && loopback_host ru.hostname
    && pu.scheme == "http"
    && pu.hostname == ru.hostname
    && pu.path == ru.path
    && pu.raw_query == ru.raw_query
    && pu.fragment == ""
    && not pu.has_user
same_but_port _ _ = false

unfoldable pub loopback_redirect_matches : Pop → String → String → Bool
loopback_redirect_matches pop registered presented =
    same_but_port (pop.parse_url registered) (pop.parse_url presented)

unfoldable pub redirect_uri_allowed : Pop → Client → String → Bool
redirect_uri_allowed pop c uri =
    not (uri == "")
    && any (λ allowed. allowed == uri || loopback_redirect_matches pop allowed uri) c.redirect_uris

unfoldable pub post_logout_redirect_allowed : Client → String → Bool
post_logout_redirect_allowed c uri =
    not (uri == "") && any (λ allowed. allowed == uri) c.post_logout_redirect_uris

-- An address that does not parse is not gone to.
unfoldable pub redirect_err : Env → String → String → String → String → HttpError
redirect_err env uri code desc state =
    if is_nil (env.pop.parse_url uri)
    then page 400 "invalid redirect_uri"
    else error_to_client uri code desc state

-- time.Duration(secs)*time.Second as an int64 that wraps, and time.Since, both of which may be
-- below 0: `elapsed` is the age, and `ahead` how far the login lies in the future.
abbrev older_than : ℕ → ℕ → ℕ → Bool
older_than wrapped elapsed ahead =
    if ltb wrapped 9_223_372_036_854_775_808
    then ltb wrapped elapsed
    else ltb ahead (18_446_744_073_709_551_616 - wrapped)

abbrev exceeds : Option ℕ → ℕ → ℕ → Bool
exceeds none auth_time now = false
exceeds (some secs) auth_time now =
    older_than (secs * second % 18_446_744_073_709_551_616) (now - auth_time) (auth_time - now)

unfoldable pub max_age_exceeded : String → ℕ → ℕ → Bool
max_age_exceeded max_age auth_time now =
    if max_age == "" then false else exceeds (atoi_not_negative max_age) auth_time now

abbrev pub if_enabled : Result Client → Option Client
if_enabled (err e) = none
if_enabled (ok c) = if c.disabled then none else some c

unfoldable pub enabled_client : Env → String → Db → Option Client
enabled_client env id db = if_enabled (get_client_row env.io id db)

abbrev unknown_app : String
unknown_app = "We don't recognize the application that sent you here."

abbrev pub params_of : Request → Client → AuthzParams
params_of req client = record {
  client = client;
  response_type = req.query_param "response_type";
  redirect_uri = req.query_param "redirect_uri";
  scope = req.query_param "scope";
  state = req.query_param "state";
  nonce = req.query_param "nonce";
  challenge = req.query_param "code_challenge";
  method = req.query_param "code_challenge_method";
}

abbrev refuse_param : Env → AuthzParams → Bool → String → String → Handler (Unit {0})
refuse_param env p t code desc = reject_if t (redirect_err env p.redirect_uri code desc p.state)

-- The checks of the parameters, for a client that is found and enabled.
unfoldable pub check_params : Env → AuthzParams → Handler AuthzParams
check_params env p = do
  reject_if (not (redirect_uri_allowed env.pop p.client p.redirect_uri))
      (page 400 "The application's return address is not registered with Omni Identity.")
  refuse_param env p (not (p.response_type == "code")) "unsupported_response_type"
      "only response_type=code is supported"
  refuse_param env p (not (has_scope p.scope scope_open_id)) "invalid_scope"
      "the openid scope is required"
  refuse_param env p (not (scopes_subset (split_scope p.scope) p.client.allowed_scopes))
      "invalid_scope" "requested scope is not allowed for this client"
  refuse_param env p (is_public p.client && p.challenge == "") "invalid_request"
      "PKCE code_challenge is required for public clients"
  refuse_param env p (not (p.challenge == "") && not (p.method == "S256")) "invalid_request"
      "only the S256 code_challenge_method is supported"
  pure p

unfoldable pub validate_authorize : Env → Request → Handler AuthzParams
validate_authorize env req = do
  client ← find_or_reject (enabled_client env (req.query_param "client_id")) (page 400 unknown_app)
  check_params env (params_of req client)

unfoldable pub parked_request : Env → AuthzParams → AuthRequest
parked_request env p = record {
  id = env.random_token;
  client_id = p.client.client_id;
  redirect_uri = p.redirect_uri;
  response_type = p.response_type;
  scope = p.scope;
  state = p.state;
  nonce = p.nonce;
  code_challenge = p.challenge;
  code_challenge_method = p.method;
  created_at = env.io.now;
  expires_at = env.io.now + auth_request_ttl;
}

unfoldable pub park_and_redirect : Env → AuthzParams → String → Handler Answer
park_and_redirect env p dest = do
  exec (create_auth_request env.io (parked_request env p))
      (page 500 "We couldn't start the sign-in. Please try again.")
  pure (to_page dest env.random_token)

unfoldable pub new_code : Env → AuthzParams → String → ℕ → String → AuthorizationCode
new_code env p user_id auth_time amr = record {
  code_hash = env.hash env.random_token;
  client_id = p.client.client_id;
  user_id = user_id;
  redirect_uri = p.redirect_uri;
  scope = p.scope;
  nonce = p.nonce;
  code_challenge = p.challenge;
  code_challenge_method = p.method;
  expires_at = env.io.now + auth_code_ttl;
  used = false;
  created_at = env.io.now;
  auth_time = auth_time;
  amr = amr;
}

-- The error of url.Parse is dropped, and its result used: a nil pointer where it fails.
unfoldable pub issue_code : Env → AuthzParams → String → ℕ → String → Handler Answer
issue_code env p user_id auth_time amr = do
  exec (create_auth_code env.io (new_code env p user_id auth_time amr))
      (redirect_err env p.redirect_uri "server_error" "could not issue authorization code" p.state)
  _ ← or_reject (env.pop.parse_url p.redirect_uri) panicked
  pure (code_to_client p.redirect_uri env.random_token p.state)

abbrev refuse_prompt : Env → AuthzParams → String → String → Handler Answer
refuse_prompt env p code desc = reject (redirect_err env p.redirect_uri code desc p.state)

abbrev pub to_login : Env → Request → AuthzParams → Handler Answer
to_login env req p =
    if req.query_param "prompt" == "none"
    then refuse_prompt env p "login_required" "authentication is required but prompt=none was set"
    else park_and_redirect env p "/login"

abbrev pub to_consent : Env → Request → AuthzParams → Handler Answer
to_consent env req p =
    if req.query_param "prompt" == "none"
    then refuse_prompt env p "consent_required" "consent is required but prompt=none was set"
    else park_and_redirect env p "/consent"

abbrev pub proceed : Env → Request → AuthzParams → Option Session → Handler Answer
proceed env req p none = to_login env req p
proceed env req p (some sess) =
    if req.query_param "prompt" == "login"
      || max_age_exceeded (req.query_param "max_age") sess.created_at env.io.now
    then to_login env req p
    else if p.client.skip_consent
    then issue_code env p sess.user_id sess.created_at sess.amr
    else to_consent env req p

unfoldable pub handle_authorize : Env → Request → Handler Answer
handle_authorize env req = do
  p ← validate_authorize env req
  sess ← current env req
  proceed env req p sess

-- The parameters of a parked request, with its client as it is now.
abbrev pub resumed : AuthRequest → Client → AuthzParams
resumed a client = record {
  client = client;
  response_type = a.response_type;
  redirect_uri = a.redirect_uri;
  scope = a.scope;
  state = a.state;
  nonce = a.nonce;
  challenge = a.code_challenge;
  method = a.code_challenge_method;
}

unfoldable pub load_auth_request : Env → String → Handler AuthzParams
load_auth_request env id = do
  a ←
      query (get_auth_request env.io id)
        (page 400 "This sign-in link has expired. Please return to the application and try again.")
  client ← find_or_reject (enabled_client env a.client_id) (page 400 unknown_app)
  reject_if (not (redirect_uri_allowed env.pop client a.redirect_uri))
      (page 400 "The application's return address is no longer registered.")
  pure (resumed a client)

abbrev pub peek_client : Env → AuthRequest → Option Client → Option AuthzParams
peek_client env a none = none
peek_client env a (some client) =
    if redirect_uri_allowed env.pop client a.redirect_uri then some (resumed a client) else none

abbrev pub peeked : Env → Db → Result AuthRequest → Option AuthzParams
peeked env db (err e) = none
peeked env db (ok a) = peek_client env a (enabled_client env a.client_id db)

unfoldable pub peek_auth_request : Env → String → Db → Option AuthzParams
peek_auth_request env id db = peeked env db (get_auth_request env.io id db)

-- auth_handlers.go: an authenticated user goes on with a parked request.
unfoldable pub continue_after_auth :
    Env → AuthzParams → String → String → ℕ → String → Handler Answer
continue_after_auth env p req_id user_id auth_time amr =
    if p.client.skip_consent
    then (do attempt (delete_auth_request env.io req_id); issue_code env p user_id auth_time amr)
    else pure (to_page "/consent" req_id)
