-- ===== src/Tests/Browser.antt =====
-- The pages of the login and of the authorization endpoint on the small server.
use omni_identity.Prelude.{
  ◌+◌, ◌*◌, String, true, false, some, List, [], ◌∷◌, ◌≡◌, ◌≢◌, refl, find, leb, length,
}
use omni_identity.Model.{
  User, Session, LoginChallenge, PasswordToken, RecoveryCode, second, is_locked,
}
use omni_identity.Store.Io.{Db, Io}
use omni_identity.Store.Mfa.CodeSet.{
  CodeOp, replace, consume, usable_codes, spec_run, store_run, Represents, store_run-spec_run,
}
use omni_identity.Store.Users.{with_id}
use omni_identity.Store.Users.Lockout.{fail_logins, fail_logins-is_locked}
use omni_identity.Tests.Fixtures.{db, io, env, state, request, form_of, start, alice}
use omni_identity.Tests.Opened.{runs}
use omni_identity.Web.Authorize.{code_to_client, to_page, handle_authorize}
use omni_identity.Web.Authorize.Issued.{IssuedCode, handle_authorize-IssuedCode}
use omni_identity.Web.Authorize.Redirects.{Registered, handle_authorize-Registered}
use omni_identity.Web.Authorize.Targets.{target, answer_uri}
use omni_identity.Web.Handler.{done}
use omni_identity.Web.Login.{handle_login_submit, handle_login_form}
use omni_identity.Web.Login.Credentials.{Accepted}
use omni_identity.Web.Login.Gate.{Opened, handle_login_submit-Opened}
use omni_identity.Web.Login.Reauth.{Reused, handle_login_form-Reused}
use omni_identity.Web.Mfa.{handle_mfa_submit}
use omni_identity.Web.Mfa.Gate.{SecondFactor, handle_mfa_submit-SecondFactor}
use omni_identity.Web.Server.{Request, State}
use omni_identity.Web.SetPassword.{handle_set_password_submit}
use omni_identity.Web.SetPassword.Once.{set_password_once}

abbrev session : Session
session = record {
  id = "sess1";
  user_id = "u1";
  csrf_secret = "c";
  user_agent = "test";
  created_at = start;
  expires_at = start + 43_200 * second;
  last_seen_at = start;
  amr = "pwd";
}

abbrev with_db : Db → State
with_db d = record state { db = d }

abbrev signed_in : State
signed_in = with_db (record db { sessions = session ∷ [] })

-- A request of a browser: its cookies, the query and the form.
abbrev browser : List (String × String) → List (String × String) → List (String × String) → Request
browser cookies query form = record (request form) {
  cookie = form_of cookies;
  query_param = form_of query;
}

abbrev authorize_query : List (String × String)
authorize_query =
    ("client_id", "app")
    ∷ ("response_type", "code")
    ∷ ("redirect_uri", "https://app/cb")
    ∷ ("scope", "openid")
    ∷ ("state", "xyz")
    ∷ []

abbrev with_session : List (String × String) → Request
with_session query = browser (("omni_session", "sess1") ∷ []) query []

abbrev authorize_request : Request
authorize_request = with_session authorize_query

abbrev authorized : State
authorized = (handle_authorize env authorize_request signed_in).1

authorize_runs :
    handle_authorize env authorize_request signed_in
    ≡ (done (code_to_client "https://app/cb" "new-token" "xyz"), authorized)
unfolding runs
authorize_runs = refl

handle_authorize-IssuedCode_example :
    IssuedCode env authorize_request signed_in "https://app/cb" "new-token" "xyz" authorized
handle_authorize-IssuedCode_example =
    handle_authorize-IssuedCode env authorize_request signed_in authorize_runs

sent_to :
    target answer_uri (handle_authorize env authorize_request signed_in).0 ≡ some "https://app/cb"
unfolding runs
sent_to = refl

handle_authorize-Registered_example : Registered env signed_in.db "https://app/cb"
handle_authorize-Registered_example =
    handle_authorize-Registered env authorize_request signed_in "https://app/cb" sent_to

-- A request that asks for a new login is parked, and the login form goes on with the old session.
abbrev prompt_request : Request
prompt_request = with_session (("prompt", "login") ∷ authorize_query)

abbrev prompted : State
prompted = (handle_authorize env prompt_request signed_in).1

prompt_runs :
    handle_authorize env prompt_request signed_in ≡ (done (to_page "/login" "new-token"), prompted)
unfolding runs
prompt_runs = refl

abbrev form_request : Request
form_request = with_session (("req", "new-token") ∷ [])

abbrev reused : State
reused = (handle_login_form env form_request prompted).1

form_runs :
    handle_login_form env form_request prompted
    ≡ (done (code_to_client "https://app/cb" "new-token" "xyz"), reused)
unfolding runs
form_runs = refl

handle_login_form-Reused_example : Reused env form_request prompted reused
handle_login_form-Reused_example = handle_login_form-Reused env form_request prompted form_runs

abbrev bob : User
bob = record alice { id = "u2"; username = "bob"; email = "bob@example.org"; password_hash = "pw" }

abbrev bob_state : State
bob_state = with_db (record db { users = bob ∷ [] })

abbrev csrf : List (String × String)
csrf = ("omni_csrf", "tok") ∷ []

abbrev login_request : Request
login_request =
    browser csrf [] (("csrf_token", "tok") ∷ ("username", "bob") ∷ ("password", "pw") ∷ [])

abbrev logged_in : State
logged_in = (handle_login_submit env login_request bob_state).1

login_runs :
    handle_login_submit env login_request bob_state ≡ (done (to_page "/admin" ""), logged_in)
unfolding runs
login_runs = refl

handle_login_submit-Opened_example :
    (user : User) × Accepted env login_request bob_state.db user
    × Opened env login_request user bob_state.db logged_in.db (to_page "/admin" "")
handle_login_submit-Opened_example =
    handle_login_submit-Opened env login_request bob_state login_runs

abbrev carol : User
carol = record bob { mfa_enabled = true; totp_secret = "KEY" }

abbrev challenge : LoginChallenge
challenge = record {
  id = "ch1";
  user_id = "u2";
  next = "";
  req = "";
  amr = "pwd";
  created_at = start;
  expires_at = start + 300 * second;
}

abbrev carol_state : State
carol_state = with_db (record db { users = carol ∷ []; login_challenges = challenge ∷ [] })

abbrev mfa_request : Request
mfa_request =
    browser (("omni_mfa", "ch1") ∷ csrf) [] (("csrf_token", "tok") ∷ ("code", "595078") ∷ [])

abbrev stepped_up : State
stepped_up = (handle_mfa_submit env mfa_request carol_state).1

mfa_runs : handle_mfa_submit env mfa_request carol_state ≡ (done (to_page "/admin" ""), stepped_up)
unfolding runs
mfa_runs = refl

handle_mfa_submit-SecondFactor_example : SecondFactor env mfa_request carol_state stepped_up
handle_mfa_submit-SecondFactor_example =
    handle_mfa_submit-SecondFactor env mfa_request carol_state mfa_runs

abbrev reset_token : PasswordToken
reset_token = record {
  id = "pt1";
  user_id = "u2";
  token_hash = "link";
  purpose = "reset";
  used = false;
  expires_at = start + 3600 * second;
  created_at = start;
}

abbrev reset_state : State
reset_state = with_db (record db { users = bob ∷ []; password_tokens = reset_token ∷ [] })

abbrev reset_request : Request
reset_request = browser csrf [] (
    ("csrf_token", "tok")
    ∷ ("token", "link")
    ∷ ("password", "longer password")
    ∷ ("confirm", "longer password")
    ∷ [])

abbrev password_set : State
password_set = (handle_set_password_submit env reset_request reset_state).1

reset_runs :
    handle_set_password_submit env reset_request reset_state
    ≡ (done (to_page "/login?notice=password-set" ""), password_set)
unfolding runs
reset_runs = refl

set_password_once_example :
    handle_set_password_submit env reset_request password_set
    ≢ (done (to_page "/login?notice=password-set" ""), reset_state)
set_password_once_example =
    set_password_once env env reset_request reset_request reset_state password_set reset_state
      (to_page "/login?notice=password-set" "") (to_page "/login?notice=password-set" "") reset_runs
      refl refl

found_alice : find (with_id "u1") db.users ≡ some alice
unfolding runs
found_alice = refl

abbrev locked_at : Db
locked_at = fail_logins io.fails "u1" 2 (900 * second) (start ∷ start ∷ []) db

fail_logins-is_locked_example :
    (u' : User) × (find (with_id "u1") locked_at.users ≡ some u')
    × (u'.failed_login_count ≡ alice.failed_login_count + length (start ∷ start ∷ []))
    × (is_locked u' start ≡ leb 2 (alice.failed_login_count + length (start ∷ start ∷ [])))
fail_logins-is_locked_example =
    fail_logins-is_locked io.fails "u1" 2 (900 * second) start start (start ∷ []) alice db refl
      found_alice refl refl

abbrev recovery : RecoveryCode
recovery = record { id = "rc1"; user_id = "u1"; code_hash = "h1"; used = false; created_at = start }

abbrev code_ops : List (Io × CodeOp)
code_ops =
    (io, replace "u1" (recovery ∷ [])) ∷ (io, consume "u1" "h1") ∷ (io, consume "u1" "h1") ∷ []

abbrev spent_recovery : Db
spent_recovery = record db { recovery_codes = record recovery { used = true } ∷ [] }

codes_run : store_run code_ops db ≡ some (true ∷ true ∷ false ∷ [], spent_recovery)
unfolding runs
codes_run = refl

store_run-spec_run_example :
    ((true ∷ true ∷ false ∷ []) ≡ (spec_run code_ops (usable_codes db)).0)
    × Represents spent_recovery (spec_run code_ops (usable_codes db)).1
store_run-spec_run_example =
    store_run-spec_run code_ops db (usable_codes db) (λ u h. refl) codes_run
