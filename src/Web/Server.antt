-- ===== src/Web/Server.antt =====
-- internal/web/server.go: what a handler reads and changes. `Env` is what is fixed during a
-- request: the clock and the failures of the store, the settings, the random values that it draws,
-- the hash of internal/auth/tokens.go and the token issuer. `State` is what it changes: the
-- database, the rate limiters and the counters of internal/web/middleware.go.
use omni_identity.Prelude.{ℕ, String, Bool, Option, List}
use Prim.Native.Char.{Char}
use omni_identity.Auth.Policy.{PasswordPolicy, CharClass}
use omni_identity.Store.Io.{Db, Io}
use omni_identity.Pop.{Pop, Proof}
use omni_identity.Tokens.{Issuer}
use omni_identity.Web.RateLimit.{RateLimiter}

-- What the handlers read of the settings and the configuration.
pub record Settings : Type 0 where
  pub issuer : String
  pub public_url : String
  pub refresh_token_ttl : ℕ
  pub device_token_ttl : ℕ
  pub rate_limit_window : ℕ
  pub issuer_aliases : List String
  pub require_device_approval : Bool
  pub session_lifetime : ℕ
  pub session_idle_timeout : ℕ
  pub max_failed_logins : ℕ
  pub lockout_duration : ℕ
  pub login_ip_max_attempts : ℕ
  pub max_login_username_bytes : ℕ
  pub max_login_password_bytes : ℕ
  pub password_verify_concurrency : ℕ
  pub password_policy : PasswordPolicy

-- What an external directory says of a user whose credentials it accepts.
pub record Identity : Type 0 where
  pub connector : String
  pub external_id : String
  pub username : String
  pub email : String
  pub display_name : String
  pub is_admin : Bool

-- connectors.Connector.Login: an error, or the answer of the directory.
pub data Login : Type 0 where
  failed rejected : Login
  accepted : Identity → Login

pub record Env : Type 0 where
  pub io : Io
  pub settings : Settings
  pub issuer : Issuer
  -- auth.HashToken.
  pub hash : String → String
  -- oidc.ComputeS256Challenge.
  pub s256 : String → String
  -- auth.RandomToken, uuid.NewString for the row that the request inserts and for its audit event.
  pub random_token : String
  pub new_id : String
  pub audit_id : String
  -- internal/pop, and the error text of the store's driver.
  pub pop : Pop
  pub driver_message : String
  -- newUserCode, one for each attempt.
  pub new_user_code : ℕ → String
  -- internal/auth/password.go: a password against its hash (an error counts as false), and a new
  -- hash, none where no salt can be drawn.
  pub verify_password : String → String → Bool
  pub hash_password : String → Option String
  -- The directories in their order, given a user name and a password.
  pub connectors : List (String → String → Login)
  -- internal/crypto decrypts a secret; base32 decodes it; the bytes of HMAC-SHA1.
  pub decrypt : String → Option String
  pub decode_secret : String → Option String
  pub hmac : String → ℕ → ℕ → ℕ
  pub char_class : Char → CharClass
  -- The CSRF secret of a new session, and the id of a user that a directory brings.
  pub csrf_secret : String
  pub new_user_id : String
  -- encoding/json reads a posture document, which is given back as the text of its fields.
  pub decode_posture : String → Option String

-- A parsed request. `form` is PostFormValue, the empty text where there is no value; `proof` is
-- what handleToken has put into the request's context.
pub record Request : Type 0 where
  pub form : String → String
  pub basic_auth : Option (String × String)
  -- The headers Authorization and DPoP, the method and the path of the URL.
  pub authorization : String
  pub dpop : String
  pub method : String
  pub path : String
  pub proof : Option Proof
  pub ip : String
  pub user_agent : String
  -- A value of the query of the URL, or of a cookie: the empty text where there is none.
  pub query_param : String → String
  pub cookie : String → String

-- A counter that is incremented: recordToken, recordDeviceGrant and their like; a login has its
-- source too.
pub data Metric : Type 0 where
  login : String → String → Metric
  mfa : String → Metric
  token device_grant device_auth device_enrollment : String → Metric

pub record State : Type 0 where
  pub db : Db
  pub metrics : List Metric
  pub device_grant_rate : RateLimiter
  pub device_code_rate : RateLimiter
  pub login_rate : RateLimiter
  pub login_ip_rate : RateLimiter
  pub mfa_rate : RateLimiter
  -- How many passwords are being verified.
  pub verify_active : ℕ
  -- The cookies that the answer sets, a name with its value, the last one first.
  pub cookies : List (String × String)
