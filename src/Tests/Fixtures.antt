-- ===== src/Tests/Fixtures.antt =====
-- A small server: one confidential client, one user, one code and one refresh token.
use omni_identity.Prelude.{
  ℕ, ◌+◌, ◌*◌, String, true, false, none, some, List, [], ◌∷◌, ◌==◌, inr, if◌then◌else◌,
}
use omni_identity.Model.{
  User, Client, AuthorizationCode, RefreshToken, Device, DeviceStatus, DeviceCode, DeviceCodeStatus,
  second,
}
use omni_identity.Store.Io.{Db, Io}
use omni_identity.Auth.Policy.{CharClass}
use omni_identity.Pop.{Pop}
use omni_identity.Tokens.{Jwt, str, num}
use omni_identity.Web.RateLimit.{RateLimiter}
use omni_identity.Web.Server.{Env, Request, State}

abbrev pub start : ℕ
start = 63_900_000_000 * second

abbrev pub alice : User
alice = record {
  id = "u1";
  username = "alice";
  email = "alice@example.org";
  password_hash = "";
  is_admin = true;
  disabled = false;
  auth_source = "local";
  external_id = "";
  failed_login_count = 0;
  locked_until = 0;
  mfa_enabled = false;
  totp_secret = "";
  web_authn_handle = "";
  created_at = start;
  updated_at = start;
}

abbrev pub app : Client
app = record {
  client_id = "app";
  client_secret_hash = "s3cret";
  name = "App";
  redirect_uris = "https://app/cb" ∷ [];
  allowed_scopes = "openid" ∷ "offline_access" ∷ "api" ∷ [];
  client_type = "confidential";
  disabled = false;
  display_name = "";
  logo_url = "";
  homepage_url = "";
  post_logout_redirect_uris = [];
  skip_consent = true;
  created_at = start;
  updated_at = start;
}

abbrev pub code : AuthorizationCode
code = record {
  code_hash = "c0de";
  client_id = "app";
  user_id = "u1";
  redirect_uri = "https://app/cb";
  scope = "openid offline_access";
  nonce = "n";
  code_challenge = "v";
  code_challenge_method = "S256";
  expires_at = start + 300 * second;
  used = false;
  created_at = start;
  auth_time = start;
  amr = "pwd";
}

abbrev pub refresh_token : RefreshToken
refresh_token = record {
  id = "r1";
  token_hash = "rt";
  client_id = "app";
  user_id = "u1";
  scope = "openid offline_access api";
  rotated_from = "";
  revoked = false;
  expires_at = start + 3600 * second;
  created_at = start;
  auth_time = start;
  amr = "pwd";
  device_id = "";
  dpop_jkt = "";
}

abbrev pub device : Device
device = record {
  id = "dev1";
  owner_user_id = "u1";
  name = "laptop";
  hostname = "laptop";
  platform = "linux";
  architecture = "amd64";
  public_key = "key1";
  public_key_algorithm = "ES256";
  fingerprint = "fp1";
  previous_fingerprint = "";
  status = DeviceStatus.active;
  trust_level = "enrolled";
  key_backend = "";
  posture = "";
  posture_at = 0;
  owner_only = false;
  created_at = start;
  enrolled_at = start;
  last_seen_at = start;
  revoked_at = 0;
}

-- An approved device code and one that waits for the user.
abbrev pub approved_code : DeviceCode
approved_code = record {
  id = "d1";
  device_code_hash = "dc";
  user_code = "BCDFGHJK";
  client_id = "app";
  scope = "openid offline_access";
  device_id = "";
  device_name = "tv";
  device_platform = "linux";
  status = DeviceCodeStatus.approved;
  user_id = "u1";
  amr = "pwd";
  auth_time = start;
  last_polled_at = 0;
  created_at = start;
  expires_at = start + 600 * second;
}

abbrev pub pending_code : DeviceCode
pending_code = record approved_code {
  id = "d2";
  device_code_hash = "dc2";
  user_code = "LMNPQRST";
  status = DeviceCodeStatus.pending;
  user_id = "";
}

abbrev pub db : Db
db = record {
  users = alice ∷ [];
  clients = app ∷ [];
  sessions = [];
  auth_codes = code ∷ [];
  auth_requests = [];
  refresh_tokens = refresh_token ∷ [];
  login_challenges = [];
  password_tokens = [];
  devices = device ∷ [];
  device_codes = approved_code ∷ pending_code ∷ [];
  ceremonies = [];
  jtis = [];
  pats = [];
  audit_log = [];
  recovery_codes = [];
}

abbrev pub fresh_limiter : RateLimiter
fresh_limiter = record { windows = []; last_reap = 0 }

abbrev pub state : State
state = record {
  db = db;
  metrics = [];
  device_grant_rate = fresh_limiter;
  device_code_rate = fresh_limiter;
  login_rate = fresh_limiter;
  login_ip_rate = fresh_limiter;
  mfa_rate = fresh_limiter;
  verify_active = 0;
  cookies = [];
}

abbrev pub io : Io
io = record { now = start; fails = λ _. false }

-- Tokens are not encoded here: every token is the same text, and none parses.
abbrev pub jwt : Jwt
jwt = record { sign = λ _. some "jwt"; parse = λ _ _. none; parse_signed = λ _. none }

-- A proof of key k1 for the token endpoint, and addresses that are compared as they stand.
abbrev pub pop : Pop
pop = record {
  parse = λ raw. inr (
    "k1",
    ("jti", str raw)
        ∷ ("htm", str "POST")
        ∷ ("htu", str "https://id/oauth2/token")
        ∷ ("iat", num 1_764_403_200)
        ∷ ("ath", str "jwt")
        ∷ [],
  );
  access_token_hash = λ s. s;
  jti_hash = λ k s. s;
  parse_url = λ s. some (record {
    scheme = "https";
    host = "id";
    path = s;
    hostname = "id";
    port = "";
    raw_query = "";
    fragment = "";
    has_user = false;
  });
}

abbrev pub env : Env
env = record {
  io = io;
  settings = record {
    issuer = "https://id";
    public_url = "https://id";
    refresh_token_ttl = 3600 * second;
    device_token_ttl = 3600 * second;
    rate_limit_window = 900 * second;
    issuer_aliases = [];
    require_device_approval = false;
    session_lifetime = 43_200 * second;
    session_idle_timeout = 1800 * second;
    max_failed_logins = 5;
    lockout_duration = 900 * second;
    login_ip_max_attempts = 50;
    max_login_username_bytes = 256;
    max_login_password_bytes = 1024;
    password_verify_concurrency = 4;
    password_policy = record {
      min_length = 8;
      require_upper = false;
      require_lower = false;
      require_number = false;
      require_symbol = false;
    };
  };
  issuer = record {
    jwt = jwt;
    name = "https://id";
    access_ttl = 900 * second;
    id_ttl = 900 * second;
    now = start;
  };
  hash = λ s. s;
  s256 = λ s. s;
  random_token = "new-token";
  new_id = "r2";
  audit_id = "a1";
  pop = pop;
  driver_message = "driver";
  new_user_code = λ _. "BCDFGHJK";
  verify_password = λ plain hashed. plain == hashed;
  hash_password = λ plain. some plain;
  connectors = [];
  decrypt = λ s. some s;
  decode_secret = λ s. some s;
  hmac = λ key counter i. i;
  char_class = λ _. CharClass.other;
  csrf_secret = "csrf";
  decode_posture = λ s. some s;
  new_user_id = "u9";
}

-- A form as a list of fields.
abbrev pub form_of : List (String × String) → String → String
form_of [] k = ""
form_of ((j, v) ∷ fields) k = if j == k then v else form_of fields k

abbrev pub request : List (String × String) → Request
request fields = record {
  form = form_of fields;
  basic_auth = some ("app", "s3cret");
  authorization = "";
  dpop = "";
  method = "POST";
  path = "/oauth2/token";
  proof = none;
  ip = "10.0.0.1";
  user_agent = "test";
  query_param = λ _. "";
  cookie = λ _. "";
}
