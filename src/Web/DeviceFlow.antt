-- ===== src/Web/DeviceFlow.antt =====
-- internal/web/device_grant_handler.go: the request of a device code and the user's decision on it.
-- The CSRF check and the pages, beyond their status and message, are left out.
pub mod Rows
pub mod Decision
use Prim.Native.String.{◌++◌}
use omni_identity.Prelude.{
  ℕ, ◌+◌, ◌/◌, String, Bool, true, false, not, ◌&&◌, Option, none, some, List, [], ◌∷◌, ◌==◌,
  if◌then◌else◌,
}
use omni_identity.Prelude.Text.{trim_space}
use omni_identity.Prelude.Urls.{trim_slashes}
use omni_identity.Model.{
  User, Client, Device, DeviceCode, DeviceCodeStatus, Session, is_zero, second,
}
use omni_identity.Oidc.Scope.{
  has_scope, split_scope, scopes_subset, scope_open_id, scope_device_enroll,
}
use omni_identity.Store.Io.{Db, Result, ok, err, StoreError, not_found, driver_error}
use omni_identity.Store.Devices.{get_device_row}
use omni_identity.Store.DeviceCodes.{
  create_device_code_row, get_pending_device_code_by_user_code, approve_device_code,
  deny_device_code,
}
use omni_identity.Web.RateLimit.{RateLimiter, allowed, fail}
use omni_identity.Web.Server.{Env, Request, device_grant, device_enrollment}
use omni_identity.Web.Handler.{
  Handler, oauth_error, page, Reply, done, refused, pure, reject, exec, attempt, reject_if, when,
  record_metric, audit, AuditEntry, ◌>>=◌, ◌>>◌,
}
use omni_identity.Web.Grants.{server_error, require_client}
use omni_identity.Web.DeviceGrant.{authenticated_device, device_code_ttl, device_code_interval}
use omni_identity.Web.Codes.{
  normalize_user_code, format_user_code, truncate, max_device_name_length,
  max_device_platform_field,
}

abbrev pub device_code_max_attempts : ℕ
device_code_max_attempts = 10

abbrev pub device_grant_max_per_window : ℕ
device_grant_max_per_window = 60

pub record DeviceAuthorization : Type 0 where
  pub device_code : String
  pub user_code : String
  pub verification_uri : String
  pub verification_uri_complete : String
  pub expires_in : ℕ
  pub interval : ℕ

-- One more request of the address, where its budget allows it.
unfoldable pub take_budget : Env → Request → Handler (Unit {0})
take_budget env req s =
    let window = env.settings.rate_limit_window in
    let (free, rl) =
      allowed env.io.now req.ip device_grant_max_per_window window s.device_grant_rate in
    if free then (done tt, record s { device_grant_rate = fail env.io.now req.ip window rl }) else (
      refused
          (oauth_error 429 "slow_down" "too many device authorization requests from this address"),
      record s { device_grant_rate = rl },
    )

abbrev requested_scope : String → String
requested_scope scope = if scope == "" then scope_open_id else scope

-- The device that authenticates the request, if it carries a token.
unfoldable pub requesting_device : Env → Request → Handler (Option Device)
requesting_device env req = if req.authorization == "" then pure none else (do
  d ← authenticated_device env req (oauth_error 401 "invalid_token" "device authentication failed")
  pure (some d))

abbrev for_device : Option Device → DeviceCode → DeviceCode
for_device none c = c
for_device (some d) c = record c {
  device_id = d.id;
  device_name = d.name;
  device_platform = d.platform;
}

unfoldable pub new_device_code : Env → Request → Client → String → Option Device → DeviceCode
new_device_code env req client scope dev = for_device dev (record {
  id = env.new_id;
  device_code_hash = env.hash env.random_token;
  user_code = "";
  client_id = client.client_id;
  scope = scope;
  device_id = "";
  device_name = truncate (trim_space (req.form "device_name")) max_device_name_length;
  device_platform = truncate (trim_space (req.form "device_platform")) max_device_platform_field;
  status = DeviceCodeStatus.pending;
  user_id = "";
  amr = "";
  auth_time = 0;
  last_polled_at = 0;
  created_at = env.io.now;
  expires_at = env.io.now + device_code_ttl;
})

abbrev or_retry :
    DeviceCode → Result (Unit {0}) × Db → Result DeviceCode × Db → Result DeviceCode × Db
or_retry c (ok u, db) rest = (ok c, db)
or_retry c (err e, db) rest = rest

-- An insertion that fails changes nothing; the next attempt draws another user code.
unfoldable pub insert_code : Env → DeviceCode → List ℕ → Db → Result DeviceCode × Db
insert_code env dc [] db = (err driver_error, db)
insert_code env dc (i ∷ attempts) db =
    let c : DeviceCode = record dc { user_code = env.new_user_code i } in
    or_retry c (create_device_code_row env.io c db) (insert_code env dc attempts db)

abbrev requested_detail : String → Option Device → String
requested_detail scope none = "scope=" ++ scope
requested_detail scope (some d) = "scope=" ++ (scope ++ (" device=" ++ d.id))

unfoldable pub handle_device_authorization : Env → Request → Handler DeviceAuthorization
handle_device_authorization env req = do
  client ← require_client env req
  take_budget env req
  let scope = requested_scope (trim_space (req.form "scope"))
  reject_if (not (scopes_subset (split_scope scope) client.allowed_scopes))
      (oauth_error 400 "invalid_scope" "requested scope is not allowed for this client")
  dev ← requesting_device env req
  dc ←
      exec (insert_code env (new_device_code env req client scope dev) (0 ∷ 1 ∷ 2 ∷ []))
        (server_error "could not start device authorization")
  audit env req "device.grant.requested" (record {
    actor_user_id = "";
    username = "";
    client_id = client.client_id;
    success = true;
    detail = requested_detail scope dev;
  })
  record_metric (device_grant "requested")
  let base = trim_slashes env.settings.public_url
  pure (record {
    device_code = env.random_token;
    user_code = format_user_code dc.user_code;
    verification_uri = base ++ "/device";
    verification_uri_complete = base ++ ("/device?user_code=" ++ format_user_code dc.user_code);
    expires_in = device_code_ttl / second;
    interval = device_code_interval;
  })

abbrev lookup_message : StoreError → String → String
lookup_message not_found code =
    if code == ""
    then "That code was not recognized. Check it and try again."
    else "That code is invalid, expired, or already used. Start again on the device."
lookup_message driver_error code = "That code was not recognized. Check it and try again."

-- What a lookup answers, and the limiter after it: a code that is not found costs an attempt.
abbrev pub looked_up :
    Env → Request → String → RateLimiter → Result DeviceCode → Reply DeviceCode × RateLimiter
looked_up env req code rl (ok dc) = (done dc, rl)
looked_up env req code rl (err e) = (
  refused (page 400 (lookup_message e code)),
  fail env.io.now req.ip env.settings.rate_limit_window rl,
)

unfoldable pub lookup_user_code : Env → Request → Handler DeviceCode
lookup_user_code env req s =
    let window = env.settings.rate_limit_window in
    let (free, rl) = allowed env.io.now req.ip device_code_max_attempts window s.device_code_rate in
    let code = normalize_user_code (req.form "user_code") in
    if free
    then (let (r, rl') =
          looked_up env req code rl (get_pending_device_code_by_user_code env.io code s.db) in
        (r, record s { device_code_rate = rl' }))
    else (
      refused (page 429 "Too many attempts. Please wait a few minutes and try again."),
      record s { device_code_rate = rl },
    )

abbrev pub forbids : User → Result Device → Bool
forbids user (err e) = false
forbids user (ok d) = d.owner_only && not (d.owner_user_id == user.id)

-- The grant is bound to a device that takes sign-ins from its owner alone, and the user is another.
unfoldable pub owner_forbids : Env → User → DeviceCode → Db → Bool
owner_forbids env user dc db =
    not (dc.device_id == "") && forbids user (get_device_row env.io dc.device_id db)

abbrev confirm_entry : User → DeviceCode → Bool → String → AuditEntry
confirm_entry user dc success suffix = record {
  actor_user_id = user.id;
  username = user.username;
  client_id = dc.client_id;
  success = success;
  detail =
      "device_code="
      ++ (dc.id ++ ((if dc.device_id == "" then "" else " device=" ++ dc.device_id) ++ suffix));
}

abbrev pub deny_row : Env → String → Db → Db
deny_row env id db = (deny_device_code env.io id db).1

unfoldable pub refuse_stranger : Env → Request → User → DeviceCode → Handler (Unit {0})
refuse_stranger env req user dc = do
  attempt (deny_row env dc.id)
  audit env req "device.login.denied" (confirm_entry user dc false " owner_only")
  record_metric (device_grant "denied")
  reject (page 403 "This device only allows its owner to sign in. The request was denied.")

abbrev enrolls : DeviceCode → Bool
enrolls dc = has_scope dc.scope scope_device_enroll

unfoldable pub deny_grant : Env → Request → User → DeviceCode → Handler String
deny_grant env req user dc = do
  attempt (deny_row env dc.id)
  when (enrolls dc) (record_metric (device_enrollment "denied"))
  record_metric (device_grant "denied")
  audit env req (if enrolls dc then "device.enrollment.denied" else "device.login.denied")
      (confirm_entry user dc false "")
  pure "Request denied. You can close this page."

abbrev pub session_amr : Option Session → String
session_amr none = ""
session_amr (some sess) = sess.amr

abbrev pub session_time : ℕ → Option Session → ℕ
session_time now none = now
session_time now (some sess) = if is_zero sess.created_at then now else sess.created_at

unfoldable pub approve_grant : Env → Request → User → Option Session → DeviceCode → Handler String
approve_grant env req user sess dc = do
  exec (approve_device_code env.io dc.id user.id (session_amr sess) (session_time env.io.now sess))
      (page 400 "That code is no longer pending. Start again on the device.")
  record_metric (device_grant "approved")
  audit env req (if enrolls dc then "device.enrollment.started" else "device.login.approved")
      (confirm_entry user dc true "")
  pure (
      if enrolls dc
      then "Approved. Return to the device to finish enrolling it. It will appear under My Devices once done."
      else "Approved. You can return to the device — it will finish signing in on its own.")

-- From the check of the owner on: the decision of a user whose grant it may be.
unfoldable pub decide : Env → Request → User → Option Session → DeviceCode → Handler String
decide env req user sess dc =
    if req.form "action" == "allow"
    then approve_grant env req user sess dc
    else deny_grant env req user dc

abbrev pub refuse_if : Env → Request → User → DeviceCode → Handler (Unit {0})
refuse_if env req user dc s =
    when (owner_forbids env user dc s.db) (refuse_stranger env req user dc) s

unfoldable pub handle_device_confirm : Env → User → Option Session → Request → Handler String
handle_device_confirm env user sess req = do
  dc ← lookup_user_code env req
  refuse_if env req user dc
  decide env req user sess dc
