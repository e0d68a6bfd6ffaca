-- ===== src/Web/DeviceGrant.antt =====
-- internal/web/device_grant_handler.go, grantDeviceCode: the polls of a client with its device code.
pub mod Redeem
pub mod Once
use Prim.Native.String.{◌++◌}
use omni_identity.Prelude.{
  ℕ, ◌+◌, ◌-◌, ◌*◌, ◌/◌, String, Bool, true, false, not, ◌&&◌, ◌||◌, Option, none, some, List, [],
  ◌∷◌, ◌==◌, ltb, if◌then◌else◌,
}
use omni_identity.Prelude.Text.{trim_space}
use omni_identity.Prelude.Urls.{trim_slashes}
use omni_identity.Model.{
  User, Client, Device, DeviceCode, DeviceCodeStatus, Session, is_zero, second,
}
use omni_identity.Oidc.Scope.{
  has_scope, split_scope, scopes_subset, scope_open_id, scope_offline_access, scope_device_enroll,
}
use omni_identity.Store.Io.{Db, Result, ok, err}
use omni_identity.Store.Clients.{get_user_by_id}
use omni_identity.Store.Devices.{get_device_row}
use omni_identity.Store.DeviceCodes.{
  create_device_code_row, get_device_code_by_hash, get_pending_device_code_by_user_code,
  approve_device_code, deny_device_code, consume_device_code_row, mark_device_code_polled,
}
use omni_identity.Web.RateLimit.{RateLimiter, allowed, fail}
use omni_identity.Web.Server.{Env, Request, State, device_grant, device_enrollment}
use omni_identity.Web.Handler.{
  Handler, HttpError, oauth_error, Reply, done, refused, pure, reject, query, exec, attempt,
  or_reject, find_or_reject, reject_if, reject_some, when, record_metric, audit, AuditEntry, ◌>>=◌,
  ◌>>◌,
}
use omni_identity.Web.Devices.{active_device}
use omni_identity.Web.Dpop.{authenticate_device_request}
use omni_identity.Web.Grants.{
  invalid_grant, invalid_request, server_error, require_client, require_user, issue_refresh, issued,
}
use omni_identity.Web.Issue.{
  TokenResponse, TokenContext, build_access_and_id, record_token_metrics, dpop_jkt,
}

abbrev pub device_code_ttl : ℕ
device_code_ttl = 600 * second

abbrev pub device_code_interval : ℕ
device_code_interval = 5

-- The answer to a device that authenticates itself with its token, which may use up a proof.
abbrev answer_device : HttpError → Option Device → Reply Device
answer_device e none = refused e
answer_device e (some d) = done d

unfoldable pub authenticated_device : Env → Request → HttpError → Handler Device
authenticated_device env req e s =
    let (d, db) = authenticate_device_request env req s.db in
    (answer_device e d, record s { db = db })

-- Where a poll comes within the interval of the last one.
unfoldable pub polled_early : ℕ → DeviceCode → Bool
polled_early now dc =
    not (is_zero dc.last_polled_at) && ltb (now - dc.last_polled_at) (device_code_interval * second)

-- What the state of the grant forbids.
unfoldable pub status_error : DeviceCodeStatus → Option HttpError
status_error DeviceCodeStatus.pending =
    some (oauth_error 400 "authorization_pending" "the user has not yet approved the request")
status_error DeviceCodeStatus.denied =
    some (oauth_error 400 "access_denied" "the user denied the request")
status_error DeviceCodeStatus.approved = none
status_error DeviceCodeStatus.consumed = some (invalid_grant "device code already used")

-- The device of a grant that is bound to one.
unfoldable pub bound_device : Env → Request → DeviceCode → Handler (Option Device)
bound_device env req dc = if dc.device_id == "" then pure none else (do
  let missing = invalid_grant "device authentication required for this grant"
  dev ← authenticated_device env req missing
  reject_if (not (dev.id == dc.device_id)) missing
  reject_if (dev.owner_only && not (dev.owner_user_id == dc.user_id))
      (oauth_error 400 "access_denied" "this device only allows its owner to sign in")
  pure (some dev))

abbrev grant_detail : Option Device → String
grant_detail none = "device_code"
grant_detail (some d) = "device_code device=" ++ d.id

-- From the consumed code on.
unfoldable pub issue_for_device :
    Env → Request → Client → User → DeviceCode → TokenContext → Handler TokenResponse
issue_for_device env req client user dc tc = do
  resp ←
      or_reject (build_access_and_id env client user dc.scope "" dc.auth_time tc)
        (server_error "could not issue tokens")
  resp' ← issue_refresh env client user dc.scope dc.auth_time tc resp
  record_token_metrics resp'
  record_metric (device_grant "issued")
  audit env req "token.issued" (record {
    actor_user_id = user.id;
    username = user.username;
    client_id = client.client_id;
    success = true;
    detail = grant_detail tc.device;
  })
  pure resp'

-- From the approved code on.
unfoldable pub redeem_device_code : Env → Request → Client → DeviceCode → Handler TokenResponse
redeem_device_code env req client dc = do
  dev ← bound_device env req dc
  user ← require_user env dc.user_id
  let used = invalid_grant "device code already used"
  consumed ← exec (consume_device_code_row env.io dc.id) used
  reject_if (not consumed) used
  issue_for_device env req client user dc
      (record { amr = dc.amr; device = dev; jkt = dpop_jkt req })

unfoldable pub grant_device_code : Env → Request → Handler TokenResponse
grant_device_code env req = do
  client ← require_client env req
  let raw = req.form "device_code"
  reject_if (raw == "") (invalid_request "missing device_code")
  dc ← query (get_device_code_by_hash env.io (env.hash raw)) (invalid_grant "invalid device_code")
  reject_if (not (dc.client_id == client.client_id)) (invalid_grant "invalid device_code")
  when (ltb dc.expires_at env.io.now) (
      record_metric (device_grant "expired")
      >> reject (oauth_error 400 "expired_token" "the device code has expired"))
  attempt (mark_device_code_polled env.io dc.id env.io.now)
  reject_if (polled_early env.io.now dc) (oauth_error 400 "slow_down" "polling too frequently")
  reject_some (status_error dc.status)
  redeem_device_code env req client dc
