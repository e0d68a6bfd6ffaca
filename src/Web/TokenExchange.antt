-- ===== src/Web/TokenExchange.antt =====
-- internal/web/token_exchange_handler.go: the exchange of a refresh token that is bound to a device
-- for an access token for another client, RFC 8693.
pub mod Delegate
pub mod Checks
pub mod Delegation
pub mod DefaultScope
use Prim.Native.String.{◌++◌}
use omni_identity.Prelude.{
  ℕ, ◌/◌, String, Bool, true, false, not, ◌&&◌, ◌||◌, Option, none, some, List, [], ◌∷◌, ◌==◌, ltb,
  if◌then◌else◌,
}
use omni_identity.Prelude.Text.{trim_space, join}
use omni_identity.Model.{User, Client, Device, RefreshToken, built_in, is_zero, second, unix}
use omni_identity.Oidc.Scope.{
  contains, split_scope, has_scope, scopes_subset, scope_profile, scope_email,
}
use omni_identity.Store.Io.{Db, Result, ok, err}
use omni_identity.Store.RefreshTokens.{get_refresh_token_by_hash}
use omni_identity.Tokens.{
  Claims, Value, str, strs, num, obj, document, put, amr_list, VerifiedToken, verify,
  is_device_token, issue_access_token,
}
use omni_identity.Web.Authorize.{enabled_client}
use omni_identity.Web.ClientAuth.{invalid_client}
use omni_identity.Web.Devices.{active_device}
use omni_identity.Web.Grants.{
  invalid_grant, invalid_request, server_error, require_client, require_user,
}
use omni_identity.Web.Handler.{
  Handler, oauth_error, pure, or_reject, find_or_reject, reject_if, record_metric, audit, ◌>>=◌,
  ◌>>◌,
}
use omni_identity.Web.Issue.{put_unless_empty, with_groups, dpop_jkt}
use omni_identity.Web.Server.{Env, Request, token}

abbrev pub token_type_access : String
token_type_access = "urn:ietf:params:oauth:token-type:access_token"

abbrev pub token_type_refresh : String
token_type_refresh = "urn:ietf:params:oauth:token-type:refresh_token"

pub record TokenExchangeResponse : Type 0 where
  pub access_token : String
  pub issued_token_type : String
  pub token_type : String
  pub expires_in : ℕ
  pub scope : String

unfoldable pub intersect_scopes : List String → List String → List String
intersect_scopes [] b = []
intersect_scopes (x ∷ a) b =
    let rest = intersect_scopes a b in if contains b x then x ∷ rest else rest

abbrev pub none_requested : List String → Bool
none_requested [] = true
none_requested (_ ∷ _) = false

abbrev pub checked_scope : String → List String → List String → Option String
checked_scope scope granted allowed =
    if none_requested (split_scope scope)
      || not (scopes_subset (split_scope scope) granted)
      || not (scopes_subset (split_scope scope) allowed)
    then none
    else some scope

-- The scope that is issued, for the scope that is asked, that of the grant and those that the
-- audience allows: none where the answer is invalid_scope.
unfoldable pub exchange_scope : String → List String → List String → Option String
exchange_scope asked granted allowed =
    checked_scope (if asked == "" then join (intersect_scopes granted allowed) else asked) granted
      allowed

-- The tests of the form, up to the audience.
unfoldable pub check_exchange_form : Request → Handler (Unit {0})
check_exchange_form req = do
  reject_if (not (req.form "subject_token_type" == token_type_refresh))
      (invalid_request ("subject_token_type must be " ++ token_type_refresh))
  reject_if (not (req.form "actor_token_type" == token_type_access) || req.form "actor_token" == "")
      (invalid_request
        ("an actor_token of type " ++ token_type_access ++ " (device token) is required"))
  reject_if
      (not (req.form "requested_token_type" == "")
        && not (req.form "requested_token_type" == token_type_access))
      (invalid_request "only access tokens can be requested")
  reject_if (trim_space (req.form "audience") == "") (invalid_request "audience is required")
  reject_if (dpop_jkt req == "") (
      oauth_error 400 "invalid_dpop_proof"
        "token exchange requires a DPoP proof from the device key")

abbrev pub device_actor : String → Option VerifiedToken → Option VerifiedToken
device_actor jkt none = none
device_actor jkt (some vt) =
    if not (is_device_token vt) || vt.jkt == "" || not (vt.jkt == jkt) then none else some vt

-- The device that acts, proven by its token and the proof of the request.
unfoldable pub acting_device : Env → Request → Handler Device
acting_device env req = do
  actor ←
      or_reject (device_actor (dpop_jkt req) (verify env.issuer (req.form "actor_token")))
        (invalid_grant "actor_token must be a DPoP-bound device token for the presented key")
  find_or_reject (active_device env actor.subject) (invalid_grant "device is not active")

abbrev pub usable_grant : ℕ → Client → Result RefreshToken → Option RefreshToken
usable_grant now client (err e) = none
usable_grant now client (ok rt) =
    if rt.revoked || ltb rt.expires_at now || not (rt.client_id == client.client_id)
    then none
    else some rt

unfoldable pub subject_grant : Env → Request → Client → Device → Handler RefreshToken
subject_grant env req client dev = do
  rt ←
      find_or_reject
        (λ db.
          usable_grant env.io.now client
            (get_refresh_token_by_hash env.io (env.hash (req.form "subject_token")) db))
        (invalid_grant "subject_token is not a valid refresh token")
  reject_if (not (rt.device_id == dev.id) || not (rt.dpop_jkt == dpop_jkt req))
      (invalid_grant "subject_token is not bound to the acting device")
  pure rt

unfoldable pub parse_posture : Env → String → Option String
parse_posture env raw = if raw == "" then none else env.decode_posture raw

abbrev pub put_posture : Option String → Claims → Claims
put_posture none m = m
put_posture (some p) m = put "device_posture" (document p) m

abbrev pub put_auth_time : RefreshToken → Claims → Claims
put_auth_time rt m = if is_zero rt.auth_time then m else put "auth_time" (num (unix rt.auth_time)) m

abbrev pub put_profile : User → String → Claims → Claims
put_profile user scope m =
    if has_scope scope scope_profile then put "preferred_username" (str user.username) m else m

abbrev pub put_email : User → String → Claims → Claims
put_email user scope m =
    if has_scope scope scope_email && not (user.email == "")
    then put "email" (str user.email) m
    else m

unfoldable pub delegated_claims : Env → Device → RefreshToken → User → String → Claims
delegated_claims env dev rt user scope = put_email user scope (
    put_profile user scope (
      put_posture (parse_posture env dev.posture) (
        with_groups
          (put_auth_time rt (
            put_unless_empty rt.amr "amr" (strs (amr_list rt.amr)) (
              ("device_id", str dev.id)
              ∷ ("device_trust", str dev.trust_level)
              ∷ ("act", obj "sub" dev.id)
              ∷ [])))
          user)))

abbrev pub exchange_response : Env → String → String → TokenExchangeResponse
exchange_response env scope access = record {
  access_token = access;
  issued_token_type = token_type_access;
  token_type = "Bearer";
  expires_in = env.issuer.access_ttl / second;
  scope = scope;
}

-- From the audience on.
unfoldable pub exchange_for :
    Env → Request → Device → RefreshToken → User → Client → Handler TokenExchangeResponse
exchange_for env req dev rt user target = do
  scope ←
      or_reject
        (exchange_scope (trim_space (req.form "scope")) (split_scope rt.scope)
          target.allowed_scopes)
        (oauth_error 400 "invalid_scope"
          "scope must be within the user's grant and the audience's allowed scopes")
  access ←
      or_reject
        (issue_access_token env.issuer user.id target.client_id scope
          (delegated_claims env dev rt user scope))
        (server_error "could not issue token")
  record_metric (token "access")
  audit env req "token.issued" (record {
    actor_user_id = user.id;
    username = user.username;
    client_id = target.client_id;
    success = true;
    detail = "token_exchange device=" ++ dev.id;
  })
  pure (exchange_response env scope access)

unfoldable pub grant_token_exchange : Env → Request → Handler TokenExchangeResponse
grant_token_exchange env req = do
  client ← require_client env req
  reject_if (not (built_in client)) invalid_client
  check_exchange_form req
  dev ← acting_device env req
  rt ← subject_grant env req client dev
  user ← require_user env rt.user_id
  target ←
      find_or_reject (enabled_client env (trim_space (req.form "audience")))
        (oauth_error 400 "invalid_target" "unknown audience")
  exchange_for env req dev rt user target
