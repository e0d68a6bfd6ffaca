-- ===== src/Web/Issue.antt =====
-- internal/web/token_handler.go: the bindings of a token response, the access and ID tokens and the
-- refresh token record that the grants share.
pub mod Bindings
pub mod Laws
use omni_identity.Prelude.{
  ℕ, ◌+◌, ◌/◌, String, Bool, true, false, not, Option, none, some, List, [], ◌∷◌, ◌==◌,
  if◌then◌else◌,
}
use omni_identity.Model.{User, Client, Device, RefreshToken, second}
use omni_identity.Oidc.Scope.{has_scope, scope_open_id}
use omni_identity.Tokens.{
  Claims, Value, str, strs, num, flag, obj, put, claim, Profile, amr_list, issue_access_token,
  issue_id_token, Issuer,
}
use omni_identity.Pop.{Proof}
use omni_identity.Web.Server.{Env, Request, State, token}
use omni_identity.Web.Handler.{Handler, record_metric, when, ◌>>=◌, ◌>>◌}

pub record TokenResponse : Type 0 where
  pub access_token : String
  pub token_type : String
  pub expires_in : ℕ
  pub refresh_token : String
  pub id_token : String
  pub scope : String

pub record TokenContext : Type 0 where
  pub amr : String
  pub device : Option Device
  pub jkt : String

-- if s != "" { m[k] = v }.
abbrev pub put_unless_empty : String → String → Value → Claims → Claims
put_unless_empty s k v m = if s == "" then m else put k v m

abbrev pub put_device : Option Device → Claims → Claims
put_device none m = m
put_device (some d) m = put "device_trust" (str d.trust_level) (put "device_id" (str d.id) m)

-- An empty map and no map issue the same claims.
unfoldable pub extra : TokenContext → Claims
extra tc =
    put_unless_empty tc.jkt "cnf" (obj "jkt" tc.jkt)
      (put_device tc.device (put_unless_empty tc.amr "amr" (strs (amr_list tc.amr)) []))

abbrev pub id_of : Option Device → String
id_of none = ""
id_of (some d) = d.id

unfoldable pub token_type : TokenContext → String
token_type tc = if tc.jkt == "" then "Bearer" else "DPoP"

abbrev jkt_of : Option Proof → String
jkt_of none = ""
jkt_of (some p) = p.jkt

unfoldable pub dpop_jkt : Request → String
dpop_jkt req = jkt_of req.proof

unfoldable pub user_groups : User → List String
user_groups u = if u.is_admin then "admins" ∷ [] else []

unfoldable pub with_groups : Claims → User → Claims
with_groups m u = if u.is_admin then put "groups" (strs (user_groups u)) m else m

unfoldable pub profile_from_user : User → Profile
profile_from_user u = record {
  email = u.email;
  email_verified = true;
  preferred_username = u.username;
  name = u.username;
}

-- A copy of the claims without `k`.
unfoldable pub without : String → Claims → Claims
without k [] = []
without k ((j, v) ∷ m) = let rest = without k m in if j == k then rest else (j, v) ∷ rest

abbrev pub add_id_token : TokenResponse → Option String → Option TokenResponse
add_id_token resp none = none
add_id_token resp (some t) = some (record resp { id_token = t })

abbrev pub plain_response : Env → String → TokenContext → String → TokenResponse
plain_response env scope tc t = record {
  access_token = t;
  token_type = token_type tc;
  expires_in = env.issuer.access_ttl / second;
  refresh_token = "";
  id_token = "";
  scope = scope;
}

abbrev pub access_response : Env → String → TokenContext → Option String → Option TokenResponse
access_response env scope tc none = none
access_response env scope tc (some t) = some (plain_response env scope tc t)

abbrev pub with_id_token :
    Env → Client → User → String → String → ℕ → Claims → Option TokenResponse → Option TokenResponse
with_id_token env client user scope nonce auth_time claims none = none
with_id_token env client user scope nonce auth_time claims (some resp) =
    if has_scope scope scope_open_id
    then add_id_token resp (
        issue_id_token env.issuer user.id client.client_id (profile_from_user user) nonce auth_time
          (without "cnf" claims))
    else some resp

-- `none` where a token cannot be signed.
unfoldable pub build_access_and_id :
    Env → Client → User → String → String → ℕ → TokenContext → Option TokenResponse
build_access_and_id env client user scope nonce auth_time tc =
    let claims = with_groups (extra tc) user in
    with_id_token env client user scope nonce auth_time claims (
      access_response env scope tc
        (issue_access_token env.issuer user.id client.client_id scope claims))

unfoldable pub new_refresh_token :
    Env → Client → User → String → ℕ → String → TokenContext → RefreshToken
new_refresh_token env client user scope auth_time rotated_from tc = record {
  id = env.new_id;
  token_hash = env.hash env.random_token;
  client_id = client.client_id;
  user_id = user.id;
  scope = scope;
  rotated_from = rotated_from;
  revoked = false;
  expires_at = env.io.now + env.settings.refresh_token_ttl;
  created_at = env.io.now;
  auth_time = auth_time;
  amr = tc.amr;
  device_id = id_of tc.device;
  dpop_jkt = tc.jkt;
}

unfoldable pub record_token_metrics : TokenResponse → Handler (Unit {0})
record_token_metrics resp = do
  when (not (resp.access_token == "")) (record_metric (token "access"))
  when (not (resp.id_token == "")) (record_metric (token "id"))
  when (not (resp.refresh_token == "")) (record_metric (token "refresh"))
