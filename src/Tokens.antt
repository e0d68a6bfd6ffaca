-- ===== src/Tokens.antt =====
-- internal/tokens/jwt.go: the claims of the tokens that the server issues, and what it reads from
-- a token that it verifies.
--
-- A jwt.MapClaims is an association list. The JSON and signature layer of the jwt package, with
-- the keys behind it, is the parameter `Jwt`: `sign` (`none` for a failure) and `parse`, which
-- gives the claims of a token whose signature, issuer and expiry are valid at a time; `parse_signed`
-- asks for the signature only.
pub mod Laws
use omni_identity.Prelude.{
  ℕ, String, Bool, true, false, ◌+◌, Option, none, some, List, [], ◌∷◌, ◌==◌, if◌then◌else◌,
}
use omni_identity.Prelude.Text.{fields}
use omni_identity.Model.{unix}

pub data Value : Type 0 where
  str : String → Value
  strs : List String → Value
  num : ℕ → Value
  flag : Bool → Value
  obj : String → String → Value
  -- A JSON object of its own, as its text.
  document : String → Value

abbrev pub Claims : Type 0
Claims = List (String × Value)

-- claims[k] = v.
unfoldable pub put : String → Value → Claims → Claims
put k v [] = (k, v) ∷ []
put k v ((j, w) ∷ m) = if j == k then (k, v) ∷ m else (j, w) ∷ put k v m

unfoldable pub claim : String → Claims → Option Value
claim k [] = none
claim k ((j, v) ∷ m) = if j == k then some v else claim k m

pub record Jwt : Type 0 where
  pub sign : Claims → Option String
  pub parse : ℕ → String → Option Claims
  -- The claims of a token with a valid signature, whatever its time and issuer.
  pub parse_signed : String → Option Claims

pub record Issuer : Type 0 where
  pub jwt : Jwt
  pub name : String
  pub access_ttl : ℕ
  pub id_ttl : ℕ
  pub now : ℕ

abbrev pub core_claims : Issuer → String → String → ℕ → Claims → Claims
core_claims i subject audience expires extra = put "exp" (num (unix expires)) (
    put "iat" (num (unix i.now))
      (put "aud" (str audience) (put "sub" (str subject) (put "iss" (str i.name) extra))))

unfoldable pub access_claims : Issuer → String → String → String → Claims → Claims
access_claims i subject audience scope extra =
    put "token_use" (str "access")
      (put "scope" (str scope) (core_claims i subject audience (i.now + i.access_ttl) extra))

unfoldable pub issue_access_token : Issuer → String → String → String → Claims → Option String
issue_access_token i subject audience scope extra =
    i.jwt.sign (access_claims i subject audience scope extra)

pub record Profile : Type 0 where
  pub email : String
  pub email_verified : Bool
  pub preferred_username : String
  pub name : String

abbrev put_nonce : String → Claims → Claims
put_nonce nonce m = if nonce == "" then m else put "nonce" (str nonce) m

unfoldable pub id_claims : Issuer → String → String → Profile → String → ℕ → Claims → Claims
id_claims i subject audience p nonce auth_time extra = put_nonce nonce (
    put "name" (str p.name) (
      put "preferred_username" (str p.preferred_username) (
        put "email_verified" (flag p.email_verified) (
          put "email" (str p.email) (
            put "auth_time" (num (unix auth_time))
              (core_claims i subject audience (i.now + i.id_ttl) extra))))))

unfoldable pub issue_id_token :
    Issuer → String → String → Profile → String → ℕ → Claims → Option String
issue_id_token i subject audience p nonce auth_time extra =
    i.jwt.sign (id_claims i subject audience p nonce auth_time extra)

unfoldable pub device_claims : Issuer → String → String → String → String → String → ℕ → Claims
device_claims i device_id owner_sub trust audience jkt ttl =
    if jkt == "" then base else put "cnf" (obj "jkt" jkt) base
  where
    base : Claims
    base =
        ("iss", str i.name)
        ∷ ("sub", str device_id)
        ∷ ("aud", str audience)
        ∷ ("iat", num (unix i.now))
        ∷ ("exp", num (unix (i.now + ttl)))
        ∷ ("token_use", str "device")
        ∷ ("device_id", str device_id)
        ∷ ("device_trust", str trust)
        ∷ ("owner_sub", str owner_sub)
        ∷ []

unfoldable pub issue_device_token :
    Issuer → String → String → String → String → String → ℕ → Option String
issue_device_token i device_id owner_sub trust audience jkt ttl =
    i.jwt.sign (device_claims i device_id owner_sub trust audience jkt ttl)

unfoldable pub amr_list : String → List String
amr_list amr = fields amr

pub record VerifiedToken : Type 0 where
  pub subject : String
  pub audience : String
  pub scope : String
  pub email : String
  pub preferred_username : String
  pub device_id : String
  pub device_trust : String
  pub jkt : String
  pub claims : Claims

-- x, _ := v.(string).
abbrev pub as_str : Option Value → String
as_str (some (str s)) = s
as_str _ = ""

abbrev pub as_obj : String → Option Value → String
as_obj k (some (obj j s)) = if j == k then s else ""
as_obj k _ = ""

-- A list of audiences counts by its first member.
abbrev pub audience_string : Option Value → String
audience_string (some (str s)) = s
audience_string (some (strs (s ∷ _))) = s
audience_string _ = ""

abbrev pub verified : Claims → VerifiedToken
verified m = record {
  subject = as_str (claim "sub" m);
  audience = audience_string (claim "aud" m);
  scope = as_str (claim "scope" m);
  email = as_str (claim "email" m);
  preferred_username = as_str (claim "preferred_username" m);
  device_id = as_str (claim "device_id" m);
  device_trust = as_str (claim "device_trust" m);
  jkt = as_obj "jkt" (claim "cnf" m);
  claims = m;
}

unfoldable pub verify : Issuer → String → Option VerifiedToken
verify i raw = elim (i.jwt.parse i.now raw) [ none ↦ none | some m ↦ some (verified m) ]

unfoldable pub is_access_token : VerifiedToken → Bool
is_access_token v = as_str (claim "token_use" v.claims) == "access"

unfoldable pub is_device_token : VerifiedToken → Bool
is_device_token v = as_str (claim "token_use" v.claims) == "device"

abbrev pub of_issuer : Issuer → Option Claims → Option VerifiedToken
of_issuer i none = none
of_issuer i (some m) = if as_str (claim "iss" m) == i.name then some (hinted m) else none
  where
    hinted : Claims → VerifiedToken
    hinted m = record {
      subject = as_str (claim "sub" m);
      audience = audience_string (claim "aud" m);
      scope = "";
      email = "";
      preferred_username = "";
      device_id = "";
      device_trust = "";
      jkt = "";
      claims = m;
    }

-- An expired token is good enough.
unfoldable pub parse_id_token_hint : Issuer → String → Option VerifiedToken
parse_id_token_hint i hint = of_issuer i (i.jwt.parse_signed hint)
