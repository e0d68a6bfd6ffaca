-- ===== src/Web/Dpop.antt =====
-- internal/web/token_handler.go, verifyDPoP, and internal/web/device_api.go, the authentication of a
-- request by a token that may be bound to a key.
pub mod Laws
pub mod Codes
use Prim.Native.String.{◌++◌}
use omni_identity.Prelude.{
  ℕ, ◌+◌, ◌*◌, String, Bool, true, false, not, ◌&&◌, ◌||◌, Option, none, some, List, [], ◌∷◌, ◌⊎◌,
  inl, inr, ◌==◌, if◌then◌else◌,
}
use mathlib.Core.List.{map}
use mathlib.Core.List
use omni_identity.Prelude.Text.{trim_space}
use omni_identity.Prelude.Urls.{equal_fold, cut_space, trim_slashes}
use omni_identity.Model.{Device}
use omni_identity.Pop.{Pop, Proof, ProofOptions, verify_proof, is_htu_mismatch, default_skew}
use omni_identity.Store.Io.{Db, Result, ok, err}
use omni_identity.Store.Jtis.{consume_jti}
use omni_identity.Tokens.{VerifiedToken, verify, is_device_token}
use omni_identity.Web.Server.{Env, Settings, Request}
use omni_identity.Web.Devices.{active_device}

abbrev issuer_url : Settings → List String
issuer_url cur =
    let iss = trim_slashes cur.issuer in
    if not (iss == "") && not (iss == trim_slashes cur.public_url) then iss ∷ [] else []

-- The first address, that of the public URL, and the others.
unfoldable pub server_urls_for : Env → Request → String × List String
server_urls_for env req = (
  trim_slashes env.settings.public_url ++ req.path,
  map (λ (base : String). base ++ req.path)
      (List.◌++◌ (issuer_url env.settings) env.settings.issuer_aliases),
)

abbrev pub next_on_mismatch : String ⊎ Proof → String ⊎ Proof → String ⊎ Proof
next_on_mismatch (inl e) rest = if is_htu_mismatch e then rest else inl e
next_on_mismatch (inr p) rest = inr p

-- The answer for the first address that the proof does not mismatch, or for the last one.
unfoldable pub try_urls : (String → String ⊎ Proof) → String → List String → String ⊎ Proof
try_urls check u [] = check u
try_urls check u (v ∷ us) = next_on_mismatch (check u) (try_urls check v us)

unfoldable pub check_proof : Env → Request → String → String → String ⊎ Proof
check_proof env req raw access_token =
    let (u, us) = server_urls_for env req in
    try_urls
      (λ htu.
        verify_proof env.pop
          (record {
            now = env.io.now;
            expected_htm = req.method;
            expected_htu = htu;
            access_token = access_token;
          })
          raw)
      u us

abbrev pub accept_fresh : Env → Proof → Result Bool × Db → (String ⊎ Proof) × Db
accept_fresh env p (err e, db) = (inl env.driver_message, db)
accept_fresh env p (ok false, db) = (inl "dpop: proof jti already used", db)
accept_fresh env p (ok true, db) = (inr p, db)

abbrev pub jti_lifetime : ℕ
jti_lifetime = 2 * default_skew

abbrev pub consume_proof : Env → String ⊎ Proof → Db → (String ⊎ Proof) × Db
consume_proof env (inl e) db = (inl e, db)
consume_proof env (inr p) db =
    accept_fresh env p
      (consume_jti env.io (env.pop.jti_hash p.jkt p.jti) "" (p.issued_at + jti_lifetime) db)

unfoldable pub verify_dpop : Env → Request → String → String → Db → (String ⊎ Proof) × Db
verify_dpop env req raw access_token db =
    consume_proof env (check_proof env req raw access_token) db

abbrev trim_token : Option (String × String) → String × String
trim_token none = ("", "")
trim_token (some (scheme, token)) = (scheme, trim_space token)

-- The scheme and the token of the Authorization header.
unfoldable pub authorization_token : Request → String × String
authorization_token req = trim_token (cut_space (trim_space req.authorization))

abbrev match_key : VerifiedToken → String ⊎ Proof → Option VerifiedToken
match_key vt (inl e) = none
match_key vt (inr p) = if p.jkt == vt.jkt then some vt else none

-- The proof that handleToken has verified, or else one that is verified here.
abbrev pub proof_for : Env → Request → String → Db → Option Proof → (String ⊎ Proof) × Db
proof_for env req raw db none = verify_dpop env req req.dpop raw db
proof_for env req raw db (some p) =
    if p.ath == env.pop.access_token_hash raw
    then (inr p, db)
    else (inl "dpop: proof is not bound to the presented token", db)

abbrev pub accept_token :
    Env → Request → String → Db → Option VerifiedToken → Option VerifiedToken × Db
accept_token env req raw db none = (none, db)
accept_token env req raw db (some vt) =
    if vt.jkt == ""
    then (some vt, db)
    else (let (p, db') = proof_for env req raw db req.proof in (match_key vt p, db'))

-- `none` for every error: the callers answer them alike.
unfoldable pub resource_token : Env → Request → Db → Option VerifiedToken × Db
resource_token env req db =
    let (scheme, raw) = authorization_token req in
    if raw == "" || (not (equal_fold scheme "DPoP") && not (equal_fold scheme "Bearer"))
    then (none, db)
    else accept_token env req raw db (verify env.issuer raw)

abbrev pub device_of : Env → Option VerifiedToken × Db → Option Device × Db
device_of env (none, db) = (none, db)
device_of env (some vt, db) =
    (if is_device_token vt then active_device env vt.subject db else none, db)

unfoldable pub authenticate_device_request : Env → Request → Db → Option Device × Db
authenticate_device_request env req db = device_of env (resource_token env req db)
