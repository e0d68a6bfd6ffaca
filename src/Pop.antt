-- ===== src/Pop.antt =====
-- internal/pop/dpop.go: the DPoP proof that a request carries. The signature and JSON layer, with the
-- key in the header and its thumbprint, is the parameter `parse` of `Pop`: the error text, or the
-- thumbprint of the key and the claims. The hashes and `url.Parse` are parameters too. The claims of
-- a proof are those of Tokens; the key and the algorithm, which nothing reads, are left out.
pub mod Laws
use omni_identity.Prelude.Text.{byte_len}
use omni_identity.Prelude.{
  ℕ, ◌+◌, ◌-◌, ◌*◌, String, Bool, true, false, not, ◌&&◌, ◌||◌, Option, none, some, ◌⊎◌, inl, inr,
  ◌==◌, ltb, if◌then◌else◌,
}
use omni_identity.Prelude.Urls.{equal_fold}
use omni_identity.Model.{second}
use omni_identity.Tokens.{Claims, Value, num, claim, as_str}

-- url.URL; `host` has the port, `has_user` says that User is not nil.
pub record Url : Type 0 where
  pub scheme : String
  pub host : String
  pub path : String
  pub hostname : String
  pub port : String
  pub raw_query : String
  pub fragment : String
  pub has_user : Bool

pub record Pop : Type 0 where
  pub parse : String → String ⊎ (String × Claims)
  pub access_token_hash : String → String
  pub jti_hash : String → String → String
  pub parse_url : String → Option Url

abbrev pub default_skew : ℕ
default_skew = 300 * second

pub record Proof : Type 0 where
  pub jkt : String
  pub jti : String
  pub htm : String
  pub htu : String
  pub ath : String
  pub issued_at : ℕ

pub record ProofOptions : Type 0 where
  pub now : ℕ
  pub expected_htm : String
  pub expected_htu : String
  pub access_token : String

-- time.Unix(n, 0) of a JSON number; one below 0 is not a natural number, and not a recent time.
unfoldable pub numeric_date : Option Value → Option ℕ
numeric_date (some (num n)) = some ((n + 62_135_596_800) * second)
numeric_date _ = none

abbrev same_url : Option Url → Option Url → Bool
same_url (some g) (some w) =
    equal_fold g.scheme w.scheme && equal_fold g.host w.host && (g.path == w.path)
same_url _ _ = false

unfoldable pub same_htu : Pop → String → String → Bool
same_htu pop got want = same_url (pop.parse_url got) (pop.parse_url want)

abbrev pub outside_window : ℕ → ℕ → Bool
outside_window now iat = ltb iat (now - default_skew) || ltb (now + default_skew) iat

abbrev htu_mismatch : String
htu_mismatch = "dpop: htu mismatch"

abbrev wrong_ath : Pop → ProofOptions → Proof → Bool
wrong_ath pop opt p =
    not (opt.access_token == "")
    && (p.ath == "" || not (p.ath == pop.access_token_hash opt.access_token))

-- The checks against the request, from the window on.
abbrev pub check_request : Pop → ProofOptions → Proof → String ⊎ Proof
check_request pop opt p =
    if outside_window opt.now p.issued_at
    then inl "dpop: iat outside the acceptable window"
    else if not (opt.expected_htm == "") && not (p.htm == opt.expected_htm)
    then inl "dpop: htm mismatch"
    else if not (opt.expected_htu == "") && not (same_htu pop p.htu opt.expected_htu)
    then inl htu_mismatch
    else if wrong_ath pop opt p
    then inl "dpop: ath does not match the access token"
    else inr p

abbrev pub check_date : Pop → ProofOptions → Proof → Option ℕ → String ⊎ Proof
check_date pop opt p none = inl "dpop: missing iat"
check_date pop opt p (some iat) = check_request pop opt (record p { issued_at = iat })

abbrev pub proof_of : String → Claims → Proof
proof_of jkt m = record {
  jkt = jkt;
  jti = as_str (claim "jti" m);
  htm = as_str (claim "htm" m);
  htu = as_str (claim "htu" m);
  ath = as_str (claim "ath" m);
  issued_at = 0;
}

abbrev pub check_claims : Pop → ProofOptions → Proof → Option ℕ → String ⊎ Proof
check_claims pop opt p iat =
    if p.jti == "" || ltb 256 (byte_len p.jti)
    then inl "dpop: missing or invalid jti"
    else if p.htm == ""
    then inl "dpop: missing htm"
    else if p.htu == ""
    then inl "dpop: missing htu"
    else check_date pop opt p iat

abbrev pub check_parsed : Pop → ProofOptions → String ⊎ (String × Claims) → String ⊎ Proof
check_parsed pop opt (inl e) = inl e
check_parsed pop opt (inr (jkt, m)) =
    check_claims pop opt (proof_of jkt m) (numeric_date (claim "iat" m))

unfoldable pub verify_proof : Pop → ProofOptions → String → String ⊎ Proof
verify_proof pop opt raw =
    if raw == ""
    then inl "dpop: missing proof"
    else if ltb 8192 (byte_len raw)
    then inl "dpop: proof too large"
    else check_parsed pop opt (pop.parse raw)

-- strings.Contains(err.Error(), "htu mismatch").
unfoldable pub is_htu_mismatch : String → Bool
is_htu_mismatch e = e == htu_mismatch
