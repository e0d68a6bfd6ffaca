-- ===== src/Tokens/Laws.antt =====
-- What a token says when it is verified, whatever claims it was issued with besides.
use omni_identity.Prelude.{
  ℕ, String, true, false, some, [], ◌∷◌, ◌≡◌, refl, arith, ◌==◌, eq_iff, if◌then◌else◌,
}
use omni_identity.Tokens.{
  Value, Claims, put, claim, Issuer, access_claims, issue_access_token, VerifiedToken, as_str,
  as_obj, verified, verify, is_access_token, is_device_token,
}

pub claim-put :
    (k j : String) (v : Value) (m : Claims)
    → claim k (put j v m) ≡ (if j == k then some v else claim k m)
unfolding claim put
claim-put k j v [] = refl
claim-put k j v ((i, w) ∷ m) = ground (arith, eq_iff i j, eq_iff i k, eq_iff j k, claim-put k j v m)

-- The same issuer at another time.
abbrev pub at_time : Issuer → ℕ → Issuer
at_time i now = record i { now = now }

-- An access token that was issued, and that the JWT layer reads back at a later time as the claims
-- that were signed, verifies then with its subject, audience and scope, as an access token and not as
-- a device token, whatever the extra claims; its key binding and its device are those of the
-- extra claims.
pub verify-issue_access_token :
    (i : Issuer) (subject audience scope : String) (extra : Claims) (raw : String) (later : ℕ)
    → issue_access_token i subject audience scope extra ≡ some raw
    → (i.jwt.sign (access_claims i subject audience scope extra) ≡ some raw
        → i.jwt.parse later raw ≡ some (access_claims i subject audience scope extra))
    → (vt : VerifiedToken) × (verify (at_time i later) raw ≡ some vt)
      × (vt.subject ≡ subject)
      × (vt.audience ≡ audience)
      × (vt.scope ≡ scope)
      × (is_access_token vt ≡ true)
      × (is_device_token vt ≡ false)
      × (vt.jkt ≡ as_obj "jkt" (claim "cnf" extra))
      × (vt.device_id ≡ as_str (claim "device_id" extra))
unfolding issue_access_token verify is_access_token is_device_token access_claims
verify-issue_access_token i subject audience scope extra raw later issued reads = (
  verified (access_claims i subject audience scope extra),
  rw (verify, reads issued) refl,
  simp claim-put,
  simp claim-put,
  simp claim-put,
  simp claim-put,
  simp claim-put,
  simp claim-put,
  simp claim-put,
)
