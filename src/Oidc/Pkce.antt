-- ===== src/Oidc/Pkce.antt =====
-- internal/oidc/pkce.go. SHA-256 with base64url is a parameter, `s256`.
use omni_identity.Prelude.{String, Bool, false, ◌==◌, if◌then◌else◌}

abbrev pub pkce_method_s256 : String
pkce_method_s256 = "S256"

unfoldable pub verify_pkce : (String → String) → String → String → String → Bool
verify_pkce s256 verifier challenge method =
    if method == pkce_method_s256
    then s256 verifier == challenge
    else if method == "plain"
    then verifier == challenge
    else false
