-- ===== src/Oidc/Scope.antt =====
-- internal/oidc/scope.go, with the scope names of internal/oidc/discovery.go: the scope parameter
-- and the tests on it.
pub mod Laws
use omni_identity.Prelude.{String, Bool, true, false, List, [], ◌∷◌, ◌==◌, if◌then◌else◌}
use omni_identity.Prelude.Text.{fields}

abbrev pub scope_open_id : String
scope_open_id = "openid"

abbrev pub scope_profile : String
scope_profile = "profile"

abbrev pub scope_email : String
scope_email = "email"

abbrev pub scope_offline_access : String
scope_offline_access = "offline_access"

abbrev pub scope_device_enroll : String
scope_device_enroll = "device:enroll"

abbrev pub supported_scopes : List String
supported_scopes =
    scope_open_id ∷ scope_profile ∷ scope_email ∷ scope_offline_access ∷ scope_device_enroll ∷ []

-- slices.Contains.
unfoldable pub contains : List String → String → Bool
contains [] want = false
contains (x ∷ xs) want = if x == want then true else contains xs want

unfoldable pub split_scope : String → List String
split_scope scope = fields scope

unfoldable pub has_scope : String → String → Bool
has_scope scope want = contains (split_scope scope) want

unfoldable pub scopes_subset : List String → List String → Bool
scopes_subset [] allowed = true
scopes_subset (r ∷ requested) allowed =
    if contains allowed r then scopes_subset requested allowed else false
