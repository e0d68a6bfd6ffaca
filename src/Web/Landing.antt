-- ===== src/Web/Landing.antt =====
-- internal/web/auth_handlers.go: where a browser goes after a login.
use Prim.Native.Char.{Char, code}
use Prim.Native.String.{[], ◌∷◌}
use omni_identity.Prelude.{
  String, Bool, false, not, ◌&&◌, ◌||◌, Option, none, some, ◌==◌, ltb, if◌then◌else◌,
}
use omni_identity.Prelude.Urls.{same_code}
use omni_identity.Model.{User}
use omni_identity.Pop.{Url}
use omni_identity.Store.Io.{Db, Result, ok, err}
use omni_identity.Store.Clients.{get_user_by_id}
use omni_identity.Web.Server.{Env}

unfoldable pub redirect_after_login : User → String
redirect_after_login u = if u.is_admin then "/admin" else "/account"

-- A backslash or a control character.
abbrev unsafe_char : Char → Bool
unsafe_char c = same_code (code c) 0x5c || ltb (code c) 0x20 || same_code (code c) 0x7f

unfoldable pub has_unsafe_char : String → Bool
has_unsafe_char [] = false
has_unsafe_char (c ∷ s) = unsafe_char c || has_unsafe_char s

abbrev slash_first : String → Bool
slash_first [] = false
slash_first (c ∷ s) = same_code (code c) 0x2f

-- strings.HasPrefix(s, "/") and not strings.HasPrefix(s, "//").
abbrev one_slash : String → Bool
one_slash [] = false
one_slash (c ∷ s) = same_code (code c) 0x2f && not (slash_first s)

abbrev relative : Option Url → Bool
relative none = false
relative (some u) = u.scheme == "" && u.host == ""

unfoldable pub safe_next : Env → String → String
safe_next env next =
    if next == "" || has_unsafe_char next
    then ""
    else if relative (env.pop.parse_url next) && one_slash next
    then next
    else ""

abbrev landing_of : Result User → String
landing_of (err e) = "/account"
landing_of (ok u) = redirect_after_login u

unfoldable pub signed_in_landing : Env → String → Db → String
signed_in_landing env user_id db = landing_of (get_user_by_id env.io user_id db)
