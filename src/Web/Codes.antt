-- ===== src/Web/Codes.antt =====
-- internal/web/device_grant_handler.go: user codes as they are typed and shown, and bounded texts. A
-- text here is whole characters, so one that a byte position of `truncate` cuts is left out.
use Prim.Native.Char.{Char, code}
use Prim.Native.String.{[], ◌∷◌, ◌++◌, len, slice, char_at}
use omni_identity.Prelude.{ℕ, ◌-◌, String, Bool, ◌&&◌, ◌||◌, ltb, leb, if◌then◌else◌}

abbrev pub user_code_length : ℕ
user_code_length = 8

abbrev pub max_device_name_length : ℕ
max_device_name_length = 64

abbrev pub max_device_platform_field : ℕ
max_device_platform_field = 32

abbrev letter : ℕ → Char
letter n = char_at "ABCDEFGHIJKLMNOPQRSTUVWXYZ" n

-- unicode.ToUpper, as far as its result is a letter of ASCII: two characters outside it have one.
abbrev upper : Char → Char
upper c =
    let n = code c in
    if leb 97 n && leb n 122
    then letter (n - 97)
    else if leb 305 n && leb n 305
    then letter 8
    else if leb 383 n && leb n 383
    then letter 18
    else c

abbrev pub is_letter : Char → Bool
is_letter c = leb 65 (code c) && leb (code c) 90

unfoldable pub normalize_user_code : String → String
normalize_user_code [] = []
normalize_user_code (c ∷ s) =
    let rest = normalize_user_code s in if is_letter (upper c) then upper c ∷ rest else rest

unfoldable pub format_user_code : String → String
format_user_code code =
    if ltb (len code) user_code_length || ltb user_code_length (len code)
    then code
    else slice code 0 4 ++ ("-" ++ slice code 4 user_code_length)

-- The source cuts at a number of bytes, this at a number of characters: the same for texts of ASCII.
unfoldable pub truncate : String → ℕ → String
truncate s n = if leb (len s) n then s else slice s 0 n
