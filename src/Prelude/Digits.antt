-- ===== src/Prelude/Digits.antt =====
-- Case and digits: `strings.ToLower`, `strings.ToUpper`, `strings.ReplaceAll` of one character by
-- nothing and `strconv.Atoi`. Case changes for the letters of ASCII, and for the characters outside
-- it that turn into one; the other letters outside ASCII are left as they are.
use Prim.Native.Char.{Char, code}
use Prim.Native.String.{String, [], ◌∷◌, char_at}
use Prim.Native.Nat.{ℕ, ◌+◌, ◌-◌, ◌*◌}
use mathlib.Core.Bool.{Bool, ◌&&◌}
use mathlib.Core.Option.{Option, none, some}
use omni_identity.Prelude.Tests.{leb, if◌then◌else◌}
use omni_identity.Prelude.Urls.{same_code}

abbrev small : ℕ → Char
small n = char_at "abcdefghijklmnopqrstuvwxyz" n

abbrev capital : ℕ → Char
capital n = char_at "ABCDEFGHIJKLMNOPQRSTUVWXYZ" n

-- U+0130 and U+212A are lower cased to i and k.
abbrev lower_char : Char → Char
lower_char c =
    let n = code c in
    if leb 65 n && leb n 90
    then small (n - 65)
    else if same_code n 0x130
    then small 8
    else if same_code n 0x212a
    then small 10
    else c

-- U+0131 and U+017F are upper cased to I and S.
abbrev upper_char : Char → Char
upper_char c =
    let n = code c in
    if leb 97 n && leb n 122
    then capital (n - 97)
    else if same_code n 0x131
    then capital 8
    else if same_code n 0x17f
    then capital 18
    else c

unfoldable pub to_lower : String → String
to_lower [] = []
to_lower (c ∷ s) = lower_char c ∷ to_lower s

unfoldable pub to_upper : String → String
to_upper [] = []
to_upper (c ∷ s) = upper_char c ∷ to_upper s

-- strings.ReplaceAll(s, c, "") of the character with this code.
unfoldable pub remove_char : ℕ → String → String
remove_char n [] = []
remove_char n (c ∷ s) =
    let rest = remove_char n s in if same_code (code c) n then rest else c ∷ rest

is_digit : Char → Bool
is_digit c = leb 48 (code c) && leb (code c) 57

-- The number that the digits add to what is read so far.
abbrev read_digits : ℕ → String → Option ℕ
read_digits n [] = some n
read_digits n (c ∷ s) =
    let rest = read_digits (10 * n + (code c - 48)) s in if is_digit c then rest else none

-- A number that fits an int.
abbrev in_range : Option ℕ → Option ℕ
in_range none = none
in_range (some n) = if leb n 9_223_372_036_854_775_807 then some n else none

abbrev digits : String → Option ℕ
digits [] = none
digits (c ∷ s) = in_range (read_digits 0 (c ∷ s))

-- A number after a minus sign is below 0, unless it is 0.
abbrev negated : Option ℕ → Option ℕ
negated none = none
negated (some n) = if leb n 0 then some 0 else none

-- The text and what follows its first character, which may be a sign.
abbrev signed : ℕ → String → String → Option ℕ
signed n s t =
    if same_code n 43 then digits t else if same_code n 45 then negated (digits t) else digits s

-- strconv.Atoi with a check that the number is not negative: none where either fails.
unfoldable pub atoi_not_negative : String → Option ℕ
unfolding is_digit
atoi_not_negative [] = none
atoi_not_negative (c ∷ s) = signed (code c) (c ∷ s) s
