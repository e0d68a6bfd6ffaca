-- ===== src/Auth/Policy.antt =====
-- internal/auth/policy.go: the rules that a new password keeps. The tables of Go's `unicode` package
-- are the parameter `char_class`: the first class of the source's `switch` that a character is in. A
-- message is a constructor.
use Prim.Native.Char.{Char}
use Prim.Native.String.{[], ◌∷◌}
use omni_identity.Prelude.{
  ℕ, ◌+◌, String, Bool, true, false, not, ◌&&◌, ◌||◌, Option, none, some, ◌==◌, ltb, if◌then◌else◌,
}
use omni_identity.Prelude.Digits.{to_lower}

pub record PasswordPolicy : Type 0 where
  pub min_length : ℕ
  pub require_upper : Bool
  pub require_lower : Bool
  pub require_number : Bool
  pub require_symbol : Bool

pub data CharClass : Type 0 where
  upper lower number symbol other : CharClass

pub data PasswordProblem : Type 0 where
  too_short : ℕ → PasswordProblem
  no_upper no_lower no_number no_symbol is_username is_email : PasswordProblem

unfoldable pub min_length_of : PasswordPolicy → ℕ
min_length_of p = if ltb p.min_length 8 then 8 else p.min_length

-- len([]rune(s)).
unfoldable pub rune_count : String → ℕ
rune_count [] = 0
rune_count (c ∷ s) = 1 + rune_count s

abbrev pub same_class : CharClass → CharClass → Bool
same_class CharClass.upper CharClass.upper = true
same_class CharClass.lower CharClass.lower = true
same_class CharClass.number CharClass.number = true
same_class CharClass.symbol CharClass.symbol = true
same_class _ _ = false

module _ (char_class : Char → CharClass) where
  unfoldable pub has_class : CharClass → String → Bool
  has_class k [] = false
  has_class k (c ∷ s) = same_class k (char_class c) || has_class k s

  unfoldable pub validate_password :
      String → String → String → PasswordPolicy → Option PasswordProblem
  validate_password password username email p =
      if ltb (rune_count password) (min_length_of p)
      then some (too_short (min_length_of p))
      else if p.require_upper && not (has_class CharClass.upper password)
      then some no_upper
      else if p.require_lower && not (has_class CharClass.lower password)
      then some no_lower
      else if p.require_number && not (has_class CharClass.number password)
      then some no_number
      else if p.require_symbol && not (has_class CharClass.symbol password)
      then some no_symbol
      else if not (username == "") && to_lower password == to_lower username
      then some is_username
      else if not (email == "") && to_lower password == to_lower email
      then some is_email
      else none
