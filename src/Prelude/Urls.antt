-- ===== src/Prelude/Urls.antt =====
-- Go's functions on texts that headers and addresses need: `strings.EqualFold`, the cut at a space
-- by `strings.IndexByte` and `strings.TrimRight` of slashes.
use Prim.Native.Char.{Char, code}
use Prim.Native.String.{String, [], ◌∷◌}
use Prim.Native.Nat.{ℕ, ◌+◌, compare}
use mathlib.Core.Bool.{Bool, true, false, ◌&&◌}
use mathlib.Core.Option.{Option, none, some}
use text.Mathlib.Text.{is_eq}
use omni_identity.Prelude.Tests.{leb, if◌then◌else◌}
use omni_identity.Prelude.Text.{is_empty}

abbrev pub same_code : ℕ → ℕ → Bool
same_code a b = is_eq (compare a b)

-- The letters of ASCII fold, and the two characters outside it that fold to one of them.
unfoldable pub fold_code : ℕ → ℕ
fold_code n =
    if leb 65 n && leb n 90
    then n + 32
    else if same_code n 0x212a
    then 107
    else if same_code n 0x17f
    then 115
    else n

-- strings.EqualFold.
unfoldable pub equal_fold : String → String → Bool
unfolding fold_code
equal_fold [] [] = true
equal_fold [] (d ∷ t) = false
equal_fold (c ∷ s) [] = false
equal_fold (c ∷ s) (d ∷ t) = same_code (fold_code (code c)) (fold_code (code d)) && equal_fold s t

abbrev put_before : Char → Option (String × String) → Option (String × String)
put_before c none = none
put_before c (some (before, after)) = some (c ∷ before, after)

-- The text before the first space and the one after it.
unfoldable pub cut_space : String → Option (String × String)
cut_space [] = none
cut_space (c ∷ s) =
    let rest = cut_space s in if same_code (code c) 0x20 then some ("", s) else put_before c rest

-- strings.TrimRight(s, "/").
unfoldable pub trim_slashes : String → String
trim_slashes [] = []
trim_slashes (c ∷ s) =
    let rest = trim_slashes s in if is_empty rest && same_code (code c) 0x2f then "" else c ∷ rest
