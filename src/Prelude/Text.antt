-- ===== src/Prelude/Text.antt =====
-- Go's `strings.Fields`, `strings.Join` and `strings.TrimSpace` over the native texts, and the
-- round trip of splitting and joining.
use Prim.Native.Char.{Char, code}
use Prim.Native.String.{String, [], ◌∷◌, ◌++◌}
use mathlib.Core.Bool.{Bool, true, false, ◌&&◌, ◌||◌}
use mathlib.Core.Path.{◌≡◌, refl, ap}
use mathlib.Core.List.{List, [], ◌∷◌}
use text.Mathlib.Text.{is_eq}
use Prim.Native.Nat.{ℕ, ◌+◌, compare}
use text.Mathlib.TextLemmas.{nil-append, cons-append}
use omni_identity.Prelude.Tests.{leb, if◌then◌else◌}
use omni_identity.Prelude.Rows.{All}

same_code : ℕ → ℕ → Bool
same_code a b = is_eq (compare a b)

-- unicode.IsSpace.
unfoldable pub is_space : Char → Bool
unfolding same_code
is_space c =
    (leb 0x9 (code c) && leb (code c) 0xd)
    || same_code (code c) 0x20
    || same_code (code c) 0x85
    || same_code (code c) 0xa0
    || same_code (code c) 0x1680
    || (leb 0x2000 (code c) && leb (code c) 0x200a)
    || same_code (code c) 0x2028
    || same_code (code c) 0x2029
    || same_code (code c) 0x202f
    || same_code (code c) 0x205f
    || same_code (code c) 0x3000

abbrev char_bytes : ℕ → ℕ
char_bytes n = if leb n 0x7f then 1 else if leb n 0x7ff then 2 else if leb n 0xffff then 3 else 4

-- len, the number of bytes of the encoding in UTF-8.
unfoldable pub byte_len : String → ℕ
byte_len [] = 0
byte_len (c ∷ s) = char_bytes (code c) + byte_len s

abbrev pub is_empty : String → Bool
is_empty [] = true
is_empty (c ∷ s) = false

-- The word that the text begins with, empty at a space, and the words after it.
abbrev keep_word : String → List String → List String
keep_word w ws = if is_empty w then ws else w ∷ ws

abbrev step_words : Bool → Char → String × List String → String × List String
step_words true c (w, ws) = ("", keep_word w ws)
step_words false c (w, ws) = (c ∷ w, ws)

words : String → String × List String
words [] = ("", [])
words (c ∷ s) = step_words (is_space c) c (words s)

-- strings.Fields.
unfoldable pub fields : String → List String
unfolding words is_space
fields s = let (w, ws) = words s in keep_word w ws

-- strings.Join with a space for separator.
unfoldable pub join : List String → String
join [] = ""
join (x ∷ []) = x
join (x ∷ y ∷ rest) = x ++ (String.◌∷◌ " " (join (y ∷ rest)))

trim_left : String → String
trim_left [] = []
trim_left (c ∷ s) = let rest = trim_left s in if is_space c then rest else c ∷ s

trim_right : String → String
trim_right [] = []
trim_right (c ∷ s) = let rest = trim_right s in if is_empty rest && is_space c then "" else c ∷ rest

-- strings.TrimSpace.
unfoldable pub trim_space : String → String
unfolding trim_left trim_right is_space
trim_space s = trim_right (trim_left s)

abbrev pub NoSpace : String → Type 0
NoSpace [] = Unit
NoSpace (c ∷ s) = (is_space c ≡ false) × NoSpace s

-- What `fields` splits a text into: not empty and free of white space.
abbrev pub IsToken : String → Type 0
IsToken s = (is_empty s ≡ false) × NoSpace s

keep_word-IsToken :
    (w : String) (ws : List String) → NoSpace w → All IsToken ws → All IsToken (keep_word w ws)
keep_word-IsToken [] ws h k = k
keep_word-IsToken (c ∷ w) ws h k = ((refl, h), k)

step_words-IsToken :
    (b : Bool) (c : Char) (p : String × List String)
    → is_space c ≡ b
    → NoSpace p.0
    → All IsToken p.1
    → NoSpace (step_words b c p).0 × All IsToken (step_words b c p).1
step_words-IsToken true c (w, ws) e h k = (tt, keep_word-IsToken w ws h k)
step_words-IsToken false c (w, ws) e h k = ((e, h), k)

words-IsToken : (s : String) → NoSpace (words s).0 × All IsToken (words s).1
unfolding words
words-IsToken [] = (tt, tt)
words-IsToken (c ∷ s) =
    let ih = words-IsToken s in step_words-IsToken (is_space c) c (words s) refl ih.0 ih.1

pub fields-IsToken : (s : String) → All IsToken (fields s)
unfolding fields
fields-IsToken s = let h = words-IsToken s in keep_word-IsToken (words s).0 (words s).1 h.0 h.1

words-append : (x s : String) → NoSpace x → words (x ++ s) ≡ (x ++ (words s).0, (words s).1)
unfolding words
words-append [] s h = rw (nil-append s, nil-append (words s).0)
words-append (c ∷ x) s h =
    rw (cons-append c x s, cons-append c x (words s).0, words, h.0, words-append x s h.1)

words-token : (x : String) → NoSpace x → words x ≡ (x, [])
unfolding words
words-token [] h = refl
words-token (c ∷ x) h = rw (h.0, words-token x h.1)

append_nil : (x : String) → x ++ "" ≡ x
append_nil [] = nil-append []
append_nil (c ∷ x) = rw (cons-append c x []) (ap (String.◌∷◌ c) (append_nil x))

keep_token : (x : String) (ws : List String) → is_empty x ≡ false → keep_word x ws ≡ x ∷ ws
keep_token x ws h = rw h

words-join :
    (x : String) (xs : List String) → IsToken x → All IsToken xs → words (join (x ∷ xs)) ≡ (x, xs)
unfolding join words is_space
words-join x [] h k = words-token x h.1
words-join x (y ∷ ys) h k = rw (
  words-append x (" " ∷ join (y ∷ ys)) h.1,
  words,
  words-join y ys k.0 k.1,
  append_nil x,
  keep_token y ys k.0.0,
)

-- Splitting the text that joins tokens gives the tokens.
pub fields-join : (xs : List String) → All IsToken xs → fields (join xs) ≡ xs
unfolding fields join
fields-join [] h = refl
fields-join (x ∷ xs) h = rw (words-join x xs h.0 h.1, keep_token x xs h.0.0)
