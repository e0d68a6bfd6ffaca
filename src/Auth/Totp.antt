-- ===== src/Auth/Totp.antt =====
-- internal/auth/totp.go: the one-time codes of RFC 6238. HMAC-SHA1 is the parameter `hmac`, the byte
-- at an index of the code of a counter under a key, taken modulo 256 here; base32 is `decode`.
use Prim.Native.Char.{Char}
use Prim.Native.String.{[], ◌∷◌, char_at, len}
use omni_identity.Prelude.{
  ℕ, ◌+◌, ◌-◌, ◌*◌, ◌/◌, ◌%◌, String, Bool, false, ◌||◌, Option, none, some, ◌==◌, ltb,
  if◌then◌else◌,
}
use omni_identity.Prelude.Text.{trim_space}
use omni_identity.Prelude.Digits.{to_upper, remove_char}
use omni_identity.Model.{unix}

abbrev totp_digits : ℕ
totp_digits = 6

abbrev totp_period : ℕ
totp_period = 30

abbrev digit : ℕ → Char
digit n = char_at "0123456789" (n % 10)

-- %0*d of a number below 1_000_000.
abbrev pub six_digits : ℕ → String
six_digits n =
    digit (n / 100_000)
    ∷ digit (n / 10_000)
    ∷ digit (n / 1000)
    ∷ digit (n / 100)
    ∷ digit (n / 10)
    ∷ digit n
    ∷ []

abbrev pub max_counter : ℕ
max_counter = 18_446_744_073_709_551_615

unfoldable pub normalize_secret : String → String
normalize_secret s = to_upper (remove_char 0x20 (trim_space s))

module _ (hmac : String → ℕ → ℕ → ℕ) (decode : String → Option String) where
  abbrev byte : String → ℕ → ℕ → ℕ
  byte key counter i = hmac key counter i % 256

  -- The dynamic truncation: four bytes at an offset, less the first bit.
  unfoldable pub truncated : String → ℕ → ℕ
  truncated key counter =
      let offset = byte key counter 19 % 16 in
      (byte key counter offset % 128) * 16_777_216
      + byte key counter (offset + 1) * 65_536
      + byte key counter (offset + 2) * 256
      + byte key counter (offset + 3)

  unfoldable pub hotp : String → ℕ → String
  hotp key counter = six_digits (truncated key counter % 1_000_000)

  -- uint64(base - 1), uint64(base) and uint64(base + 1).
  abbrev pub previous_step : ℕ → ℕ
  previous_step base = if ltb 0 base then base - 1 else max_counter

  abbrev pub matches_step : String → String → ℕ → Bool
  matches_step key code base =
      hotp key (previous_step base) == code || hotp key base == code || hotp key (base + 1) == code

  abbrev verify_key : Option String → String → ℕ → Bool
  verify_key none code base = false
  verify_key (some key) code base = matches_step key code base

  unfoldable pub verify_totp : String → String → ℕ → Bool
  verify_totp secret code t =
      if ltb (len (trim_space code)) totp_digits || ltb totp_digits (len (trim_space code))
      then false
      else verify_key (decode (normalize_secret secret)) (trim_space code) (unix t / totp_period)

  abbrev code_at : ℕ → Option String → Option String
  code_at counter none = none
  code_at counter (some key) = some (hotp key counter)

  unfoldable pub totp_code : String → ℕ → Option String
  totp_code secret t = code_at (unix t / totp_period) (decode (normalize_secret secret))
