-- ===== src/Web/RateLimit.antt =====
-- internal/web/ratelimit.go: the fixed-window counters that throttle failed attempts. A duration
-- is a number of nanoseconds; one that is not positive is 0. `max` is at least 1 or else 0, and the
-- map is an association list with one window for a key.
pub mod Laws
use omni_identity.Prelude.{
  ℕ, ◌+◌, ◌-◌, ◌*◌, String, Bool, true, false, not, ◌||◌, Option, none, some, List, [], ◌∷◌, ◌==◌,
  ltb, if◌then◌else◌,
}
use omni_identity.Model.{second}

pub record Window : Type 0 where
  pub count : ℕ
  pub reset_at : ℕ

abbrev pub Windows : Type 0
Windows = List (String × Window)

pub record RateLimiter : Type 0 where
  pub windows : Windows
  pub last_reap : ℕ

abbrev pub default_login_max_attempts : ℕ
default_login_max_attempts = 5

abbrev pub default_rate_limit_window : ℕ
default_rate_limit_window = 900 * second

unfoldable pub new_rate_limiter : RateLimiter
new_rate_limiter = record { windows = []; last_reap = 0 }

unfoldable pub window_of : String → Windows → Option Window
window_of k [] = none
window_of k ((j, w) ∷ m) = if j == k then some w else window_of k m

unfoldable pub put_window : String → Window → Windows → Windows
put_window k w [] = (k, w) ∷ []
put_window k w ((j, v) ∷ m) = if j == k then (k, w) ∷ m else (j, v) ∷ put_window k w m

-- delete(rl.windows, key).
unfoldable pub drop_window : String → Windows → Windows
drop_window k [] = []
drop_window k ((j, v) ∷ m) = let rest = drop_window k m in if j == k then rest else (j, v) ∷ rest

unfoldable pub drop_expired : ℕ → Windows → Windows
drop_expired now [] = []
drop_expired now ((j, v) ∷ m) =
    let rest = drop_expired now m in if ltb v.reset_at now then rest else (j, v) ∷ rest

unfoldable pub normalize_max : ℕ → ℕ
normalize_max max = if ltb max 1 then default_login_max_attempts else max

unfoldable pub normalize_ttl : ℕ → ℕ
normalize_ttl ttl = if ltb 0 ttl then ttl else default_rate_limit_window

-- At most once in a ttl.
unfoldable pub reap : ℕ → ℕ → RateLimiter → RateLimiter
reap now ttl rl =
    if ltb (now - rl.last_reap) ttl
    then rl
    else record { windows = drop_expired now rl.windows; last_reap = now }

abbrev pub under_budget : ℕ → ℕ → Option Window → Bool
under_budget now max none = true
under_budget now max (some w) = if ltb w.reset_at now then true else ltb w.count max

unfoldable pub allowed : ℕ → String → ℕ → ℕ → RateLimiter → Bool × RateLimiter
allowed now key max ttl rl =
    let reaped = reap now (normalize_ttl ttl) rl in
    (under_budget now (normalize_max max) (window_of key reaped.windows), reaped)

abbrev pub failed_window : ℕ → ℕ → Option Window → Window
failed_window now ttl none = record { count = 1; reset_at = now + ttl }
failed_window now ttl (some w) =
    if ltb w.reset_at now
    then record { count = 1; reset_at = now + ttl }
    else record w { count = w.count + 1 }

unfoldable pub fail : ℕ → String → ℕ → RateLimiter → RateLimiter
fail now key ttl rl =
    let t = normalize_ttl ttl in
    let reaped = reap now t rl in
    record reaped {
      windows = put_window key (failed_window now t (window_of key reaped.windows)) reaped.windows;
    }

unfoldable pub reset : String → RateLimiter → RateLimiter
reset key rl = record rl { windows = drop_window key rl.windows }
