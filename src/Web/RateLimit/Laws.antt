-- ===== src/Web/RateLimit/Laws.antt =====
-- The budget: how many failures a key may have in a window.
use omni_identity.Prelude.{
  ℕ, ◌+◌, String, Bool, true, false, none, some, List, [], ◌∷◌, ◌≡◌, refl, arith, any, count_where,
  eq_of_test, ◌==◌, eq_iff, eq_refl, Bool-cases, inl, inr, ltb,
}
use omni_identity.Web.RateLimit.{
  Window, Windows, RateLimiter, window_of, put_window, drop_window, drop_expired, normalize_max,
  normalize_ttl, reap, allowed, failed_window, fail, reset,
}

window_of-put_window :
    (k : String) (w : Window) (m : Windows) → window_of k (put_window k w m) ≡ some w
unfolding window_of put_window
window_of-put_window k w [] = ground (arith, eq_refl k)
window_of-put_window k w ((j, v) ∷ m) = ground (arith, eq_refl k, window_of-put_window k w m)

window_of-drop_window : (k : String) (m : Windows) → window_of k (drop_window k m) ≡ none
unfolding window_of drop_window
window_of-drop_window k [] = refl
window_of-drop_window k ((j, v) ∷ m) = ground (arith, window_of-drop_window k m)

-- Reaping keeps a window that has not ended.
window_of-drop_expired :
    (k : String) (now : ℕ) (m : Windows) {w : Window}
    → window_of k m ≡ some w
    → ltb w.reset_at now ≡ false
    → window_of k (drop_expired now m) ≡ some w
unfolding window_of drop_expired
window_of-drop_expired k now [] e live = cc
window_of-drop_expired k now ((j, v) ∷ m) {w} e live =
    ground (arith, window_of-drop_expired k now m {w = w})

window_of-reap :
    (k : String) (now ttl : ℕ) (rl : RateLimiter) {w : Window}
    → window_of k rl.windows ≡ some w
    → ltb w.reset_at now ≡ false
    → window_of k (reap now ttl rl).windows ≡ some w
unfolding reap
window_of-reap k now ttl rl e live = ground (arith, window_of-drop_expired k now rl.windows e live)

window_of-put_window_other :
    (k j : String) (w : Window) (m : Windows)
    → (j == k) ≡ false
    → window_of k (put_window j w m) ≡ window_of k m
unfolding window_of put_window
window_of-put_window_other k j w [] n = ground arith
window_of-put_window_other k j w ((i, v) ∷ m) n =
    ground (arith, eq_iff i j, eq_iff i k, eq_iff j k, window_of-put_window_other k j w m n)

none-drop_expired :
    (k : String) (now : ℕ) (m : Windows)
    → window_of k m ≡ none
    → window_of k (drop_expired now m) ≡ none
unfolding window_of drop_expired
none-drop_expired k now [] e = refl
none-drop_expired k now ((j, v) ∷ m) e = ground (arith, none-drop_expired k now m)

none-reap :
    (k : String) (now ttl : ℕ) (rl : RateLimiter)
    → window_of k rl.windows ≡ none
    → window_of k (reap now ttl rl).windows ≡ none
unfolding reap
none-reap k now ttl rl e = ground (arith, none-drop_expired k now rl.windows e)

-- A failed attempt: the key and the time.
abbrev pub Attempt : Type 0
Attempt = String × ℕ

abbrev pub fail_all : List Attempt → ℕ → RateLimiter → RateLimiter
fail_all [] ttl rl = rl
fail_all ((key, t) ∷ hits) ttl rl = fail_all hits ttl (fail t key ttl rl)

abbrev pub Before : ℕ → List Attempt → Type 0
Before end [] = Unit
Before end ((key, t) ∷ hits) = (ltb end t ≡ false) × Before end hits

abbrev pub of_key : String → Attempt → Bool
of_key k (key, t) = key == k

window_of-fail :
    (k : String) (now ttl : ℕ) (rl : RateLimiter) {w : Window}
    → window_of k rl.windows ≡ some w
    → ltb w.reset_at now ≡ false
    → window_of k (fail now k ttl rl).windows ≡ some (record w { count = w.count + 1 })
unfolding fail
window_of-fail k now ttl rl {w} e live =
    let t = normalize_ttl ttl in
    let found = window_of-reap k now t rl e live in
    rw
      (
        window_of-put_window k (failed_window now t (window_of k (reap now t rl).windows))
            (reap now t rl).windows,
        found,
        live,
      )
      refl

window_of-fail_other :
    (k j : String) (now ttl : ℕ) (rl : RateLimiter) {w : Window}
    → (j == k) ≡ false
    → window_of k rl.windows ≡ some w
    → ltb w.reset_at now ≡ false
    → window_of k (fail now j ttl rl).windows ≡ some w
unfolding fail
window_of-fail_other k j now ttl rl {w} n e live =
    let t = normalize_ttl ttl in
    rw
      (
        window_of-put_window_other k j (failed_window now t (window_of j (reap now t rl).windows))
            (reap now t rl).windows n,
        window_of-reap k now t rl e live,
      )
      refl

window_of-fail_all :
    (k : String) (ttl : ℕ) (hits : List Attempt) (rl : RateLimiter) (w : Window)
    → window_of k rl.windows ≡ some w
    → Before w.reset_at hits
    → window_of k (fail_all hits ttl rl).windows
      ≡ some (record w { count = w.count + count_where (of_key k) hits })
unfolding count_where
window_of-fail_all k ttl [] rl w e live = ground arith
window_of-fail_all k ttl ((j, t) ∷ hits) rl w e live = elim (Bool-cases (j == k)) [
  | inl same ↦
      let found : window_of k (fail t j ttl rl).windows ≡ some (record w { count = w.count + 1 }) =
        rw (eq_of_test j k same) (window_of-fail k t ttl rl e live.0) in
      ground (
        arith,
        window_of-fail_all k ttl hits (fail t j ttl rl) (record w { count = w.count + 1 }) found
            live.1,
      )
  | inr other ↦ ground (
    arith,
    window_of-fail_all k ttl hits (fail t j ttl rl) w
        (window_of-fail_other k j t ttl rl other e live.0) live.1,
  )
]

none-fail_all :
    (k : String) (ttl : ℕ) (hits : List Attempt) (rl : RateLimiter)
    → window_of k rl.windows ≡ none
    → any (of_key k) hits ≡ false
    → window_of k (fail_all hits ttl rl).windows ≡ none
unfolding fail any
none-fail_all k ttl [] rl e n = e
none-fail_all k ttl ((j, t) ∷ hits) rl e n =
    let u = normalize_ttl ttl in
    let other : (j == k) ≡ false = ground arith in
    none-fail_all k ttl hits (fail t j ttl rl)
      (rw
        (
          window_of-put_window_other k j (failed_window t u (window_of j (reap t u rl).windows))
              (reap t u rl).windows other,
          none-reap k t u rl e,
        )
        refl)
      (ground arith)

-- The window that a first failure opens.
window_of-fail_fresh :
    (k : String) (now ttl : ℕ) (rl : RateLimiter)
    → window_of k rl.windows ≡ none
    → window_of k (fail now k ttl rl).windows
      ≡ some (record { count = 1; reset_at = now + normalize_ttl ttl })
unfolding fail
window_of-fail_fresh k now ttl rl e =
    let t = normalize_ttl ttl in
    rw
      (
        window_of-put_window k (failed_window now t (window_of k (reap now t rl).windows))
            (reap now t rl).windows,
        none-reap k now t rl e,
      )
      refl

-- Let the key `k` have no window and fail at `t`, and let more attempts `hits`, of any keys, fail up
-- to the end of the window that this opens. Then an attempt of `k` up to that end is allowed
-- exactly if its failures, the first included, are fewer than the (normalised) maximum.
pub allowed-fail_all :
    (k : String) (t now max ttl : ℕ) (hits : List Attempt) (rl : RateLimiter)
    → window_of k rl.windows ≡ none
    → Before (t + normalize_ttl ttl) hits
    → ltb (t + normalize_ttl ttl) now ≡ false
    → (allowed now k max ttl (fail_all ((k, t) ∷ hits) ttl rl)).0
      ≡ ltb (1 + count_where (of_key k) hits) (normalize_max max)
unfolding allowed
allowed-fail_all k t now max ttl hits rl fresh before live =
    let opened : Window = record { count = 1; reset_at = t + normalize_ttl ttl } in
    let found =
      window_of-fail_all k ttl hits (fail t k ttl rl) opened (window_of-fail_fresh k t ttl rl fresh)
        before in
    rw
      (
        window_of-reap k now (normalize_ttl ttl) (fail_all hits ttl (fail t k ttl rl)) found live,
        live,
      )
      refl

-- After a reset of a key and failures of other keys only, the key is allowed at any time.
pub allowed-reset :
    (k : String) (now max ttl : ℕ) (hits : List Attempt) (rl : RateLimiter)
    → any (of_key k) hits ≡ false
    → (allowed now k max ttl (fail_all hits ttl (reset k rl))).0 ≡ true
unfolding allowed reset
allowed-reset k now max ttl hits rl others =
    let gone = none-fail_all k ttl hits (reset k rl) (window_of-drop_window k rl.windows) others in
    rw (none-reap k now (normalize_ttl ttl) (fail_all hits ttl (reset k rl)) gone) refl
