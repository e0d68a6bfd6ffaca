-- ===== src/Store/Jtis/Replay.antt =====
-- The replay guard: a hash that was consumed is refused until its row expires.
use omni_identity.Prelude.{
  ℕ, ◌≤◌, String, Bool, true, not, ◌&&◌, List, [], ◌∷◌, ◌≡◌, ◌≢◌, arith, ◌==◌, eq_iff, ltb, any,
  delete_where,
}
use omni_identity.Store.Io.{Db, Io, Jti, Result, ok}
use omni_identity.Store.Sweep.{delete_expired_jtis}
use omni_identity.Store.Jtis.{stale, consume_jti}

-- A later use of the guard: any assertion of any device.
pub record Use : Type 0 where
  pub io : Io
  pub hash : String
  pub device_id : String
  pub expires_at : ℕ

abbrev pub use_once : Use → Db → Result Bool × Db
use_once u db = consume_jti u.io u.hash u.device_id u.expires_at db

-- What changes the table: a use, or the sweeper.
pub data GuardOp : Type 0 where
  consume : Use → GuardOp
  sweep : Io → ℕ → GuardOp

abbrev pub apply : GuardOp → Db → Db
apply (consume u) db = (use_once u db).1
apply (sweep io now) db = (delete_expired_jtis io now db).1

abbrev pub use_all : List GuardOp → Db → Db
use_all [] db = db
use_all (op ∷ ops) db = use_all ops (apply op db)

abbrev pub op_time : GuardOp → ℕ
op_time (consume u) = u.io.now
op_time (sweep io now) = now

-- All of them before the time `t` is over.
abbrev pub By : ℕ → List GuardOp → Type 0
By t [] = Unit
By t (op ∷ ops) = (op_time op ≤ t) × By t ops

-- A row of the hash that lasts until `t`.
abbrev pub kept : String → ℕ → Jti → Bool
kept h t j = j.jti_hash == h && not (ltb j.expires_at t)

any-delete_stale :
    (h : String) (t now : ℕ) (xs : List Jti)
    → now ≤ t
    → any (kept h t) xs ≡ true
    → any (kept h t) (delete_where (stale now) xs) ≡ true
unfolding any delete_where
any-delete_stale h t now [] le p = cc
any-delete_stale h t now (j ∷ xs) le p = ground (arith, any-delete_stale h t now xs le)

any-kept :
    (h : String) (t : ℕ) (xs : List Jti)
    → any (kept h t) xs ≡ true
    → any (λ j. j.jti_hash == h) xs ≡ true
unfolding any
any-kept h t [] p = cc
any-kept h t (j ∷ xs) p = ground (arith, any-kept h t xs)

abbrev Guarded : String → ℕ → Db → Type 0
Guarded h t db = any (kept h t) db.jtis ≡ true

use_once-Guarded :
    (h : String) (t : ℕ) (u : Use) (db : Db)
    → u.io.now ≤ t
    → Guarded h t db
    → Guarded h t (use_once u db).1
unfolding consume_jti any
use_once-Guarded h t u db le g = ground (arith, any-delete_stale h t u.io.now db.jtis le g)

apply-Guarded :
    (h : String) (t : ℕ) (op : GuardOp) (db : Db)
    → op_time op ≤ t
    → Guarded h t db
    → Guarded h t (apply op db)
unfolding delete_expired_jtis
apply-Guarded h t (consume u) db le g = use_once-Guarded h t u db le g
apply-Guarded h t (sweep io now) db le g = ground (arith, any-delete_stale h t now db.jtis le g)

use_all-Guarded :
    (h : String) (t : ℕ) (ops : List GuardOp) (db : Db)
    → By t ops
    → Guarded h t db
    → Guarded h t (use_all ops db)
use_all-Guarded h t [] db le g = g
use_all-Guarded h t (op ∷ ops) db le g =
    use_all-Guarded h t ops (apply op db) le.1 (apply-Guarded h t op db le.0 g)

-- The row that a first use leaves.
use_once-leaves :
    (u : Use) (db : Db)
    → (use_once u db).0 ≡ ok true
    → Guarded u.hash u.expires_at (use_once u db).1
unfolding consume_jti any
use_once-leaves u db r = ground (arith, eq_iff u.hash u.hash)

refused :
    (u : Use) (t : ℕ) (db : Db) → u.io.now ≤ t → Guarded u.hash t db → (use_once u db).0 ≢ ok true
unfolding consume_jti
refused u t db le g r = ground (
  arith,
  any-kept u.hash t (delete_where (stale u.io.now) db.jtis)
      (any-delete_stale u.hash t u.io.now db.jtis le g),
)

-- After a use of the guard that was accepted, and any later uses of it by anyone and sweeps of its
-- table, at times up to the expiry of the first, whatever fails in them, a use of the same hash up
-- to that expiry is not accepted.
pub consume_jti_once :
    (first : Use) (us : List GuardOp) (again : Use) (db : Db)
    → (use_once first db).0 ≡ ok true
    → By first.expires_at us
    → again.io.now ≤ first.expires_at
    → again.hash ≡ first.hash
    → (use_once again (use_all us (use_once first db).1)).0 ≢ ok true
consume_jti_once first us again db r le now_le same =
    let g =
      use_all-Guarded first.hash first.expires_at us (use_once first db).1 le
        (use_once-leaves first db r) in
    refused again first.expires_at (use_all us (use_once first db).1) now_le (rw same g)
