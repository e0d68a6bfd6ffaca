-- ===== src/Store/Users/Lockout.antt =====
-- The counter of failed logins and the lock that it sets.
use omni_identity.Prelude.{
  ℕ, ◌+◌, String, Bool, true, false, some, List, [], ◌∷◌, ◌≡◌, refl, ◌∙◌, arith, leb, ltb,
  if◌then◌else◌, find, find-update_where, Bool-cases, inl, inr, length,
}
use omni_identity.Model.{User, is_locked}
use omni_identity.Store.Io.{Db, Io, Stmt}
use omni_identity.Store.Users.{with_id, failed_once, record_failed_login}

-- Failed logins of one account at these times, the last one first, each of which locks it for `d` once
-- the count has reached the threshold.
abbrev pub Attempts : Type 0
Attempts = List ℕ

module _ (fails : Stmt → Bool) (id : String) (threshold d : ℕ) where
  abbrev at_time : ℕ → Io
  at_time t = record { now = t; fails = fails }

  unfoldable pub fail_logins : Attempts → Db → Db
  fail_logins [] db = db
  fail_logins (t ∷ ts) db =
      (record_failed_login (at_time t) id threshold (t + d) (fail_logins ts db)).1

  abbrev pub locked_after : User → Attempts → ℕ
  locked_after u [] = u.locked_until
  locked_after u (t ∷ ts) =
      if leb threshold (u.failed_login_count + length (t ∷ ts)) then t + d else locked_after u ts

  -- The account after the failures.
  pub record FailedAfter (u : User) (ts : Attempts) (u' : User) : Type 0 where
    pub count : u'.failed_login_count ≡ u.failed_login_count + length ts
    pub lock : u'.locked_until ≡ locked_after u ts
    pub password : u'.password_hash ≡ u.password_hash

  abbrev Stored : User → Attempts → Db → Type 0
  Stored u ts db = (u' : User) × (find (with_id id) db.users ≡ some u') × FailedAfter u ts u'

  locks :
      (u u' : User) (t : ℕ) (ts : Attempts)
      → u'.failed_login_count ≡ u.failed_login_count + length ts
      → u'.locked_until ≡ locked_after u ts
      → (failed_once t threshold (t + d) u').locked_until ≡ locked_after u (t ∷ ts)
  locks u u' t ts count lock =
      let next : u'.failed_login_count + 1 ≡ u.failed_login_count + length (t ∷ ts) =
        ground arith in
      rw (next, lock) refl

  one_more :
      (u : User) (t : ℕ) (ts : Attempts) (db : Db)
      → fails Stmt.record_failed ≡ false
      → Stored u ts db
      → Stored u (t ∷ ts) (record_failed_login (at_time t) id threshold (t + d) db).1
  unfolding record_failed_login
  one_more u t ts db works (u', found, after) = rw works (
    failed_once t threshold (t + d) u',
    rw (find-update_where (with_id id) (failed_once t threshold (t + d)) db.users (λ x e. e), found)
        refl,
    record {
      count = ground (arith, after.count);
      lock = locks u u' t ts after.count after.lock;
      password = after.password;
    },
  )

  fail_logins-Stored :
      (u : User) (ts : Attempts) (db : Db)
      → fails Stmt.record_failed ≡ false
      → find (with_id id) db.users ≡ some u
      → Stored u ts (fail_logins ts db)
  unfolding fail_logins
  fail_logins-Stored u [] db works found =
      (u, found, record { count = ground arith; lock = refl; password = refl })
  fail_logins-Stored u (t ∷ ts) db works found =
      one_more u t ts (fail_logins ts db) works (fail_logins-Stored u ts db works found)

  -- Below the threshold the lock is as it was.
  locked_after-below :
      (u : User) (ts : Attempts)
      → leb threshold (u.failed_login_count + length ts) ≡ false
      → locked_after u ts ≡ u.locked_until
  locked_after-below u [] h = refl
  locked_after-below u (t ∷ ts) h = rw h (locked_after-below u ts (ground arith))

  locked_after-reached :
      (u : User) (t : ℕ) (ts : Attempts)
      → leb threshold (u.failed_login_count + length (t ∷ ts)) ≡ true
      → locked_after u (t ∷ ts) ≡ t + d
  locked_after-reached u t ts h = rw h refl

  is_locked-after :
      (u u' : User) (t : ℕ) (ts : Attempts) (now : ℕ)
      → u'.locked_until ≡ locked_after u (t ∷ ts)
      → u.locked_until ≡ 0
      → ltb now (t + d) ≡ true
      → is_locked u' now ≡ leb threshold (u.failed_login_count + length (t ∷ ts))
  unfolding is_locked
  is_locked-after u u' t ts now lock free soon =
      elim (Bool-cases (leb threshold (u.failed_login_count + length (t ∷ ts)))) [
        | inl reached ↦
            let until : u'.locked_until ≡ t + d = lock ∙ locked_after-reached u t ts reached in
            ground arith
        | inr below ↦
            let until : u'.locked_until ≡ 0 = lock ∙ (locked_after-below u (t ∷ ts) below ∙ free) in
            ground arith
      ]

-- After failed logins of an unlocked account, none of them lost, its count has grown by their number,
-- and until the duration has passed since the last one the account is locked exactly if the count has
-- reached the threshold.
pub fail_logins-is_locked :
    (fails : Stmt → Bool) (id : String) (threshold d now t : ℕ) (ts : Attempts) (u : User) (db : Db)
    → fails Stmt.record_failed ≡ false
    → find (with_id id) db.users ≡ some u
    → u.locked_until ≡ 0
    → ltb now (t + d) ≡ true
    → (u' : User) × (find (with_id id) (fail_logins fails id threshold d (t ∷ ts) db).users
        ≡ some u')
      × (u'.failed_login_count ≡ u.failed_login_count + length (t ∷ ts))
      × (is_locked u' now ≡ leb threshold (u.failed_login_count + length (t ∷ ts)))
fail_logins-is_locked fails id threshold d now t ts u db works found free soon =
    let (u', there, after) = fail_logins-Stored fails id threshold d u (t ∷ ts) db works found in
    (
      u',
      there,
      after.count,
      is_locked-after fails id threshold d u u' t ts now after.lock free soon,
    )
