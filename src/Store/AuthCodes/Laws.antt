-- ===== src/Store/AuthCodes/Laws.antt =====
-- What an authorization code is good for: one redemption, before its expiry.
use omni_identity.Prelude.{
  Bool-cases, ◌≢◌, ◌≤◌, String, false, ◌||◌, Option, none, some, List, ◌≡◌, refl, arith, ltb, find,
  update_where, inl, inr, find-update_where,
}
use omni_identity.Model.{AuthorizationCode}
use omni_identity.Store.Io.{Db, Io, ok, Stmt}
use omni_identity.Store.AuthCodes.{has_hash, mark_used, consume_found, consume_auth_code}

-- The row of a code.
abbrev pub code_row : String → Db → Option AuthorizationCode
code_row h db = find (has_hash h) db.auth_codes

pub code_row-mark_used :
    (h : String) (xs : List AuthorizationCode) {c : AuthorizationCode}
    → find (has_hash h) xs ≡ some c
    → find (has_hash h) (update_where (has_hash h) mark_used xs) ≡ some (mark_used c)
code_row-mark_used h xs e = rw (find-update_where (has_hash h) mark_used xs (λ x p. p), e)

-- A redemption that succeeds found the code unused and in time, and leaves it used.
pub record Consumed (io : Io) (h : String) (db : Db) (code : AuthorizationCode) (db' : Db)
    : Type 0 where
  pub stored : AuthorizationCode
  pub found : code_row h db ≡ some stored
  pub unused : stored.used ≡ false
  pub in_time : io.now ≤ stored.expires_at
  pub same : code ≡ mark_used stored
  pub burnt : code_row h db' ≡ some (mark_used stored)
  pub rows : db'.auth_codes ≡ update_where (has_hash h) mark_used db.auth_codes

consume_found-Consumed :
    (io : Io) (h : String) (o : Option AuthorizationCode) (db : Db) {code : AuthorizationCode}
    → code_row h db ≡ o
    → (consume_found io h o db).0 ≡ ok code
    → Consumed io h db code (consume_found io h o db).1
unfolding consume_found
consume_found-Consumed io h none db e r = absurd (cc)
consume_found-Consumed io h (some c) db e r =
    elim (Bool-cases (c.used || ltb c.expires_at io.now)) [
      | inl dead ↦ absurd (ground arith)
      | inr live ↦ rw live (record {
        stored = c;
        found = e;
        unused = ground arith;
        in_time = ground arith;
        same = ground arith;
        burnt = code_row-mark_used h db.auth_codes e;
        rows = refl;
      })
    ]

pub consume_auth_code-Consumed :
    (io : Io) (h : String) (db : Db) {code : AuthorizationCode}
    → (consume_auth_code io h db).0 ≡ ok code
    → Consumed io h db code (consume_auth_code io h db).1
unfolding consume_auth_code
consume_auth_code-Consumed io h db r = elim (Bool-cases (io.fails Stmt.consume_code)) [
  | inl broken ↦ absurd (ground arith)
  | inr works ↦ rw works (consume_found-Consumed io h _ db refl (ground arith))
]

-- A code that is marked used is refused, whoever presents it.
pub consume_auth_code_used :
    (io : Io) (h : String) (db : Db) (c : AuthorizationCode)
    → code_row h db ≡ some (mark_used c)
    → (code : AuthorizationCode) → (consume_auth_code io h db).0 ≢ ok code
consume_auth_code_used io h db c e code r =
    let k = consume_auth_code-Consumed io h db r in cc (k.found, k.unused, e)
