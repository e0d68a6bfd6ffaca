-- ===== src/Store/AuthCodes/Dead.antt =====
-- A code that is used up stays so, whatever is done to the table.
use omni_identity.Prelude.{
  ℕ, String, Bool, true, false, not, ◌&&◌, ◌||◌, Option, none, some, List, [], ◌∷◌, ◌≡◌, ◌≢◌, arith,
  ◌==◌, Bool-cases, inl, inr, any, find, update_where, ltb, none-update_where,
  none-update_where_all, none-delete_where,
}
use omni_identity.Model.{AuthorizationCode}
use omni_identity.Store.Io.{Db, Io, Stmt}
use omni_identity.Store.AuthCodes.{
  has_hash, mark_used, consume_found, create_auth_code, consume_auth_code,
  delete_expired_auth_codes, expired_code,
}

-- The operations of the program on the table.
pub data CodeOp : Type 0 where
  create : Io → AuthorizationCode → CodeOp
  consume : Io → String → CodeOp
  sweep : Io → ℕ → CodeOp

abbrev pub apply : CodeOp → Db → Db
apply (create io c) db = (create_auth_code io c db).1
apply (consume io h) db = (consume_auth_code io h db).1
apply (sweep io now) db = (delete_expired_auth_codes io now db).1

abbrev pub run : List CodeOp → Db → Db
run [] db = db
run (op ∷ ops) db = run ops (apply op db)

-- A code of another hash: codes are random and never drawn again.
abbrev pub Spares : String → CodeOp → Type 0
Spares h (create io c) = (c.code_hash == h) ≡ false
Spares h _ = Unit

abbrev pub AllSpare : String → List CodeOp → Type 0
AllSpare h [] = Unit
AllSpare h (op ∷ ops) = Spares h op × AllSpare h ops

abbrev pub fresh : String → AuthorizationCode → Bool
fresh h c = c.code_hash == h && not c.used

-- No row of the code is unused.
abbrev pub Dead : String → List AuthorizationCode → Type 0
Dead h rows = any (fresh h) rows ≡ false

consume_found-Dead :
    (io : Io) (h key : String) (o : Option AuthorizationCode) (db : Db)
    → Dead h db.auth_codes
    → Dead h (consume_found io key o db).1.auth_codes
unfolding consume_found
consume_found-Dead io h key none db dead = dead
consume_found-Dead io h key (some c) db dead =
    elim (Bool-cases (c.used || ltb c.expires_at io.now)) [
      | inl bad ↦ rw bad dead
      | inr fine ↦ rw fine (
          none-update_where (fresh h) (has_hash key) mark_used db.auth_codes (λ x e. ground arith)
            dead)
    ]

consume-Dead :
    (io : Io) (h key : String) (db : Db)
    → Dead h db.auth_codes
    → Dead h (consume_auth_code io key db).1.auth_codes
unfolding consume_auth_code
consume-Dead io h key db dead = elim (Bool-cases (io.fails Stmt.consume_code)) [
  | inl bad ↦ rw bad dead
  | inr works ↦ rw works (consume_found-Dead io h key (find (has_hash key) db.auth_codes) db dead)
]

sweep-Dead :
    (io : Io) (h : String) (now : ℕ) (db : Db)
    → Dead h db.auth_codes
    → Dead h (delete_expired_auth_codes io now db).1.auth_codes
unfolding delete_expired_auth_codes
sweep-Dead io h now db dead = elim (Bool-cases (io.fails Stmt.delete_codes)) [
  | inl bad ↦ rw bad dead
  | inr works ↦ rw works (none-delete_where (fresh h) (expired_code now) db.auth_codes dead)
]

apply-Dead :
    (h : String) (op : CodeOp) (db : Db)
    → Spares h op
    → Dead h db.auth_codes
    → Dead h (apply op db).auth_codes
unfolding create_auth_code any
apply-Dead h (create io c) db spares dead = ground (arith, spares)
apply-Dead h (consume io key) db spares dead = consume-Dead io h key db dead
apply-Dead h (sweep io now) db spares dead = sweep-Dead io h now db dead

pub run-Dead :
    (h : String) (ops : List CodeOp) (db : Db)
    → AllSpare h ops
    → Dead h db.auth_codes
    → Dead h (run ops db).auth_codes
run-Dead h [] db spares dead = dead
run-Dead h (op ∷ ops) db spares dead =
    run-Dead h ops (apply op db) spares.1 (apply-Dead h op db spares.0 dead)

-- A redemption that succeeds leaves the code dead.
pub marked-Dead :
    (h : String) (rows : List AuthorizationCode) → Dead h (update_where (has_hash h) mark_used rows)
marked-Dead h rows =
    none-update_where_all (fresh h) (has_hash h) mark_used rows (λ x e. ground arith)
      (λ x e. ground arith)

-- The row that is read for a dead code is used.
pub Dead-found :
    (h : String) (rows : List AuthorizationCode) {c : AuthorizationCode}
    → Dead h rows
    → find (has_hash h) rows ≡ some c
    → c.used ≢ false
unfolding any find
Dead-found h [] dead found unused = absurd (cc)
Dead-found h (x ∷ xs) {c} dead found unused = elim (Bool-cases (has_hash h x)) [
  | inl here ↦
      let same : x ≡ c = some_inj (rw here at found) in clash (rw (here, same, unused) at dead)
  | inr other ↦ Dead-found h xs {c = c} (rw other at dead) (rw other at found) unused
]
  where
    some_inj : {a b : AuthorizationCode} → some a ≡ some b → a ≡ b
    some_inj h = cc

    clash : true ≡ false → ⊥
    clash h = cc
