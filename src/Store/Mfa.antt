-- ===== src/Store/Mfa.antt =====
-- internal/store/mfa.go: recovery codes and the challenges that wait for a second factor.
pub mod Rows
pub mod CodeSet
use omni_identity.Prelude.{
  ℕ, String, Bool, true, false, not, ◌&&◌, ◌||◌, Option, none, some, List, [], ◌∷◌, ◌==◌, ltb,
  if◌then◌else◌, find, any, count_where, update_where, delete_where,
}
use omni_identity.Model.{LoginChallenge, RecoveryCode}
use omni_identity.Store.Io.{Db, Io, Result, ok, err, not_found, driver_error, Stmt}

abbrev pub of_user : String → RecoveryCode → Bool
of_user user_id c = c.user_id == user_id

abbrev pub unused_code : String → String → RecoveryCode → Bool
unused_code user_id h c = c.user_id == user_id && c.code_hash == h && not c.used

-- The INSERTs of a transaction, each with the primary key checked: none where one fails.
unfoldable pub insert_codes :
    String → List RecoveryCode → List RecoveryCode → Option (List RecoveryCode)
insert_codes user_id [] rows = some rows
insert_codes user_id (c ∷ codes) rows =
    let rest = insert_codes user_id codes (record c { user_id = user_id; used = false } ∷ rows) in
    if any (λ r. r.id == c.id) rows then none else rest

abbrev pub committed : Db → Option (List RecoveryCode) → Result (Unit {0}) × Db
committed db none = (err driver_error, db)
committed db (some rows) = (ok tt, record db { recovery_codes = rows })

abbrev no_codes : List RecoveryCode → Bool
no_codes [] = true
no_codes (c ∷ codes) = false

unfoldable pub replace_recovery_codes :
    Io → String → List RecoveryCode → Db → Result (Unit {0}) × Db
replace_recovery_codes io user_id codes db =
    if io.fails Stmt.replace_recovery
      || (not (no_codes codes) && not (any (λ u. u.id == user_id) db.users))
    then (err driver_error, db)
    else committed db
        (insert_codes user_id codes (delete_where (of_user user_id) db.recovery_codes))

abbrev pub spend : RecoveryCode → RecoveryCode
spend c = record c { used = true }

unfoldable pub consume_recovery_code : Io → String → String → Db → Result Bool × Db
consume_recovery_code io user_id h db =
    if io.fails Stmt.consume_recovery then (err driver_error, db) else (
      ok (any (unused_code user_id h) db.recovery_codes),
      record db { recovery_codes = update_where (unused_code user_id h) spend db.recovery_codes },
    )

unfoldable pub count_recovery_codes : Io → String → Db → Result ℕ
count_recovery_codes io user_id db =
    if io.fails Stmt.count_recovery
    then err driver_error
    else ok (count_where (λ c. c.user_id == user_id && not c.used) db.recovery_codes)

unfoldable pub delete_recovery_codes : Io → String → Db → Result (Unit {0}) × Db
delete_recovery_codes io user_id db =
    if io.fails Stmt.delete_recovery
    then (err driver_error, db)
    else (ok tt, record db { recovery_codes = delete_where (of_user user_id) db.recovery_codes })

unfoldable pub create_login_challenge : Io → LoginChallenge → Db → Result (Unit {0}) × Db
create_login_challenge io c db =
    if io.fails Stmt.create_challenge
      || any (λ d. d.id == c.id) db.login_challenges
      || not (any (λ u. u.id == c.user_id) db.users)
    then (err driver_error, db)
    else (ok tt, record db { login_challenges = c ∷ db.login_challenges })

abbrev pub unexpired : ℕ → Option LoginChallenge → Result LoginChallenge
unexpired now none = err not_found
unexpired now (some c) = if ltb c.expires_at now then err not_found else ok c

unfoldable pub get_login_challenge : Io → String → Db → Result LoginChallenge
get_login_challenge io id db =
    if io.fails Stmt.get_challenge
    then err driver_error
    else unexpired io.now (find (λ c. c.id == id) db.login_challenges)

unfoldable pub delete_login_challenge : Io → String → Db → Db
delete_login_challenge io id db =
    if io.fails Stmt.delete_challenge
    then db
    else record db { login_challenges = delete_where (λ c. c.id == id) db.login_challenges }
