-- ===== src/Store/AuthCodes.antt =====
-- internal/store/auth_codes.go: authorization codes.
pub mod Laws
pub mod Dead
use omni_identity.Prelude.{
  ℕ, String, Bool, true, ◌||◌, Option, none, some, List, ◌∷◌, ◌==◌, ltb, if◌then◌else◌, find, any,
  update_where, delete_where, count_where,
}
use omni_identity.Model.{AuthorizationCode}
use omni_identity.Store.Io.{
  Db, Io, Result, ok, err, not_found, driver_error, create_code, consume_code, delete_codes,
}

abbrev pub has_hash : String → AuthorizationCode → Bool
has_hash h c = c.code_hash == h

-- `code_hash` is the primary key.
unfoldable pub create_auth_code : Io → AuthorizationCode → Db → Result (Unit {0}) × Db
create_auth_code io c db =
    if io.fails create_code || any (has_hash c.code_hash) db.auth_codes
    then (err driver_error, db)
    else (ok tt, record db { auth_codes = c ∷ db.auth_codes })

abbrev pub mark_used : AuthorizationCode → AuthorizationCode
mark_used c = record c { used = true }

consume_found : Io → String → Option AuthorizationCode → Db → Result AuthorizationCode × Db
consume_found io h none db = (err not_found, db)
consume_found io h (some c) db =
    if c.used || ltb c.expires_at io.now then (err not_found, db) else (
      ok (mark_used c),
      record db { auth_codes = update_where (has_hash h) mark_used db.auth_codes },
    )

unfoldable pub consume_auth_code : Io → String → Db → Result AuthorizationCode × Db
unfolding consume_found
consume_auth_code io h db =
    if io.fails consume_code
    then (err driver_error, db)
    else consume_found io h (find (has_hash h) db.auth_codes) db

abbrev pub expired_code : ℕ → AuthorizationCode → Bool
expired_code now c = ltb c.expires_at now

unfoldable pub delete_expired_auth_codes : Io → ℕ → Db → Result ℕ × Db
delete_expired_auth_codes io now db = if io.fails delete_codes then (err driver_error, db) else (
  ok (count_where (expired_code now) db.auth_codes),
  record db { auth_codes = delete_where (expired_code now) db.auth_codes },
)
