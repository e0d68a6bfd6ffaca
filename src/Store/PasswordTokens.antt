-- ===== src/Store/PasswordTokens.antt =====
-- internal/store/password_tokens.go: the tokens that activate an account or reset its password.
pub mod Once
use omni_identity.Prelude.{
  ℕ, String, Bool, true, false, not, ◌&&◌, ◌||◌, Option, none, some, ◌∷◌, ◌==◌, ltb, if◌then◌else◌,
  find, any, update_where, delete_where,
}
use omni_identity.Model.{PasswordToken}
use omni_identity.Store.Io.{Db, Io, Result, ok, err, not_found, driver_error, Stmt}

abbrev pub of_hash : String → PasswordToken → Bool
of_hash h t = t.token_hash == h

-- A token refers to a user that is stored.
unfoldable pub create_password_token : Io → PasswordToken → Db → Result (Unit {0}) × Db
create_password_token io t db =
    if io.fails Stmt.create_password_token
      || any (λ u. u.id == t.id || u.token_hash == t.token_hash) db.password_tokens
      || not (any (λ u. u.id == t.user_id) db.users)
    then (err driver_error, db)
    else (ok tt, record db { password_tokens = record t { used = false } ∷ db.password_tokens })

abbrev pub usable : String → ℕ → PasswordToken → Bool
usable h now t = t.token_hash == h && not t.used && ltb now t.expires_at

abbrev pub spend : PasswordToken → PasswordToken
spend t = record t { used = true }

abbrev pub read_back : Bool → Option PasswordToken → Result (Option PasswordToken)
read_back true o = err driver_error
read_back false none = err driver_error
read_back false (some t) = ok (some t)

-- The UPDATE, then a SELECT of its own, whose failure leaves the token spent; none where no row is
-- usable.
unfoldable pub consume_password_token : Io → String → Db → Result (Option PasswordToken) × Db
consume_password_token io h db =
    let rows = update_where (usable h io.now) spend db.password_tokens in
    if io.fails Stmt.consume_password_token
    then (err driver_error, db)
    else if any (usable h io.now) db.password_tokens
    then (
      read_back (io.fails Stmt.read_password_token) (find (of_hash h) rows),
      record db { password_tokens = rows },
    )
    else (ok none, db)

-- Any error reads as a row that is not there.
abbrev pub or_not_found : Option PasswordToken → Result PasswordToken
or_not_found none = err not_found
or_not_found (some t) = ok t

unfoldable pub get_valid_password_token : Io → String → Db → Result PasswordToken
get_valid_password_token io h db =
    if io.fails Stmt.get_password_token
    then err not_found
    else or_not_found (find (usable h io.now) db.password_tokens)

unfoldable pub delete_password_tokens_for_user : Io → String → Db → Db
delete_password_tokens_for_user io user_id db =
    if io.fails Stmt.delete_user_password_tokens
    then db
    else record db { password_tokens = delete_where (λ t. t.user_id == user_id) db.password_tokens }
