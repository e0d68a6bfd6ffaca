-- ===== src/Store/Users.antt =====
-- internal/store/users.go and users_security.go: accounts. A user name and an email are unique, and
-- so are a directory and its name for the user, where the second is not empty. Rows of other tables
-- that refer to a user go with it (ON DELETE CASCADE).
pub mod Lockout
use omni_identity.Prelude.{
  ℕ, ◌+◌, String, Bool, true, false, not, ◌&&◌, ◌||◌, Option, none, some, List, ◌∷◌, ◌==◌, ltb, leb,
  if◌then◌else◌, find, any, count_where, update_where, delete_where,
}
use omni_identity.Model.{User, PersonalAccessToken, is_local, is_nil}
use omni_identity.Store.Io.{
  Db, Io, Result, ok, err, StoreError, not_found, driver_error, row_of, changed, Stmt,
}

abbrev pub with_id : String → User → Bool
with_id id u = u.id == id

-- The unique keys of the table: a row that clashes with `u`.
abbrev pub clashes : User → User → Bool
clashes u v =
    v.id == u.id
    || v.username == u.username
    || v.email == u.email
    || (not (u.external_id == "")
        && v.auth_source == u.auth_source
        && v.external_id == u.external_id)
    || (not (u.web_authn_handle == "") && v.web_authn_handle == u.web_authn_handle)

abbrev pub sourced : User → User
sourced u = record u { auth_source = if u.auth_source == "" then "local" else u.auth_source }

-- The user is given back with its source, which the source sets in place.
unfoldable pub create_user : Io → User → Db → Result User × Db
create_user io u db =
    if io.fails Stmt.create_user || any (clashes (sourced u)) db.users
    then (err driver_error, db)
    else (ok (sourced u), record db { users = sourced u ∷ db.users })

unfoldable pub get_user_by_username : Io → String → Db → Result User
get_user_by_username io name db =
    if io.fails Stmt.get_user_by_name
    then err driver_error
    else row_of (find (λ u. u.username == name) db.users)

unfoldable pub get_user_by_external_id : Io → String → String → Db → Result User
get_user_by_external_id io source external_id db =
    if io.fails Stmt.get_user_by_external
    then err driver_error
    else row_of (find (λ u. u.auth_source == source && u.external_id == external_id) db.users)

-- An UPDATE of the row with this id, which requireRow checks.
abbrev write_row : Bool → String → (User → User) → Db → Result (Unit {0}) × Db
write_row failed id f db =
    if failed
    then (err driver_error, db)
    else (changed (any (with_id id) db.users)
        (record db { users = update_where (with_id id) f db.users }) db)

-- Does another row hold this email?
abbrev pub email_taken : String → String → Db → Bool
email_taken id email db = any (λ u. not (u.id == id) && u.email == email) db.users

unfoldable pub update_user : Io → User → Db → Result (Unit {0}) × Db
update_user io u db =
    write_row
      (io.fails Stmt.update_user || (any (with_id u.id) db.users && email_taken u.id u.email db))
      u.id
      (λ v. record v {
        email = u.email;
        is_admin = u.is_admin;
        disabled = u.disabled;
        updated_at = io.now;
      })
      db

unfoldable pub set_user_password : Io → String → String → Db → Result (Unit {0}) × Db
set_user_password io id password_hash db =
    write_row (io.fails Stmt.set_user_password) id
      (λ u. record u { password_hash = password_hash; updated_at = io.now }) db

unfoldable pub set_user_mfa : Io → String → Bool → String → Db → Result (Unit {0}) × Db
set_user_mfa io id enabled enc_secret db =
    write_row (io.fails Stmt.set_user_mfa) id
      (λ u. record u { mfa_enabled = enabled; totp_secret = enc_secret; updated_at = io.now }) db

unfoldable pub link_user_to_external : Io → String → String → String → Db → Result (Unit {0}) × Db
link_user_to_external io id source external_id db =
    write_row
      (io.fails Stmt.update_user
        || (any (with_id id) db.users
            && not (external_id == "")
            && any
                (λ u. not (u.id == id) && u.auth_source == source && u.external_id == external_id)
                db.users))
      id
      (λ u. record u {
        auth_source = source;
        external_id = external_id;
        password_hash = "";
        updated_at = io.now;
      })
      db

abbrev live_of_user : String → PersonalAccessToken → Bool
live_of_user id p = p.user_id == id && is_nil p.revoked_at

abbrev revoked_pats : Io → String → Bool → Db → Db
revoked_pats io id disabled db =
    if disabled
    then record db {
      pats = update_where (live_of_user id) (λ p. record p { revoked_at = some io.now }) db.pats;
    }
    else db

-- The tokens are revoked by a statement of its own: where that one fails the account stays disabled.
unfoldable pub set_user_disabled : Io → String → Bool → Db → Result (Unit {0}) × Db
set_user_disabled io id disabled db =
    let written : Db = record db {
      users =
          update_where (with_id id) (λ u. record u { disabled = disabled; updated_at = io.now })
            db.users;
    } in
    if io.fails Stmt.set_user_disabled
    then (err driver_error, db)
    else if disabled && io.fails Stmt.revoke_pat
    then (err driver_error, written)
    else (
      (if any (with_id id) db.users then ok tt else err not_found),
      revoked_pats io id disabled written,
    )

abbrev without_user : String → Db → Db
without_user id db = record db {
  users = delete_where (with_id id) db.users;
  sessions = delete_where (λ s. s.user_id == id) db.sessions;
  recovery_codes = delete_where (λ c. c.user_id == id) db.recovery_codes;
  login_challenges = delete_where (λ c. c.user_id == id) db.login_challenges;
  password_tokens = delete_where (λ t. t.user_id == id) db.password_tokens;
  devices = delete_where (λ d. d.owner_user_id == id) db.devices;
}

unfoldable pub delete_user : Io → String → Db → Result (Unit {0}) × Db
delete_user io id db =
    let cleared : Db = record db { pats = delete_where (λ p. p.user_id == id) db.pats } in
    if io.fails Stmt.revoke_pat
    then (err driver_error, db)
    else if io.fails Stmt.delete_user
    then (err driver_error, cleared)
    else changed (any (with_id id) db.users) (without_user id cleared) cleared

unfoldable pub count_admins : Io → Db → Result ℕ
count_admins io db =
    if io.fails Stmt.count_admins
    then err driver_error
    else ok (count_where (λ u. u.is_admin && not u.disabled) db.users)

abbrev pub failed_once : ℕ → ℕ → ℕ → User → User
failed_once now threshold lock_until u = record u {
  failed_login_count = u.failed_login_count + 1;
  locked_until = if leb threshold (u.failed_login_count + 1) then lock_until else u.locked_until;
  updated_at = now;
}

abbrev count_of : Bool → Option User → Result ℕ
count_of true o = err driver_error
count_of false none = err driver_error
count_of false (some u) = ok u.failed_login_count

-- The UPDATE, then the SELECT of the new count, whose failure leaves the count raised.
unfoldable pub record_failed_login : Io → String → ℕ → ℕ → Db → Result ℕ × Db
record_failed_login io id threshold lock_until db =
    let rows = update_where (with_id id) (failed_once io.now threshold lock_until) db.users in
    if io.fails Stmt.record_failed
    then (err driver_error, db)
    else (count_of (io.fails Stmt.read_failed) (find (with_id id) rows), record db { users = rows })

unfoldable pub reset_failed_logins : Io → String → Db → Db
reset_failed_logins io id db = if io.fails Stmt.reset_failed then db else record db {
  users =
      update_where (with_id id)
        (λ u. record u { failed_login_count = 0; locked_until = 0; updated_at = io.now }) db.users;
}

-- The profile of a user that a directory has accepted.
pub record Profile : Type 0 where
  pub source : String
  pub external_id : String
  pub username : String
  pub email : String
  pub is_admin : Bool

abbrev pub refreshed : Io → Profile → User → User
refreshed io p u = record u { email = p.email; is_admin = p.is_admin; updated_at = io.now }

abbrev pub refresh_external : Io → Profile → User → Db → Result User × Db
refresh_external io p u db =
    if io.fails Stmt.update_user || email_taken u.id p.email db then (err driver_error, db) else (
      ok (refreshed io p u),
      record db { users = update_where (with_id u.id) (refreshed io p) db.users },
    )

abbrev pub external_user : Io → String → Profile → User
external_user io id p = record {
  id = id;
  username = p.username;
  email = p.email;
  password_hash = "";
  is_admin = p.is_admin;
  disabled = false;
  auth_source = p.source;
  external_id = p.external_id;
  failed_login_count = 0;
  locked_until = 0;
  mfa_enabled = false;
  totp_secret = "";
  web_authn_handle = "";
  created_at = io.now;
  updated_at = io.now;
}

abbrev pub shadows_local : Result User → Bool
shadows_local (ok u) = is_local u
shadows_local (err e) = false

abbrev pub insert_external : Io → String → Profile → Db → Result User × Db
insert_external io id p db =
    if shadows_local (get_user_by_username io p.username db)
    then (err driver_error, db)
    else create_user io (external_user io id p) db

abbrev pub upsert_found : Io → String → Profile → Result User → Db → Result User × Db
upsert_found io id p (ok u) db = refresh_external io p u db
upsert_found io id p (err not_found) db = insert_external io id p db
upsert_found io id p (err driver_error) db = (err driver_error, db)

-- A directory's name for the user decides which row is refreshed. `id` is the id of a new row.
unfoldable pub upsert_external_user : Io → String → Profile → Db → Result User × Db
upsert_external_user io id p db =
    upsert_found io id p (get_user_by_external_id io p.source p.external_id db) db
