-- ===== src/Store/RefreshTokens.antt =====
-- internal/store/refresh_tokens.go: refresh tokens and their rotation.
pub mod Spent
use omni_identity.Prelude.{
  String, Bool, true, false, not, ◌&&◌, ◌||◌, Option, none, some, List, ◌∷◌, ◌==◌, if◌then◌else◌,
  find, any, update_where,
}
use omni_identity.Model.{RefreshToken}
use omni_identity.Store.Io.{
  Db, Io, Result, ok, err, driver_error, row_of, create_refresh, rotate_refresh, get_refresh,
  revoke_refresh, revoke_refresh_pair,
}

-- `id` is the primary key and `token_hash` is unique.
abbrev pub clashes : RefreshToken → List RefreshToken → Bool
clashes rt rows = any (λ r. r.id == rt.id || r.token_hash == rt.token_hash) rows

unfoldable pub create_refresh_token : Io → RefreshToken → Db → Result (Unit {0}) × Db
create_refresh_token io rt db =
    if io.fails create_refresh || clashes rt db.refresh_tokens
    then (err driver_error, db)
    else (ok tt, record db { refresh_tokens = rt ∷ db.refresh_tokens })

abbrev pub revoke : RefreshToken → RefreshToken
revoke rt = record rt { revoked = true }

abbrev pub live_with_id : String → RefreshToken → Bool
live_with_id id rt = rt.id == id && not rt.revoked

abbrev insert_replacement : Option RefreshToken → List RefreshToken → Db → Result Bool × Db
insert_replacement none rows db = (ok true, record db { refresh_tokens = rows })
insert_replacement (some rt) rows db =
    if clashes rt rows
    then (err driver_error, db)
    else (ok true, record db { refresh_tokens = rt ∷ rows })

-- One transaction: the presented token is revoked only if it was live, and the replacement is
-- inserted; `ok false` says that it was not.
unfoldable pub rotate_refresh_token : Io → String → Option RefreshToken → Db → Result Bool × Db
rotate_refresh_token io id new db =
    if io.fails rotate_refresh
    then (err driver_error, db)
    else if any (live_with_id id) db.refresh_tokens
    then insert_replacement new (update_where (live_with_id id) revoke db.refresh_tokens) db
    else (ok false, db)

unfoldable pub get_refresh_token_by_hash : Io → String → Db → Result RefreshToken
get_refresh_token_by_hash io h db =
    if io.fails get_refresh
    then err driver_error
    else row_of (find (λ rt. rt.token_hash == h) db.refresh_tokens)

abbrev revoke_rows : (RefreshToken → Bool) → Db → Db
revoke_rows p db = record db { refresh_tokens = update_where p revoke db.refresh_tokens }

unfoldable pub revoke_refresh_token : Io → String → Db → Db
revoke_refresh_token io id db =
    if io.fails revoke_refresh then db else revoke_rows (λ rt. rt.id == id) db

abbrev pub of_pair : String → String → RefreshToken → Bool
of_pair user_id client_id rt = rt.user_id == user_id && rt.client_id == client_id

unfoldable pub revoke_refresh_tokens_for_user_client : Io → String → String → Db → Db
revoke_refresh_tokens_for_user_client io user_id client_id db =
    if io.fails revoke_refresh_pair then db else revoke_rows (of_pair user_id client_id) db
