-- ===== src/Store/Sessions.antt =====
-- internal/store/sessions.go: browser sessions.
use omni_identity.Prelude.{
  ℕ, String, Bool, not, ◌&&◌, ◌||◌, Option, none, some, List, ◌∷◌, ◌==◌, ltb, if◌then◌else◌, find,
  any, count_where, update_where, delete_where, select_where,
}
use omni_identity.Model.{Session}
use omni_identity.Store.Io.{
  Db, Io, Result, ok, err, not_found, driver_error, create_session, touch_session, get_session,
  delete_session, delete_sessions,
}

unfoldable pub create_session_row : Io → Session → Db → Result (Unit {0}) × Db
create_session_row io s db =
    if io.fails create_session
      || any (λ t. t.id == s.id) db.sessions
      || not (any (λ u. u.id == s.user_id) db.users)
    then (err driver_error, db)
    else (ok tt, record db { sessions = s ∷ db.sessions })

unfoldable pub touch_session_row : Io → String → ℕ → Db → Db
touch_session_row io id now db = if io.fails touch_session then db else record db {
  sessions = update_where (λ s. s.id == id) (λ s. record s { last_seen_at = now }) db.sessions;
}

unfoldable pub list_sessions_for_user : Io → String → Db → List Session
list_sessions_for_user io user_id db =
    select_where (λ s. s.user_id == user_id && ltb io.now s.expires_at) db.sessions

abbrev others_of : String → String → Session → Bool
others_of user_id keep_id s = s.user_id == user_id && not (s.id == keep_id)

unfoldable pub delete_sessions_for_user : Io → String → String → Db → Result ℕ × Db
delete_sessions_for_user io user_id keep_id db =
    if io.fails delete_sessions then (err driver_error, db) else (
      ok (count_where (others_of user_id keep_id) db.sessions),
      record db { sessions = delete_where (others_of user_id keep_id) db.sessions },
    )

unfoldable pub count_active_sessions : Io → Db → ℕ
count_active_sessions io db = count_where (λ s. ltb io.now s.expires_at) db.sessions

abbrev pub unexpired : ℕ → Option Session → Result Session
unexpired now none = err not_found
unexpired now (some s) = if ltb s.expires_at now then err not_found else ok s

unfoldable pub get_session_row : Io → String → Db → Result Session
get_session_row io id db =
    if io.fails get_session
    then err driver_error
    else unexpired io.now (find (λ s. s.id == id) db.sessions)

unfoldable pub delete_session_row : Io → String → Db → Db
delete_session_row io id db =
    if io.fails delete_session
    then db
    else record db { sessions = delete_where (λ s. s.id == id) db.sessions }

abbrev expired : ℕ → Session → Bool
expired now s = ltb s.expires_at now

unfoldable pub delete_expired_sessions : Io → ℕ → Db → Result ℕ × Db
delete_expired_sessions io now db = if io.fails delete_sessions then (err driver_error, db) else (
  ok (count_where (expired now) db.sessions),
  record db { sessions = delete_where (expired now) db.sessions },
)
