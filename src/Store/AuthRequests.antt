-- ===== src/Store/AuthRequests.antt =====
-- internal/store/auth_requests.go: authorization requests parked across the hosted login.
use omni_identity.Prelude.{
  ℕ, String, Bool, ◌||◌, Option, none, some, ◌∷◌, ◌==◌, ltb, if◌then◌else◌, find, any, count_where,
  delete_where,
}
use omni_identity.Model.{AuthRequest}
use omni_identity.Store.Io.{
  Db, Io, Result, ok, err, not_found, driver_error, create_request, get_request, delete_request,
  delete_requests,
}

unfoldable pub create_auth_request : Io → AuthRequest → Db → Result (Unit {0}) × Db
create_auth_request io a db =
    if io.fails create_request || any (λ b. b.id == a.id) db.auth_requests
    then (err driver_error, db)
    else (ok tt, record db { auth_requests = a ∷ db.auth_requests })

abbrev pub unexpired : ℕ → Option AuthRequest → Result AuthRequest
unexpired now none = err not_found
unexpired now (some a) = if ltb a.expires_at now then err not_found else ok a

unfoldable pub get_auth_request : Io → String → Db → Result AuthRequest
get_auth_request io id db =
    if io.fails get_request
    then err driver_error
    else unexpired io.now (find (λ a. a.id == id) db.auth_requests)

unfoldable pub delete_auth_request : Io → String → Db → Db
delete_auth_request io id db =
    if io.fails delete_request
    then db
    else record db { auth_requests = delete_where (λ a. a.id == id) db.auth_requests }

abbrev expired : ℕ → AuthRequest → Bool
expired now a = ltb a.expires_at now

-- The time is the clock's, not an argument.
unfoldable pub delete_expired_auth_requests : Io → Db → Result ℕ × Db
delete_expired_auth_requests io db = if io.fails delete_requests then (err driver_error, db) else (
  ok (count_where (expired io.now) db.auth_requests),
  record db { auth_requests = delete_where (expired io.now) db.auth_requests },
)
