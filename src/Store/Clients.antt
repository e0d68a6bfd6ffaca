-- ===== src/Store/Clients.antt =====
-- internal/store/clients.go and users.go: the lookups of clients and users, and the audit log of
-- internal/store/audit.go.
use omni_identity.Prelude.{String, ◌∷◌, ◌==◌, if◌then◌else◌, find}
use omni_identity.Model.{User, Client, AuditEvent}
use omni_identity.Store.Io.{
  Db, Io, Result, err, driver_error, row_of, get_user, get_client, append_audit,
}

unfoldable pub get_client_row : Io → String → Db → Result Client
get_client_row io id db =
    if io.fails get_client
    then err driver_error
    else row_of (find (λ c. c.client_id == id) db.clients)

unfoldable pub get_user_by_id : Io → String → Db → Result User
get_user_by_id io id db =
    if io.fails get_user then err driver_error else row_of (find (λ u. u.id == id) db.users)

unfoldable pub append_audit_event : Io → AuditEvent → Db → Db
append_audit_event io ev db =
    if io.fails append_audit then db else record db { audit_log = ev ∷ db.audit_log }
