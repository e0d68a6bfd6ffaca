-- ===== src/Store/DeviceCodes.antt =====
-- internal/store/devices.go, the device_codes table of RFC 8628 grants.
pub mod Laws
pub mod Closed
use omni_identity.Prelude.{
  ℕ, String, Bool, true, not, ◌&&◌, ◌||◌, Option, none, some, List, ◌∷◌, ◌==◌, ltb, if◌then◌else◌,
  find, any, count_where, update_where, delete_where,
}
use omni_identity.Model.{DeviceCode, DeviceCodeStatus, code_is_pending, code_is_approved}
use omni_identity.Store.Io.{
  Db, Io, Result, ok, err, not_found, driver_error, row_of, changed, create_device_code,
  get_device_code, approve_code, deny_code, consume_device_code, poll_code, delete_device_codes,
}

-- `id` is the primary key; `device_code_hash` and `user_code` are unique.
unfoldable pub create_device_code_row : Io → DeviceCode → Db → Result (Unit {0}) × Db
create_device_code_row io c db =
    if io.fails create_device_code
      || any
          (λ d.
            d.id == c.id || d.device_code_hash == c.device_code_hash || d.user_code == c.user_code)
          db.device_codes
    then (err driver_error, db)
    else (ok tt, record db { device_codes = c ∷ db.device_codes })

unfoldable pub get_device_code_by_hash : Io → String → Db → Result DeviceCode
get_device_code_by_hash io h db =
    if io.fails get_device_code
    then err driver_error
    else row_of (find (λ c. c.device_code_hash == h) db.device_codes)

abbrev pub open_code : ℕ → Option DeviceCode → Result DeviceCode
open_code now none = err not_found
open_code now (some c) =
    if not (code_is_pending c.status) || ltb c.expires_at now then err not_found else ok c

unfoldable pub get_pending_device_code_by_user_code : Io → String → Db → Result DeviceCode
get_pending_device_code_by_user_code io user_code db =
    if io.fails get_device_code
    then err driver_error
    else open_code io.now (find (λ c. c.user_code == user_code) db.device_codes)

abbrev pub pending_with_id : String → DeviceCode → Bool
pending_with_id id c = c.id == id && code_is_pending c.status

abbrev pub approved_with_id : String → DeviceCode → Bool
approved_with_id id c = c.id == id && code_is_approved c.status

abbrev set_codes : (DeviceCode → Bool) → (DeviceCode → DeviceCode) → Db → Db
set_codes p f db = record db { device_codes = update_where p f db.device_codes }

abbrev pub approve_by : String → String → ℕ → DeviceCode → DeviceCode
approve_by user_id amr auth_time c = record c {
  status = DeviceCodeStatus.approved;
  user_id = user_id;
  amr = amr;
  auth_time = auth_time;
}

unfoldable pub approve_device_code : Io → String → String → String → ℕ → Db → Result (Unit {0}) × Db
approve_device_code io id user_id amr auth_time db =
    if io.fails approve_code
    then (err driver_error, db)
    else changed (any (pending_with_id id) db.device_codes)
        (set_codes (pending_with_id id) (approve_by user_id amr auth_time) db) db

abbrev pub deny : DeviceCode → DeviceCode
deny c = record c { status = DeviceCodeStatus.denied }

unfoldable pub deny_device_code : Io → String → Db → Result (Unit {0}) × Db
deny_device_code io id db =
    if io.fails deny_code
    then (err driver_error, db)
    else changed (any (pending_with_id id) db.device_codes) (set_codes (pending_with_id id) deny db)
        db

abbrev pub consume : DeviceCode → DeviceCode
consume c = record c { status = DeviceCodeStatus.consumed }

-- The result says whether a row was affected; `id` is a key, so at most one is.
unfoldable pub consume_device_code_row : Io → String → Db → Result Bool × Db
consume_device_code_row io id db =
    if io.fails consume_device_code then (err driver_error, db) else (
      ok (any (approved_with_id id) db.device_codes),
      set_codes (approved_with_id id) consume db,
    )

unfoldable pub mark_device_code_polled : Io → String → ℕ → Db → Db
mark_device_code_polled io id now db =
    if io.fails poll_code
    then db
    else set_codes (λ c. c.id == id) (λ c. record c { last_polled_at = now }) db

abbrev pub expired : ℕ → DeviceCode → Bool
expired now c = ltb c.expires_at now

unfoldable pub delete_expired_device_codes : Io → ℕ → Db → Result ℕ × Db
delete_expired_device_codes io now db =
    if io.fails delete_device_codes then (err driver_error, db) else (
      ok (count_where (expired now) db.device_codes),
      record db { device_codes = delete_where (expired now) db.device_codes },
    )
