-- ===== src/Store/Devices.antt =====
-- internal/store/devices.go, the devices table.
pub mod Laws
pub mod Forgotten
use omni_identity.Prelude.{
  ℕ, String, Bool, true, false, not, ◌&&◌, ◌||◌, Option, none, some, List, ◌∷◌, ◌==◌, ltb,
  if◌then◌else◌, find, any, count_where, update_where, delete_where, select_where,
}
use omni_identity.Model.{
  Device, DeviceStatus, status_is_active, status_is_pending, status_is_revoked, RefreshToken,
}
use omni_identity.Store.Io.{
  Db, Io, Result, ok, err, not_found, driver_error, row_of, changed, create_device, set_posture,
  get_device, fingerprint_count, touch_device, revoke_device, delete_device, rotate_key,
  approve_device, set_owner_only,
}
use omni_identity.Store.RefreshTokens.{revoke}
use omni_identity.Store.Pats.{unrevoked_of_device, revoke_at}

-- `id` is the primary key, `fingerprint` is unique and `owner_user_id` refers to a user.
unfoldable pub create_device_row : Io → Device → Db → Result (Unit {0}) × Db
create_device_row io dev db =
    if io.fails create_device
      || any (λ d. d.id == dev.id || d.fingerprint == dev.fingerprint) db.devices
      || not (any (λ u. u.id == dev.owner_user_id) db.users)
    then (err driver_error, db)
    else (ok tt, record db { devices = dev ∷ db.devices })

abbrev with_id : String → Device → Bool
with_id id d = d.id == id

abbrev set_devices : (Device → Bool) → (Device → Device) → Db → Db
set_devices p f db = record db { devices = update_where p f db.devices }

-- UPDATE … WHERE p, with `requireRow` on the result.
abbrev update_devices : (Device → Bool) → (Device → Device) → Db → Result (Unit {0}) × Db
update_devices p f db = changed (any p db.devices) (set_devices p f db) db

unfoldable pub set_device_posture : Io → String → String → ℕ → String → String → Db → Db
set_device_posture io id posture now key_backend trust db =
    if io.fails set_posture
    then db
    else if key_backend == ""
    then set_devices (with_id id) (λ d. record d { posture = posture; posture_at = now }) db
    else set_devices (with_id id)
        (λ d. record d {
          posture = posture;
          posture_at = now;
          key_backend = key_backend;
          trust_level = trust;
        })
        db

unfoldable pub get_device_row : Io → String → Db → Result Device
get_device_row io id db =
    if io.fails get_device then err driver_error else row_of (find (with_id id) db.devices)

abbrev pub names_key : String → Device → Bool
names_key fp d = d.fingerprint == fp || d.previous_fingerprint == fp

unfoldable pub fingerprint_in_use : Io → String → Db → Result Bool
fingerprint_in_use io fp db =
    if io.fails fingerprint_count
    then err driver_error
    else ok (ltb 0 (count_where (names_key fp) db.devices))

unfoldable pub list_devices_for_user : String → Db → List Device
list_devices_for_user user_id db = select_where (λ d. d.owner_user_id == user_id) db.devices

unfoldable pub count_active_devices : Db → ℕ
count_active_devices db = count_where (λ d. status_is_active d.status) db.devices

unfoldable pub touch_device_row : Io → String → ℕ → Db → Db
touch_device_row io id now db =
    if io.fails touch_device
    then db
    else set_devices (with_id id) (λ d. record d { last_seen_at = now }) db

abbrev pub revocable : String → Device → Bool
revocable id d = d.id == id && not (status_is_revoked d.status)

abbrev pub mark_revoked : ℕ → Device → Device
mark_revoked now d = record d { status = DeviceStatus.revoked; revoked_at = now }

abbrev pub bound_to : String → RefreshToken → Bool
bound_to id rt = rt.device_id == id

-- One transaction over three tables.
abbrev revoked_with : String → ℕ → Db → Db
revoked_with id now db = record db {
  devices = update_where (revocable id) (mark_revoked now) db.devices;
  refresh_tokens = update_where (bound_to id) revoke db.refresh_tokens;
  pats = update_where (unrevoked_of_device id) (revoke_at now) db.pats;
}

unfoldable pub revoke_device_row : Io → String → ℕ → Db → Result (Unit {0}) × Db
revoke_device_row io id now db =
    if io.fails revoke_device
    then (err driver_error, db)
    else changed (any (revocable id) db.devices) (revoked_with id now db) db

abbrev deletable : String → Device → Bool
deletable id d = d.id == id && status_is_revoked d.status

unfoldable pub delete_device_row : Io → String → Db → Result (Unit {0}) × Db
delete_device_row io id db =
    if io.fails delete_device
    then (err driver_error, db)
    else changed (any (deletable id) db.devices)
        (record db { devices = delete_where (deletable id) db.devices }) db

abbrev pub active_with_id : String → Device → Bool
active_with_id id d = d.id == id && status_is_active d.status

abbrev pub with_key : String → String → String → Device → Device
with_key public_key alg fp d = record d {
  previous_fingerprint = d.fingerprint;
  public_key = public_key;
  public_key_algorithm = alg;
  fingerprint = fp;
}

abbrev pub with_backend : String → String → Device → Device
with_backend key_backend trust d =
    if key_backend == "" then d else record d { key_backend = key_backend; trust_level = trust }

-- The new fingerprint may be that of the device itself, and of no other.
unfoldable pub rotate_device_key :
    Io → String → String → String → String → String → String → Db → Result (Unit {0}) × Db
rotate_device_key io id public_key alg fp key_backend trust db =
    if io.fails rotate_key
      || (any (active_with_id id) db.devices
          && any (λ d. d.fingerprint == fp && not (d.id == id)) db.devices)
    then (err driver_error, db)
    else update_devices (active_with_id id)
        (λ d. with_backend key_backend trust (with_key public_key alg fp d)) db

unfoldable pub approve_device_row : Io → String → ℕ → Db → Result (Unit {0}) × Db
approve_device_row io id now db =
    if io.fails approve_device
    then (err driver_error, db)
    else update_devices (λ d. d.id == id && status_is_pending d.status)
        (λ d. record d { status = DeviceStatus.active; enrolled_at = now }) db

unfoldable pub set_device_owner_only : Io → String → String → Bool → Db → Result (Unit {0}) × Db
set_device_owner_only io id owner_id owner_only db =
    if io.fails set_owner_only
    then (err driver_error, db)
    else update_devices (λ d. d.id == id && d.owner_user_id == owner_id)
        (λ d. record d { owner_only = owner_only }) db
