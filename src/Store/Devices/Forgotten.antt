-- ===== src/Store/Devices/Forgotten.antt =====
-- How long a device's key is remembered: a table row keeps the current and the previous one.
use omni_identity.Prelude.{
  String, false, not, ◌&&◌, List, [], ◌∷◌, ◌≡◌, ◌≢◌, refl, arith, ◌==◌, eq_iff, Bool-cases, inl,
  inr, any, update_where, count_where-any,
}
use omni_identity.Model.{Device}
use omni_identity.Store.Io.{Db, Io, ok, Stmt}
use omni_identity.Store.Devices.{
  names_key, active_with_id, with_key, with_backend, rotate_device_key, fingerprint_in_use,
}

-- The key that a rotation installs.
pub record NewKey : Type 0 where
  pub public_key : String
  pub alg : String
  pub fingerprint : String
  pub key_backend : String
  pub trust : String

abbrev pub install : NewKey → Device → Device
install k d = with_backend k.key_backend k.trust (with_key k.public_key k.alg k.fingerprint d)

abbrev pub rotate_to : Io → String → NewKey → Db → Db
rotate_to io id k db =
    (rotate_device_key io id k.public_key k.alg k.fingerprint k.key_backend k.trust db).1

abbrev pub Rotates : Io → String → NewKey → Db → Type 0
Rotates io id k db =
    (rotate_device_key io id k.public_key k.alg k.fingerprint k.key_backend k.trust db).0 ≡ ok tt

rotate_to-devices :
    (io : Io) (id : String) (k : NewKey) (db : Db)
    → Rotates io id k db
    → (rotate_to io id k db).devices ≡ update_where (active_with_id id) (install k) db.devices
unfolding rotate_device_key
rotate_to-devices io id k db h = ground (arith, h)

install_fields :
    (k : NewKey) (d : Device)
    → ((install k d).id ≡ d.id)
      × ((install k d).status ≡ d.status)
      × ((install k d).fingerprint ≡ k.fingerprint)
      × ((install k d).previous_fingerprint ≡ d.fingerprint)
install_fields k d = elim (Bool-cases (k.key_backend == "")) [
  | inl e ↦ rw e (refl, refl, refl, refl)
  | inr e ↦ rw e (refl, refl, refl, refl)
]

-- A key that is neither of the two installed last is not named by the row.
names_key-install_twice :
    (fp : String) (k2 k3 : NewKey) (d : Device)
    → (k2.fingerprint == fp) ≡ false
    → (k3.fingerprint == fp) ≡ false
    → names_key fp (install k3 (install k2 d)) ≡ false
names_key-install_twice fp k2 k3 d n2 n3 =
    let a = install_fields k2 d in
    let b = install_fields k3 (install k2 d) in rw (b.2, b.3, a.2, n3, n2) refl

active-install :
    (id : String) (k : NewKey) (d : Device) → active_with_id id (install k d) ≡ active_with_id id d
active-install id k d = let a = install_fields k d in rw (a.0, a.1) refl

-- The one row that may name the key is the one that both rotations write.
rotated_out :
    (fp id : String) (k2 k3 : NewKey) (xs : List Device)
    → (k2.fingerprint == fp) ≡ false
    → (k3.fingerprint == fp) ≡ false
    → any (λ d. names_key fp d && not (active_with_id id d)) xs ≡ false
    → any (names_key fp) (
        update_where
          (active_with_id id)
          (install k3)
          (update_where (active_with_id id) (install k2) xs))
      ≡ false
unfolding any update_where
rotated_out fp id k2 k3 [] n2 n3 h = refl
rotated_out fp id k2 k3 (d ∷ xs) n2 n3 h = elim (Bool-cases (active_with_id id d)) [
  | inl e ↦
      rw (e, active-install id k2 d, e, names_key-install_twice fp k2 k3 d n2 n3)
        (rotated_out fp id k2 k3 xs n2 n3 (ground arith))
  | inr e ↦
      let t : names_key fp d ≡ false = ground arith in
      rw (e, e, t) (rotated_out fp id k2 k3 xs n2 n3 (ground arith))
]

-- Let only the active device `id` name the key `fp`, as its current or its previous one. After two
-- successful rotations of that device to other keys, and where the count succeeds,
-- `fingerprint_in_use` answers that `fp` is not in use: a key is remembered for one rotation.
pub rotated_key-forgotten :
    (io : Io) (fp id : String) (k2 k3 : NewKey) (db : Db)
    → any (λ d. names_key fp d && not (active_with_id id d)) db.devices ≡ false
    → k2.fingerprint ≢ fp
    → k3.fingerprint ≢ fp
    → Rotates io id k2 db
    → Rotates io id k3 (rotate_to io id k2 db)
    → io.fails Stmt.fingerprint_count ≡ false
    → fingerprint_in_use io fp (rotate_to io id k3 (rotate_to io id k2 db)) ≡ ok false
unfolding fingerprint_in_use
rotated_key-forgotten io fp id k2 k3 db h n2 n3 r2 r3 works =
    let db2 = rotate_to io id k2 db in
    rw
      (
        works,
        rotate_to-devices io id k3 db2 r3,
        rotate_to-devices io id k2 db r2,
        count_where-any (names_key fp) (
            update_where (active_with_id id) (install k3)
              (update_where (active_with_id id) (install k2) db.devices)),
        rotated_out fp id k2 k3 db.devices (ground (arith, eq_iff k2.fingerprint fp))
            (ground (arith, eq_iff k3.fingerprint fp)) h,
      )
      refl
