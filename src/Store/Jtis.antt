-- ===== src/Store/Jtis.antt =====
-- internal/store/devices.go, the replay guard device_assertion_jtis.
pub mod Replay
use omni_identity.Prelude.{
  ℕ, String, Bool, true, false, List, ◌∷◌, ◌==◌, ltb, if◌then◌else◌, any, delete_where,
}
use omni_identity.Store.Io.{Db, Io, Jti, Result, ok, err, driver_error, prune_jtis, insert_jti}

abbrev pub stale : ℕ → Jti → Bool
stale now j = ltb j.expires_at now

abbrev insert_fresh : Io → Jti → List Jti → Db → Result Bool × Db
insert_fresh io j rows db =
    if io.fails insert_jti
    then (err driver_error, record db { jtis = rows })
    else if any (λ k. k.jti_hash == j.jti_hash) rows
    then (ok false, record db { jtis = rows })
    else (ok true, record db { jtis = j ∷ rows })

-- Two statements, not one transaction: the pruning stays where the insertion fails.
unfoldable pub consume_jti : Io → String → String → ℕ → Db → Result Bool × Db
consume_jti io h device_id expires_at db =
    if io.fails prune_jtis
    then (err driver_error, db)
    else insert_fresh io (record { jti_hash = h; device_id = device_id; expires_at = expires_at })
        (delete_where (stale io.now) db.jtis) db
