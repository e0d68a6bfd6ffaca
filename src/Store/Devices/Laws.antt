-- ===== src/Store/Devices/Laws.antt =====
-- What dies with a revoked device, and what does not.
use omni_identity.Prelude.{
  ℕ, String, false, not, ◌&&◌, ◌≡◌, ◌≢◌, refl, arith, Bool-cases, ◌⊎◌, inl, inr, any, select_where,
  none-update_where_all, select-update_where, ◌==◌,
}
use omni_identity.Model.{status_is_revoked, is_nil}
use omni_identity.Store.Io.{Db, Io, ok, Stmt}
use omni_identity.Store.RefreshTokens.{revoke}
use omni_identity.Store.Pats.{unrevoked_of_device, revoke_at}
use omni_identity.Store.Devices.{revocable, mark_revoked, bound_to, revoked_with, revoke_device_row}

-- No credential of the device is live; the other devices, the tokens and personal access tokens that
-- are not bound to it, and every other table are as before.
pub record CutOff (id : String) (db db' : Db) : Type 0 where
  pub device : any (λ d. d.id == id && not (status_is_revoked d.status)) db'.devices ≡ false
  pub tokens : any (λ rt. rt.device_id == id && not rt.revoked) db'.refresh_tokens ≡ false
  pub pats : any (λ p. p.device_id == id && is_nil p.revoked_at) db'.pats ≡ false
  pub other_devices :
      select_where (λ d. not (d.id == id)) db'.devices
      ≡ select_where (λ d. not (d.id == id)) db.devices
  pub other_tokens :
      select_where (λ rt. not (rt.device_id == id)) db'.refresh_tokens
      ≡ select_where (λ rt. not (rt.device_id == id)) db.refresh_tokens
  pub other_pats :
      select_where (λ p. not (p.device_id == id)) db'.pats
      ≡ select_where (λ p. not (p.device_id == id)) db.pats
  pub rest :
      db'
      ≡ record db { devices = db'.devices; refresh_tokens = db'.refresh_tokens; pats = db'.pats }

revoked_with-CutOff : (id : String) (now : ℕ) (db : Db) → CutOff id db (revoked_with id now db)
revoked_with-CutOff id now db = record {
  device =
      none-update_where_all (λ d. d.id == id && not (status_is_revoked d.status)) (revocable id)
        (mark_revoked now) db.devices (λ x e. e) (λ x e. ground arith);
  tokens =
      none-update_where_all (λ rt. rt.device_id == id && not rt.revoked) (bound_to id) revoke
        db.refresh_tokens (λ x e. ground arith) (λ x e. ground arith);
  pats =
      none-update_where_all (λ p. p.device_id == id && is_nil p.revoked_at) (unrevoked_of_device id)
        (revoke_at now) db.pats (λ x e. e) (λ x e. ground arith);
  other_devices =
      select-update_where (λ d. not (d.id == id)) (revocable id) (mark_revoked now) db.devices
        (λ x e. ground arith) (λ x e. ground arith);
  other_tokens =
      select-update_where (λ rt. not (rt.device_id == id)) (bound_to id) revoke db.refresh_tokens
        (λ x e. ground arith) (λ x e. ground arith);
  other_pats =
      select-update_where (λ p. not (p.device_id == id)) (unrevoked_of_device id) (revoke_at now)
        db.pats (λ x e. ground arith) (λ x e. ground arith);
  rest = refl;
}

-- A revocation that succeeds leaves no row of the device that is not revoked, and no live refresh
-- token and no unrevoked personal access token bound to it; the other devices, the refresh tokens and
-- personal access tokens that are not bound to it, and all other tables are as they were. One that
-- fails changes nothing.
pub revoke_device_row-CutOff :
    (io : Io) (id : String) (now : ℕ) (db : Db)
    → (((revoke_device_row io id now db).0 ≡ ok tt)
        × CutOff id db (revoke_device_row io id now db).1)
      ⊎ (((revoke_device_row io id now db).0 ≢ ok tt) × ((revoke_device_row io id now db).1 ≡ db))
unfolding revoke_device_row
revoke_device_row-CutOff io id now db = elim (Bool-cases (io.fails Stmt.revoke_device)) [
  | inl bad ↦ rw bad (inr (λ e. cc, refl))
  | inr works ↦ rw works (elim (Bool-cases (any (revocable id) db.devices)) [
    | inr gone ↦ rw gone (inr (λ e. cc, refl))
    | inl there ↦ rw there (inl (refl, revoked_with-CutOff id now db))
  ])
]
