-- ===== src/Store/Pats.antt =====
-- internal/store/personal_access_tokens.go.
use omni_identity.Prelude.{
  ℕ, String, Bool, not, ◌&&◌, ◌||◌, some, List, ◌∷◌, map, ◌==◌, ltb, if◌then◌else◌, any,
  update_where, select_where,
}
use omni_identity.Model.{PersonalAccessToken, is_nil}
use omni_identity.Store.Io.{Db, Io, Result, ok, err, driver_error, create_pat, revoke_pat}

unfoldable pub create_pat_row : Io → PersonalAccessToken → Db → Result (Unit {0}) × Db
create_pat_row io p db =
    if io.fails create_pat || any (λ q. q.id == p.id) db.pats
    then (err driver_error, db)
    else (ok tt, record db { pats = p ∷ db.pats })

abbrev pub unrevoked_of_device : String → PersonalAccessToken → Bool
unrevoked_of_device device_id p = p.device_id == device_id && is_nil p.revoked_at

abbrev pub revoke_at : ℕ → PersonalAccessToken → PersonalAccessToken
revoke_at now p = record p { revoked_at = some now }

abbrev own_unrevoked : String → String → PersonalAccessToken → Bool
own_unrevoked id device_id p = p.id == id && unrevoked_of_device device_id p

unfoldable pub revoke_pat_for_device : Io → String → String → Db → Result Bool × Db
revoke_pat_for_device io id device_id db = if io.fails revoke_pat then (err driver_error, db) else (
  ok (any (own_unrevoked id device_id) db.pats),
  record db { pats = update_where (own_unrevoked id device_id) (revoke_at io.now) db.pats },
)

unfoldable pub list_active_pats_for_device : Io → String → Db → List PersonalAccessToken
list_active_pats_for_device io device_id db =
    select_where (λ p. unrevoked_of_device device_id p && ltb io.now p.expires_at) db.pats

-- The revoked tokens that a resource server must still reject.
unfoldable pub revoked_pat_jtis : Io → Db → List String
revoked_pat_jtis io db =
    map (λ p. p.id)
      (select_where (λ p. not (is_nil p.revoked_at) && ltb io.now p.expires_at) db.pats)
