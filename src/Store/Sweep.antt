-- ===== src/Store/Sweep.antt =====
-- internal/store/sweep.go: the periodic deletion of expired rows.
pub mod Laws
use omni_identity.Prelude.{
  ℕ, String, List, [], ◌∷◌, ◌++◌, ltb, if◌then◌else◌, count_where, delete_where,
}
use omni_identity.Store.Io.{
  Db, Io, Result, ok, err, StoreError, driver_error, delete_challenges, delete_password_tokens,
  delete_ceremonies, delete_jtis,
}
use omni_identity.Store.Sessions.{delete_expired_sessions}
use omni_identity.Store.AuthCodes.{delete_expired_auth_codes}
use omni_identity.Store.AuthRequests.{delete_expired_auth_requests}
use omni_identity.Store.DeviceCodes.{delete_expired_device_codes}
use omni_identity.Store.Jtis.{stale}

abbrev Step : Type 0
Step = Db → Result ℕ × Db

-- deleteExpiredRows at login_challenges, password_tokens and device_assertion_jtis, and
-- DeleteExpiredWebAuthnCeremonies.
unfoldable pub delete_expired_challenges : Io → ℕ → Step
delete_expired_challenges io now db =
    if io.fails delete_challenges then (err driver_error, db) else (
      ok (count_where (λ c. ltb c.expires_at now) db.login_challenges),
      record db { login_challenges = delete_where (λ c. ltb c.expires_at now) db.login_challenges },
    )

unfoldable pub delete_expired_password_tokens : Io → ℕ → Step
delete_expired_password_tokens io now db =
    if io.fails delete_password_tokens then (err driver_error, db) else (
      ok (count_where (λ c. ltb c.expires_at now) db.password_tokens),
      record db { password_tokens = delete_where (λ c. ltb c.expires_at now) db.password_tokens },
    )

unfoldable pub delete_expired_ceremonies : Io → ℕ → Step
delete_expired_ceremonies io now db =
    if io.fails delete_ceremonies then (err driver_error, db) else (
      ok (count_where (λ c. ltb c.expires_at now) db.ceremonies),
      record db { ceremonies = delete_where (λ c. ltb c.expires_at now) db.ceremonies },
    )

unfoldable pub delete_expired_jtis : Io → ℕ → Step
delete_expired_jtis io now db = if io.fails delete_jtis then (err driver_error, db) else (
  ok (count_where (stale now) db.jtis),
  record db { jtis = delete_where (stale now) db.jtis },
)

abbrev Counts : Type 0
Counts = List (String × ℕ)

pub data Swept : Type 0 where
  swept : Counts → Swept
  stopped : Counts → StoreError → Swept

-- The loop over the steps: it stops at the first error, with the counts so far.
unfoldable pub run_steps : List (String × Step) → Counts → Db → Swept × Db
run_steps [] counts db = (swept counts, db)
run_steps ((name, f) ∷ steps) counts db =
    let (r, db') = f db in
    elim r [
      | ok n ↦ run_steps steps (counts ++ (name, n) ∷ []) db'
      | err e ↦ (stopped counts e, db')
    ]

abbrev pub sweep_steps : Io → ℕ → List (String × Step)
sweep_steps io now =
    ("sessions", delete_expired_sessions io now)
    ∷ ("authorization_codes", delete_expired_auth_codes io now)
    ∷ ("auth_requests", delete_expired_auth_requests io)
    ∷ ("login_challenges", delete_expired_challenges io now)
    ∷ ("password_tokens", delete_expired_password_tokens io now)
    ∷ ("device_codes", delete_expired_device_codes io now)
    ∷ ("webauthn_ceremonies", delete_expired_ceremonies io now)
    ∷ ("device_assertion_jtis", delete_expired_jtis io now)
    ∷ []

unfoldable pub sweep_expired : Io → ℕ → Db → Swept × Db
sweep_expired io now db = run_steps (sweep_steps io now) [] db
