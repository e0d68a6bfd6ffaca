-- ===== src/Store/Sweep/Laws.antt =====
-- What a sweep deletes.
use mathlib.Core.Path.{subst}
use omni_identity.Prelude.{
  ℕ, String, List, [], ◌∷◌, ◌++◌, ◌≡◌, refl, sym, ◌∙◌, arith, ltb, delete_where,
}
use omni_identity.Store.Io.{Db, Io, Result, ok, err}
use omni_identity.Store.Sessions.{delete_expired_sessions}
use omni_identity.Store.AuthCodes.{delete_expired_auth_codes}
use omni_identity.Store.AuthRequests.{delete_expired_auth_requests}
use omni_identity.Store.DeviceCodes.{delete_expired_device_codes}
use omni_identity.Store.Sweep.{
  Step, Counts, Swept, swept, run_steps, sweep_steps, sweep_expired, delete_expired_challenges,
  delete_expired_password_tokens, delete_expired_ceremonies, delete_expired_jtis,
}

-- One step that ends well, and the rest of the run.
run_steps-swept :
    (name : String) (f : Step) (steps : List (String × Step)) (counts counts' : Counts) (db : Db)
    → (run_steps ((name, f) ∷ steps) counts db).0 ≡ swept counts'
    → (n : ℕ) × ((f db).0 ≡ ok n)
      × (run_steps ((name, f) ∷ steps) counts db
          ≡ run_steps steps (counts ++ (name, n) ∷ []) (f db).1)
unfolding run_steps
run_steps-swept name f steps counts counts' db h = by_result (f db).0 refl
  where
    by_result :
        (r : Result ℕ)
        → (f db).0 ≡ r
        → (n : ℕ) × ((f db).0 ≡ ok n)
          × (run_steps ((name, f) ∷ steps) counts db
              ≡ run_steps steps (counts ++ (name, n) ∷ []) (f db).1)
    by_result (ok n) e = (n, e, rw e refl)
    by_result (err x) e = absurd (cc (rw (run_steps, e) at h))

-- The tables without the rows that expired before `now`; parked requests go by the clock.
abbrev pub without_expired : ℕ → ℕ → Db → Db
without_expired clock now db = record db {
  sessions = delete_where (λ x. ltb x.expires_at now) db.sessions;
  auth_codes = delete_where (λ x. ltb x.expires_at now) db.auth_codes;
  auth_requests = delete_where (λ x. ltb x.expires_at clock) db.auth_requests;
  login_challenges = delete_where (λ x. ltb x.expires_at now) db.login_challenges;
  password_tokens = delete_where (λ x. ltb x.expires_at now) db.password_tokens;
  device_codes = delete_where (λ x. ltb x.expires_at now) db.device_codes;
  ceremonies = delete_where (λ x. ltb x.expires_at now) db.ceremonies;
  jtis = delete_where (λ x. ltb x.expires_at now) db.jtis;
}

module _ (io : Io) (now : ℕ) (db : Db) {n : ℕ} where
  sessions_swept :
      (delete_expired_sessions io now db).0 ≡ ok n
      → (delete_expired_sessions io now db).1
        ≡ record db { sessions = delete_where (λ x. ltb x.expires_at now) db.sessions }
  unfolding delete_expired_sessions
  sessions_swept h = ground arith

  auth_codes_swept :
      (delete_expired_auth_codes io now db).0 ≡ ok n
      → (delete_expired_auth_codes io now db).1
        ≡ record db { auth_codes = delete_where (λ x. ltb x.expires_at now) db.auth_codes }
  unfolding delete_expired_auth_codes
  auth_codes_swept h = ground arith

  auth_requests_swept :
      (delete_expired_auth_requests io db).0 ≡ ok n
      → (delete_expired_auth_requests io db).1
        ≡ record db { auth_requests = delete_where (λ x. ltb x.expires_at io.now) db.auth_requests }
  unfolding delete_expired_auth_requests
  auth_requests_swept h = ground arith

  challenges_swept :
      (delete_expired_challenges io now db).0 ≡ ok n
      → (delete_expired_challenges io now db).1 ≡ record db {
        login_challenges = delete_where (λ x. ltb x.expires_at now) db.login_challenges;
      }
  unfolding delete_expired_challenges
  challenges_swept h = ground arith

  password_tokens_swept :
      (delete_expired_password_tokens io now db).0 ≡ ok n
      → (delete_expired_password_tokens io now db).1 ≡ record db {
        password_tokens = delete_where (λ x. ltb x.expires_at now) db.password_tokens;
      }
  unfolding delete_expired_password_tokens
  password_tokens_swept h = ground arith

  device_codes_swept :
      (delete_expired_device_codes io now db).0 ≡ ok n
      → (delete_expired_device_codes io now db).1
        ≡ record db { device_codes = delete_where (λ x. ltb x.expires_at now) db.device_codes }
  unfolding delete_expired_device_codes
  device_codes_swept h = ground arith

  ceremonies_swept :
      (delete_expired_ceremonies io now db).0 ≡ ok n
      → (delete_expired_ceremonies io now db).1
        ≡ record db { ceremonies = delete_where (λ x. ltb x.expires_at now) db.ceremonies }
  unfolding delete_expired_ceremonies
  ceremonies_swept h = ground arith

  jtis_swept :
      (delete_expired_jtis io now db).0 ≡ ok n
      → (delete_expired_jtis io now db).1
        ≡ record db { jtis = delete_where (λ x. ltb x.expires_at now) db.jtis }
  unfolding delete_expired_jtis
  jtis_swept h = ground arith

-- Every step ends well, one after the other.
abbrev Ends : List (String × Step) → Db → Db → Type 0
Ends [] db db' = db ≡ db'
Ends ((name, f) ∷ steps) db db' = (n : ℕ) × ((f db).0 ≡ ok n) × Ends steps (f db).1 db'

run_steps-Ends :
    (steps : List (String × Step)) (counts counts' : Counts) (db : Db)
    → (run_steps steps counts db).0 ≡ swept counts'
    → Ends steps db (run_steps steps counts db).1
unfolding run_steps
run_steps-Ends [] counts counts' db h = refl
run_steps-Ends ((name, f) ∷ steps) counts counts' db h =
    let (n, r, same) = run_steps-swept name f steps counts counts' db h in
    let rest =
      run_steps-Ends steps (counts ++ (name, n) ∷ []) counts' (f db).1
        (subst (λ (p : Swept × Db). p.0 ≡ swept counts') same h) in
    (n, r, subst (λ (p : Swept × Db). Ends steps (f db).1 p.1) (sym same) rest)

sweep_steps-Ends :
    (io : Io) (now : ℕ) (db db' : Db)
    → Ends (sweep_steps io now) db db'
    → db' ≡ without_expired io.now now db
sweep_steps-Ends io now db db' h =
    let (n1, r1, h1) = h in
    let (n2, r2, h2) = h1 in
    let (n3, r3, h3) = h2 in
    let (n4, r4, h4) = h3 in
    let (n5, r5, h5) = h4 in
    let (n6, r6, h6) = h5 in
    let (n7, r7, h7) = h6 in
    let (n8, r8, last) = h7 in
    sym last
    ∙ rw
        (
          jtis_swept io now _ r8,
          ceremonies_swept io now _ r7,
          device_codes_swept io now _ r6,
          password_tokens_swept io now _ r5,
          challenges_swept io now _ r4,
          auth_requests_swept io now _ r3,
          auth_codes_swept io now _ r2,
          sessions_swept io now db r1,
        )
        refl

-- A sweep that ends without an error has deleted exactly the rows that expired before `now` from the
-- eight tables (from the parked requests, those that expired by the clock), and changed nothing else.
pub sweep_expired-without_expired :
    (io : Io) (now : ℕ) (db : Db) (counts : Counts)
    → (sweep_expired io now db).0 ≡ swept counts
    → (sweep_expired io now db).1 ≡ without_expired io.now now db
unfolding sweep_expired
sweep_expired-without_expired io now db counts h =
    sweep_steps-Ends io now db _ (run_steps-Ends (sweep_steps io now) [] counts db h)
