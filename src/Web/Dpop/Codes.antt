-- ===== src/Web/Dpop/Codes.antt =====
-- The authentication of a request leaves every table but that of the replay guard alone.
use omni_identity.Prelude.{
  ℕ, ◌∙◌, String, Bool, true, false, Option, none, some, ◌⊎◌, inl, inr, ◌≡◌, refl, arith, ◌==◌,
  Bool-cases,
}
use omni_identity.Pop.{Proof}
use omni_identity.Store.Io.{Db, Result, ok, err}
use omni_identity.Store.Jtis.{consume_jti}
use omni_identity.Tokens.{VerifiedToken, verify}
use omni_identity.Web.Server.{Env, Request}
use omni_identity.Web.Dpop.{
  accept_fresh, consume_proof, check_proof, verify_dpop, proof_for, accept_token, device_of,
  authorization_token, resource_token, authenticate_device_request,
}

consume_jti-codes :
    (env : Env) (h id : String) (e : ℕ) (db : Db)
    → (consume_jti env.io h id e db).1.device_codes ≡ db.device_codes
unfolding consume_jti
consume_jti-codes env h id e db = ground arith

accept_fresh-codes :
    (env : Env) (p : Proof) (r : Result Bool) (db : Db)
    → (accept_fresh env p (r, db)).1.device_codes ≡ db.device_codes
accept_fresh-codes env p (err e) db = refl
accept_fresh-codes env p (ok false) db = refl
accept_fresh-codes env p (ok true) db = refl

consume_proof-codes :
    (env : Env) (r : String ⊎ Proof) (db : Db)
    → (consume_proof env r db).1.device_codes ≡ db.device_codes
consume_proof-codes env (inl e) db = refl
consume_proof-codes env (inr p) db = accept_fresh-codes env p _ _ ∙ consume_jti-codes env _ _ _ db

proof_for-codes :
    (env : Env) (req : Request) (raw : String) (db : Db) (p : Option Proof)
    → (proof_for env req raw db p).1.device_codes ≡ db.device_codes
unfolding verify_dpop
proof_for-codes env req raw db none = consume_proof-codes env (check_proof env req req.dpop raw) db
proof_for-codes env req raw db (some p) = ground arith

accept_token-codes :
    (env : Env) (req : Request) (raw : String) (db : Db) (vt : Option VerifiedToken)
    → (accept_token env req raw db vt).1.device_codes ≡ db.device_codes
accept_token-codes env req raw db none = refl
accept_token-codes env req raw db (some vt) = elim (Bool-cases (vt.jkt == "")) [
  | inl e ↦ rw e refl
  | inr e ↦ rw e (proof_for-codes env req raw db req.proof)
]

resource_token-codes :
    (env : Env) (req : Request) (db : Db)
    → (resource_token env req db).1.device_codes ≡ db.device_codes
unfolding resource_token
resource_token-codes env req db = ground (
  arith,
  accept_token-codes env req (authorization_token req).1 db
      (verify env.issuer (authorization_token req).1),
)

device_of-codes :
    (env : Env) (vt : Option VerifiedToken) (db : Db)
    → (device_of env (vt, db)).1.device_codes ≡ db.device_codes
device_of-codes env none db = refl
device_of-codes env (some vt) db = refl

pub authenticate_device_request-codes :
    (env : Env) (req : Request) (db : Db)
    → (authenticate_device_request env req db).1.device_codes ≡ db.device_codes
unfolding authenticate_device_request
authenticate_device_request-codes env req db =
    device_of-codes env (resource_token env req db).0 (resource_token env req db).1
    ∙ resource_token-codes env req db
