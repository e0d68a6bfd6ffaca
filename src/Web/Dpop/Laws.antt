-- ===== src/Web/Dpop/Laws.antt =====
-- What the server checks of a proof, and that it accepts none twice.
use omni_identity.Prelude.{
  ℕ, ◌+◌, ◌≤◌, String, Bool, true, false, List, [], ◌∷◌, ◌⊎◌, inl, inr, ◌≡◌, ◌≢◌, refl, ap, arith,
}
use mathlib.Core.List.{Memᴰ}
use mathlib.Core.Path.{subst}
use omni_identity.Pop.{Proof, ProofOptions, outside_window}
use omni_identity.Pop.Laws.{Accepted, verify_proof-Accepted, Accepted-unique}
use omni_identity.Store.Io.{Db, Result, ok, err}
use omni_identity.Store.Jtis.Replay.{GuardOp, Use, use_once, use_all, By, consume_jti_once}
use omni_identity.Web.Server.{Env, Request}
use omni_identity.Web.Dpop.{
  server_urls_for, next_on_mismatch, try_urls, check_proof, accept_fresh, consume_proof,
  verify_dpop, jti_lifetime,
}

abbrev PassesAt : (String → String ⊎ Proof) → List String → Proof → Type 0
PassesAt check us p = (v : String) × Memᴰ v us × (check v ≡ inr p)

next_on_mismatch-PassesAt :
    (check : String → String ⊎ Proof) (u : String) (us : List String) (r rest : String ⊎ Proof)
    {p : Proof}
    → check u ≡ r
    → next_on_mismatch r rest ≡ inr p
    → (rest ≡ inr p → PassesAt check us p)
    → PassesAt check (u ∷ us) p
next_on_mismatch-PassesAt check u us (inr q) rest e h later = (u, Memᴰ.head refl, cc (e, h))
next_on_mismatch-PassesAt check u us (inl msg) rest e h later =
    let (w, m, found) = later (ground arith) in (w, Memᴰ.tail m, found)

try_urls-PassesAt :
    (check : String → String ⊎ Proof) (u : String) (us : List String) {p : Proof}
    → try_urls check u us ≡ inr p
    → PassesAt check (u ∷ us) p
unfolding try_urls
try_urls-PassesAt check u [] h = (u, Memᴰ.head refl, h)
try_urls-PassesAt check u (v ∷ us) h =
    next_on_mismatch-PassesAt check u (v ∷ us) (check u) (try_urls check v us) refl h
      (λ e. try_urls-PassesAt check v us e)

abbrev options : Env → Request → String → String → ProofOptions
options env req access_token htu = record {
  now = env.io.now;
  expected_htm = req.method;
  expected_htu = htu;
  access_token = access_token;
}

-- The address at which the proof was accepted.
pub record Checked (env : Env) (req : Request) (raw access_token : String) (p : Proof)
    : Type 0 where
  pub url : String
  pub served : Memᴰ url ((server_urls_for env req).0 ∷ (server_urls_for env req).1)
  pub accepted : Accepted env.pop (options env req access_token url) raw p

check_proof-Checked :
    (env : Env) (req : Request) (raw access_token : String) {p : Proof}
    → check_proof env req raw access_token ≡ inr p
    → Checked env req raw access_token p
unfolding check_proof
check_proof-Checked env req raw access_token h =
    let (url, served, found) = try_urls-PassesAt _ _ _ h in
    record { url = url; served = served; accepted = verify_proof-Accepted _ _ _ found }

-- The use of the replay guard that a proof makes.
abbrev pub use_of : Env → Proof → Use
use_of env p = record {
  io = env.io;
  hash = env.pop.jti_hash p.jkt p.jti;
  device_id = "";
  expires_at = p.issued_at + jti_lifetime;
}

accept_fresh-won :
    (env : Env) (p : Proof) (r : Result Bool) (db : Db) {q : Proof}
    → (accept_fresh env p (r, db)).0 ≡ inr q
    → (r ≡ ok true) × (p ≡ q)
accept_fresh-won env p (err e) db h = absurd (cc)
accept_fresh-won env p (ok false) db h = absurd (cc)
accept_fresh-won env p (ok true) db h = (refl, cc)

accept_fresh-db :
    (env : Env) (p : Proof) (r : Result Bool) (db : Db) → (accept_fresh env p (r, db)).1 ≡ db
accept_fresh-db env p (err e) db = refl
accept_fresh-db env p (ok false) db = refl
accept_fresh-db env p (ok true) db = refl

-- What an accepted proof has passed: the checks, and the replay guard.
pub record Fresh (env : Env) (req : Request) (raw access_token : String) (db : Db) (p : Proof)
    : Type 0 where
  pub checked : Checked env req raw access_token p
  pub unseen : (use_once (use_of env p) db).0 ≡ ok true
  pub recorded : (verify_dpop env req raw access_token db).1 ≡ (use_once (use_of env p) db).1

consume_proof-won :
    (env : Env) (r : String ⊎ Proof) (db : Db) {p : Proof}
    → (consume_proof env r db).0 ≡ inr p
    → (r ≡ inr p)
      × ((use_once (use_of env p) db).0 ≡ ok true)
      × ((consume_proof env r db).1 ≡ (use_once (use_of env p) db).1)
consume_proof-won env (inl e) db h = absurd (cc)
consume_proof-won env (inr q) db h =
    let (won, same) =
      accept_fresh-won env q (use_once (use_of env q) db).0 (use_once (use_of env q) db).1 h in
    let kept =
      accept_fresh-db env q (use_once (use_of env q) db).0 (use_once (use_of env q) db).1 in
    (
      ap inr same,
      rw same at won,
      subst (λ (x : Proof). (consume_proof env (inr q) db).1 ≡ (use_once (use_of env x) db).1) same
          kept,
    )

-- A proof is accepted only if its claims fit the request: the method, one of the addresses of the
-- server, a time within the skew and, where there is a token, its hash; and only if the replay guard
-- has not seen its key and identifier.
pub verify_dpop-Fresh :
    (env : Env) (req : Request) (raw access_token : String) (db : Db) {p : Proof}
    → (verify_dpop env req raw access_token db).0 ≡ inr p
    → Fresh env req raw access_token db p
unfolding verify_dpop
verify_dpop-Fresh env req raw access_token db h =
    let (passed, won, kept) = consume_proof-won env (check_proof env req raw access_token) db h in
    record {
      checked = check_proof-Checked env req raw access_token passed;
      unseen = won;
      recorded = kept;
    }

By-later : (t t' : ℕ) (us : List GuardOp) → t ≤ t' → By t us → By t' us
By-later t t' [] le h = tt
By-later t t' (u ∷ us) le h = (ground arith, By-later t t' us le h.1)

in_lifetime : (now iat : ℕ) → outside_window now iat ≡ false → now ≤ iat + jti_lifetime
in_lifetime now iat h = ground arith

-- After a proof is accepted, the same text is never accepted again, for whatever request and access
-- token and whatever failures: neither within its window, where the replay guard holds, nor
-- later, whatever uses of the guard and sweeps come between, at times up to the second attempt's.
pub verify_dpop_once :
    (env env' : Env) (req req' : Request) (raw token token' : String) (us : List GuardOp) (db : Db)
    (p : Proof)
    → env'.pop ≡ env.pop
    → (verify_dpop env req raw token db).0 ≡ inr p
    → By env'.io.now us
    → (p' : Proof)
    → (verify_dpop env' req' raw token' (use_all us (verify_dpop env req raw token db).1)).0
      ≢ inr p'
verify_dpop_once env env' req req' raw token token' us db p same_pop first times p' second =
    let one = verify_dpop-Fresh env req raw token db first in
    let two = verify_dpop-Fresh env' req' raw token' _ second in
    let b = two.checked.accepted in
    let same : p ≡ p' =
      Accepted-unique env.pop _ (options env' req' token' two.checked.url) raw one.checked.accepted
        (rw same_pop at b) in
    let issued : p'.issued_at ≡ b.iat = ap (λ (q : Proof). q.issued_at) b.same in
    let soon : env'.io.now ≤ p.issued_at + jti_lifetime =
      rw (same, issued) (in_lifetime env'.io.now b.iat b.in_window) in
    consume_jti_once (use_of env p) us (use_of env' p') db one.unseen
      (By-later env'.io.now (p.issued_at + jti_lifetime) us soon times) soon
      (rw (same_pop, same) refl) (rw one.recorded at two.unseen)
