-- ===== src/Pop/Laws.antt =====
-- What an accepted proof says of its text, and of the request.
use omni_identity.Prelude.{
  ℕ, String, true, false, Option, none, some, ◌⊎◌, inl, inr, ◌≡◌, ◌≢◌, refl, arith, eq_iff,
}
use omni_identity.Tokens.{Claims, claim}
use omni_identity.Pop.{
  Pop, Proof, ProofOptions, numeric_date, same_htu, outside_window, proof_of, check_request,
  check_claims, check_parsed, verify_proof,
}

-- The claims of an accepted proof, and how they fit the request.
pub record Accepted (pop : Pop) (opt : ProofOptions) (raw : String) (p : Proof) : Type 0 where
  pub jkt : String
  pub claims : Claims
  pub iat : ℕ
  pub parsed : pop.parse raw ≡ inr (jkt, claims)
  pub dated : numeric_date (claim "iat" claims) ≡ some iat
  pub same : p ≡ record (proof_of jkt claims) { issued_at = iat }
  pub in_window : outside_window opt.now iat ≡ false
  pub method : opt.expected_htm ≢ "" → p.htm ≡ opt.expected_htm
  pub target : opt.expected_htu ≢ "" → same_htu pop p.htu opt.expected_htu ≡ true
  pub bound :
      opt.access_token ≢ "" → (p.ath ≢ "") × (p.ath ≡ pop.access_token_hash opt.access_token)

check_request-checked :
    (pop : Pop) (opt : ProofOptions) (q : Proof) {p : Proof}
    → check_request pop opt q ≡ inr p
    → (p ≡ q)
      × (outside_window opt.now q.issued_at ≡ false)
      × (opt.expected_htm ≢ "" → q.htm ≡ opt.expected_htm)
      × (opt.expected_htu ≢ "" → same_htu pop q.htu opt.expected_htu ≡ true)
      × (opt.access_token ≢ "" → (q.ath ≢ "") × (q.ath ≡ pop.access_token_hash opt.access_token))
check_request-checked pop opt q h = ground (
  arith,
  eq_iff opt.expected_htm "",
  eq_iff q.htm opt.expected_htm,
  eq_iff opt.expected_htu "",
  eq_iff opt.access_token "",
  eq_iff q.ath "",
  eq_iff q.ath (pop.access_token_hash opt.access_token),
)

check_claims-dated :
    (pop : Pop) (opt : ProofOptions) (q : Proof) (d : Option ℕ) {p : Proof}
    → check_claims pop opt q d ≡ inr p
    → (iat : ℕ) × (d ≡ some iat) × (check_request pop opt (record q { issued_at = iat }) ≡ inr p)
check_claims-dated pop opt q none h = absurd (ground arith)
check_claims-dated pop opt q (some iat) h = (iat, refl, ground arith)

check_parsed-Accepted :
    (pop : Pop) (opt : ProofOptions) (raw : String) (r : String ⊎ (String × Claims)) {p : Proof}
    → pop.parse raw ≡ r
    → check_parsed pop opt r ≡ inr p
    → Accepted pop opt raw p
check_parsed-Accepted pop opt raw (inl e) parsed h = absurd (cc)
check_parsed-Accepted pop opt raw (inr (jkt, m)) {p} parsed h =
    let (iat, dated, h1) = check_claims-dated pop opt (proof_of jkt m) _ h in
    let (same, in_window, method, target, bound) =
      check_request-checked pop opt (record (proof_of jkt m) { issued_at = iat }) h1 in
    record {
      jkt = jkt;
      claims = m;
      iat = iat;
      parsed = parsed;
      dated = dated;
      same = same;
      in_window = in_window;
      method = rw same method;
      target = rw same target;
      bound = rw same bound;
    }

pub verify_proof-Accepted :
    (pop : Pop) (opt : ProofOptions) (raw : String) {p : Proof}
    → verify_proof pop opt raw ≡ inr p
    → Accepted pop opt raw p
unfolding verify_proof
verify_proof-Accepted pop opt raw h =
    check_parsed-Accepted pop opt raw (pop.parse raw) refl (ground arith)

-- What is read of a proof does not depend on the request.
pub Accepted-unique :
    (pop : Pop) (opt opt' : ProofOptions) (raw : String) {p p' : Proof}
    → Accepted pop opt raw p
    → Accepted pop opt' raw p'
    → p ≡ p'
Accepted-unique pop opt opt' raw {p} {p'} a b =
    let e : a.jkt ≡ b.jkt = cc (a.parsed, b.parsed) in
    let f : a.claims ≡ b.claims = cc (a.parsed, b.parsed) in
    let g : a.iat ≡ b.iat = cc (a.dated, b.dated, f) in rw (a.same, e, f, g, b.same) refl
