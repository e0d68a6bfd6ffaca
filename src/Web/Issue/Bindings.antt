-- ===== src/Web/Issue/Bindings.antt =====
-- The claims that a grant signs: its bindings, and what its ID token leaves out.
use omni_identity.Prelude.{
  ℕ, String, false, Option, none, some, [], ◌∷◌, ◌≡◌, refl, sym, ◌∙◌, arith, ◌==◌, eq_iff,
  Bool-cases, inl, inr, if◌then◌else◌,
}
use omni_identity.Model.{User, Client, Device}
use omni_identity.Tokens.{Value, Claims, claim, Issuer, Profile, id_claims, as_obj}
use omni_identity.Tokens.Laws.{claim-put}
use omni_identity.Web.Server.{Env}
use omni_identity.Web.Issue.{
  TokenContext, put_unless_empty, put_device, extra, with_groups, user_groups, profile_from_user,
  without,
}

claim-without :
    (k j : String) (m : Claims) → claim k (without j m) ≡ (if j == k then none else claim k m)
unfolding claim without
claim-without k j [] = ground arith
claim-without k j ((i, w) ∷ m) =
    ground (arith, eq_iff i j, eq_iff i k, eq_iff j k, claim-without k j m)

-- The extra claims of a grant.
abbrev pub grant_claims : TokenContext → User → Claims
grant_claims tc user = with_groups (extra tc) user

pub claim-with_groups :
    (k : String) (m : Claims) (u : User)
    → ("groups" == k) ≡ false
    → claim k (with_groups m u) ≡ claim k m
unfolding with_groups user_groups
claim-with_groups k m u n = elim (Bool-cases u.is_admin) [
  | inl e ↦ rw (e, claim-put, n) refl
  | inr e ↦ rw e refl
]

claim-put_device :
    (k : String) (d : Option Device) (m : Claims)
    → ("device_id" == k) ≡ false
    → ("device_trust" == k) ≡ false
    → claim k (put_device d m) ≡ claim k m
claim-put_device k none m n n' = refl
claim-put_device k (some d) m n n' =
    rw (claim-put k "device_trust" _ _, n', claim-put k "device_id" _ _, n) refl

pub claim-put_unless_empty :
    (k s j : String) (v : Value) (m : Claims)
    → claim k (put_unless_empty s j v m)
      ≡ (if s == "" then claim k m else if j == k then some v else claim k m)
claim-put_unless_empty k s j v m = elim (Bool-cases (s == "")) [
  | inl e ↦ rw e refl
  | inr e ↦ rw e (claim-put k j v m)
]

-- The binding to a key, and nothing where there is none.
pub bound_to_key :
    (tc : TokenContext) (user : User) → as_obj "jkt" (claim "cnf" (grant_claims tc user)) ≡ tc.jkt
unfolding extra claim
bound_to_key tc user = elim (Bool-cases (tc.jkt == "")) [
  | inl e ↦
      rw
        (
          claim-with_groups "cnf" (extra tc) user refl,
          claim-put_unless_empty "cnf" tc.jkt "cnf" _ _,
          e,
          claim-put_device "cnf" tc.device _ refl refl,
          claim-put_unless_empty "cnf" tc.amr "amr" _ _,
        )
        (elim (Bool-cases (tc.amr == "")) [
          | inl f ↦ rw f (sym ((eq_iff tc.jkt "").0 e))
          | inr f ↦ rw f (sym ((eq_iff tc.jkt "").0 e))
        ])
  | inr e ↦
      rw
        (
          claim-with_groups "cnf" (extra tc) user refl,
          claim-put_unless_empty "cnf" tc.jkt "cnf" _ _,
          e,
        )
        refl
]

-- No grant marks its tokens as of a use.
no_use : (tc : TokenContext) (user : User) → claim "token_use" (grant_claims tc user) ≡ none
unfolding extra claim
no_use tc user =
    rw
      (
        claim-with_groups "token_use" (extra tc) user refl,
        claim-put_unless_empty "token_use" tc.jkt "cnf" _ _,
        claim-put_device "token_use" tc.device _ refl refl,
        claim-put_unless_empty "token_use" tc.amr "amr" _ _,
      )
      (ground arith)

-- A claim of an ID token that is none of its own is one of the extra claims.
id_claims-extra :
    (k : String) (i : Issuer) (subject audience : String) (p : Profile) (nonce : String) (t : ℕ)
    (m : Claims)
    → ("nonce" == k) ≡ false
    → claim k (id_claims i subject audience p nonce t m)
      ≡ claim k (id_claims i subject audience p "" t m)
unfolding id_claims
id_claims-extra k i subject audience p nonce t m n = elim (Bool-cases (nonce == "")) [
  | inl e ↦ rw e refl
  | inr e ↦ rw (e, claim-put, n) refl
]

abbrev pub id_token_claims : Env → Client → User → String → ℕ → TokenContext → Claims
id_token_claims env client user nonce auth_time tc =
    id_claims env.issuer user.id client.client_id (profile_from_user user) nonce auth_time
      (without "cnf" (grant_claims tc user))

pub id_unbound :
    (env : Env) (client : Client) (user : User) (nonce : String) (t : ℕ) (tc : TokenContext)
    → claim "cnf" (id_token_claims env client user nonce t tc) ≡ none
unfolding id_claims
id_unbound env client user nonce t tc =
    id_claims-extra "cnf" env.issuer _ _ _ nonce t _ refl ∙ simp (claim-put, claim-without)

pub id_no_use :
    (env : Env) (client : Client) (user : User) (nonce : String) (t : ℕ) (tc : TokenContext)
    → claim "token_use" (id_token_claims env client user nonce t tc) ≡ none
unfolding id_claims
id_no_use env client user nonce t tc =
    id_claims-extra "token_use" env.issuer _ _ _ nonce t _ refl
    ∙ simp (claim-put, claim-without, no_use tc user)
