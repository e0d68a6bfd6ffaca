-- ===== src/Web/TokenExchange/Delegate.antt =====
-- What the extra claims of a delegated token say of its device and of a key.
use omni_identity.Prelude.{
  String, Bool, true, false, Option, none, some, [], ◌∷◌, ◌≡◌, refl, ◌∙◌, ◌==◌, Bool-cases, inl,
  inr, if◌then◌else◌,
}
use omni_identity.Model.{User, Device, RefreshToken, is_zero}
use omni_identity.Tokens.{Claims, Value, str, obj, claim, put}
use omni_identity.Tokens.Laws.{claim-put}
use omni_identity.Web.Issue.Bindings.{claim-with_groups, claim-put_unless_empty}
use omni_identity.Web.Server.{Env}
use omni_identity.Web.TokenExchange.{put_posture, put_auth_time, parse_posture, delegated_claims}

claim-put_other :
    (k j : String) (v : Value) (m : Claims) → (j == k) ≡ false → claim k (put j v m) ≡ claim k m
claim-put_other k j v m n = rw (claim-put k j v m, n) refl

claim-put_if :
    (b : Bool) (k j : String) (v : Value) (m : Claims)
    → (j == k) ≡ false
    → claim k (if b then put j v m else m) ≡ claim k m
claim-put_if true k j v m n = claim-put_other k j v m n
claim-put_if false k j v m n = refl

claim-put_auth_time :
    (k : String) (rt : RefreshToken) (m : Claims)
    → ("auth_time" == k) ≡ false
    → claim k (put_auth_time rt m) ≡ claim k m
claim-put_auth_time k rt m n = elim (Bool-cases (is_zero rt.auth_time)) [
  | inl e ↦ rw e refl
  | inr e ↦ rw e (claim-put_other k "auth_time" _ m n)
]

claim-put_posture :
    (k : String) (p : Option String) (m : Claims)
    → ("device_posture" == k) ≡ false
    → claim k (put_posture p m) ≡ claim k m
claim-put_posture k none m n = refl
claim-put_posture k (some p) m n = claim-put_other k "device_posture" _ m n

-- The claims that are not about the user are those of the device.
pub claim-delegated :
    (k : String) (env : Env) (dev : Device) (rt : RefreshToken) (user : User) (scope : String)
    → ("email" == k) ≡ false
    → ("preferred_username" == k) ≡ false
    → ("device_posture" == k) ≡ false
    → ("groups" == k) ≡ false
    → ("auth_time" == k) ≡ false
    → ("amr" == k) ≡ false
    → claim k (delegated_claims env dev rt user scope)
      ≡ claim k (
          ("device_id", str dev.id)
          ∷ ("device_trust", str dev.trust_level)
          ∷ ("act", obj "sub" dev.id)
          ∷ [])
unfolding delegated_claims
claim-delegated k env dev rt user scope n1 n2 n3 n4 n5 n6 =
    claim-put_if _ k "email" _ _ n1
    ∙ claim-put_if _ k "preferred_username" _ _ n2
    ∙ claim-put_posture k (parse_posture env dev.posture) _ n3
    ∙ claim-with_groups k _ user n4
    ∙ claim-put_auth_time k rt _ n5
    ∙ rw (claim-put_unless_empty k rt.amr "amr" _ _, n6) (same (rt.amr == ""))
  where
    same : {m : Option Value} (b : Bool) → (if b then m else m) ≡ m
    same true = refl
    same false = refl

-- The token of an exchange delegates to the device and is bound to no key.
pub delegate :
    (env : Env) (dev : Device) (rt : RefreshToken) (user : User) (scope : String)
    → (claim "act" (delegated_claims env dev rt user scope) ≡ some (obj "sub" dev.id))
      × (claim "device_id" (delegated_claims env dev rt user scope) ≡ some (str dev.id))
      × (claim "cnf" (delegated_claims env dev rt user scope) ≡ none)
unfolding claim
delegate env dev rt user scope = (
  claim-delegated "act" env dev rt user scope refl refl refl refl refl refl,
  claim-delegated "device_id" env dev rt user scope refl refl refl refl refl refl,
  claim-delegated "cnf" env dev rt user scope refl refl refl refl refl refl,
)
