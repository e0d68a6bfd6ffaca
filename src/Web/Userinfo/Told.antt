-- ===== src/Web/Userinfo/Told.antt =====
-- What userinfo tells.
use mathlib.Core.Path.{subst}
use omni_identity.Prelude.{
  String, Bool, true, false, Option, none, some, [], ◌∷◌, ◌≡◌, refl, ap, ◌∙◌, ◌==◌, Bool-cases, inl,
  inr, if◌then◌else◌,
}
use omni_identity.Model.{User}
use omni_identity.Oidc.Scope.{has_scope, scope_profile, scope_email}
use omni_identity.Tokens.{
  Issuer, Claims, Value, str, strs, flag, claim, access_claims, issue_access_token, VerifiedToken,
  verify, is_access_token,
}
use omni_identity.Tokens.Laws.{claim-put, at_time, verify-issue_access_token}
use omni_identity.Web.Grants.{available_user}
use omni_identity.Web.Handler.{done, pure, or_reject, find_or_reject, reject_if, ◌>>=◌}
use omni_identity.Web.Issue.{user_groups, with_groups}
use omni_identity.Web.Issue.Bindings.{claim-with_groups}
use omni_identity.Web.Server.{Env, Request, State}
use omni_identity.Web.Userinfo.{put_if, user_claims, bearer_token, handle_userinfo}

abbrev pub told_if : Bool → Value → Option Value
told_if b v = if b then some v else none

-- What a scope lets be told of a user.
pub record Told (user : User) (scope : String) (m : Claims) : Type 0 where
  pub subject : claim "sub" m ≡ some (str user.id)
  pub email : claim "email" m ≡ told_if (has_scope scope scope_email) (str user.email)
  pub verified : claim "email_verified" m ≡ told_if (has_scope scope scope_email) (flag true)
  pub username :
      claim "preferred_username" m ≡ told_if (has_scope scope scope_profile) (str user.username)
  pub name : claim "name" m ≡ told_if (has_scope scope scope_profile) (str user.username)
  pub groups : claim "groups" m ≡ told_if user.is_admin (strs ("admins" ∷ []))

claim-put_if :
    (k j : String) (b : Bool) (v : Value) (m : Claims)
    → claim k (put_if b j v m) ≡ (if j == k then (if b then some v else claim k m) else claim k m)
claim-put_if k j true v m = claim-put k j v m
claim-put_if k j false v m = same (j == k)
  where
    same : (b : Bool) → claim k m ≡ (if b then claim k m else claim k m)
    same true = refl
    same false = refl

claim-groups :
    (m : Claims) (u : User)
    → claim "groups" (with_groups m u)
      ≡ (if u.is_admin then some (strs ("admins" ∷ [])) else claim "groups" m)
unfolding with_groups user_groups
claim-groups m u = elim (Bool-cases u.is_admin) [
  | inl e ↦ rw e (claim-put "groups" "groups" _ m)
  | inr e ↦ rw e refl
]

user_claims-Told : (user : User) (scope : String) → Told user scope (user_claims user scope)
unfolding user_claims claim
user_claims-Told user scope = record {
  subject = rw (claim-with_groups "sub" _ user refl) (simp claim-put_if);
  email = rw (claim-with_groups "email" _ user refl) (simp claim-put_if);
  verified = rw (claim-with_groups "email_verified" _ user refl) (simp claim-put_if);
  username = rw (claim-with_groups "preferred_username" _ user refl) (simp claim-put_if);
  name = rw (claim-with_groups "name" _ user refl) (simp claim-put_if);
  groups = rw (claim-groups _ user) (simp claim-put_if);
}

answered :
    (env : Env) (req : Request) (s : State) (vt : VerifiedToken) (user : User)
    → (bearer_token req == "") ≡ false
    → verify env.issuer (bearer_token req) ≡ some vt
    → is_access_token vt ≡ true
    → available_user env vt.subject s.db ≡ some user
    → handle_userinfo env req s ≡ (done (user_claims user vt.scope), s)
unfolding handle_userinfo reject_if or_reject find_or_reject pure ◌>>=◌
answered env req s vt user given valid access here = rw (given, valid, access, here) refl

-- Userinfo answers the bearer of an access token that was issued for an enabled user, and that the
-- JWT layer reads back at this time as the claims that were signed, and changes nothing. The answer
-- names the user, with the e-mail address and the names exactly if the scope of the token has `email`
-- and `profile`, and the group of the administrators exactly for an administrator.
pub handle_userinfo-Told :
    (env : Env) (req : Request) (s : State) (user : User) (i : Issuer) (audience scope : String)
    (extra : Claims)
    → env.issuer ≡ at_time i env.issuer.now
    → issue_access_token i user.id audience scope extra ≡ some (bearer_token req)
    → (i.jwt.sign (access_claims i user.id audience scope extra) ≡ some (bearer_token req)
        → i.jwt.parse env.issuer.now (bearer_token req)
          ≡ some (access_claims i user.id audience scope extra))
    → (bearer_token req == "") ≡ false
    → available_user env user.id s.db ≡ some user
    → (m : Claims) × (handle_userinfo env req s ≡ (done m, s)) × Told user scope m
handle_userinfo-Told env req s user i audience scope extra same issued reads given here =
    let (vt, valid, subject, _, granted, access, _, _, _) =
      verify-issue_access_token i user.id audience scope extra (bearer_token req) env.issuer.now
        issued reads in
    (
      user_claims user vt.scope,
      answered env req s vt user given (ap (λ x. verify x (bearer_token req)) same ∙ valid) access
          (ap (λ x. available_user env x s.db) subject ∙ here),
      subst (λ x. Told user x (user_claims user vt.scope)) granted (user_claims-Told user vt.scope),
    )
