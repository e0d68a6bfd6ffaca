-- ===== src/Web/Issue/Laws.antt =====
-- What the tokens of a response say of the grant.
use omni_identity.Prelude.{
  ℕ, String, true, false, Option, none, some, ◌≡◌, refl, sym, ap, ◌∙◌, Bool-cases, inl, inr,
}
use mathlib.Core.Path.{subst}
use omni_identity.Model.{User, Client}
use omni_identity.Oidc.Scope.{has_scope, scope_open_id}
use omni_identity.Tokens.{claim, issue_access_token, issue_id_token, as_obj}
use omni_identity.Web.Server.{Env}
use omni_identity.Web.Issue.{
  TokenResponse, TokenContext, token_type, add_id_token, plain_response, access_response,
  with_id_token, build_access_and_id,
}
use omni_identity.Web.Issue.Bindings.{
  grant_claims, bound_to_key, id_token_claims, id_unbound, id_no_use,
}

same_response : {a b : TokenResponse} → some a ≡ some b → a ≡ b
same_response h = cc

-- What is true of the tokens of a response.
pub record IssuedTokens (env : Env) (client : Client) (user : User) (scope nonce : String)
    (auth_time : ℕ) (tc : TokenContext) (resp : TokenResponse) : Type 0 where
  pub access :
      issue_access_token env.issuer user.id client.client_id scope (grant_claims tc user)
      ≡ some resp.access_token
  pub id :
      has_scope scope scope_open_id ≡ true
      → env.issuer.jwt.sign (id_token_claims env client user nonce auth_time tc)
        ≡ some resp.id_token
  pub no_id : has_scope scope scope_open_id ≡ false → resp.id_token ≡ ""
  pub key : as_obj "jkt" (claim "cnf" (grant_claims tc user)) ≡ tc.jkt
  pub kind : resp.token_type ≡ token_type tc
  pub id_key : claim "cnf" (id_token_claims env client user nonce auth_time tc) ≡ none
  pub id_use : claim "token_use" (id_token_claims env client user nonce auth_time tc) ≡ none
  pub granted : resp.scope ≡ scope
  pub no_refresh : resp.refresh_token ≡ ""

-- The response without and with an ID token.
abbrev Parts : Env → Client → User → String → String → ℕ → TokenContext → TokenResponse → Type 0
Parts env client user scope nonce auth_time tc resp =
    (issue_access_token env.issuer user.id client.client_id scope (grant_claims tc user)
      ≡ some resp.access_token)
    × (has_scope scope scope_open_id ≡ true
        → env.issuer.jwt.sign (id_token_claims env client user nonce auth_time tc)
          ≡ some resp.id_token)
    × (has_scope scope scope_open_id ≡ false → resp.id_token ≡ "")
    × (resp.token_type ≡ token_type tc)
    × (resp.scope ≡ scope)
    × (resp.refresh_token ≡ "")

-- The ID token, once the response `r` with the access token is there.
add_id_token-fields :
    (r : TokenResponse) (o : Option String) {resp : TokenResponse}
    → add_id_token r o ≡ some resp
    → (o ≡ some resp.id_token) × (resp ≡ record r { id_token = resp.id_token })
add_id_token-fields r none h = absurd (cc)
add_id_token-fields r (some t) {resp} h =
    let e : record r { id_token = t } ≡ resp = cc h in
    subst
      (λ (x : TokenResponse). (some t ≡ some x.id_token) × (x ≡ record r { id_token = x.id_token }))
      e (refl, refl)

with_id_token-Parts :
    (env : Env) (client : Client) (user : User) (scope nonce : String) (auth_time : ℕ)
    (tc : TokenContext) (raw : Option String) {resp : TokenResponse}
    → issue_access_token env.issuer user.id client.client_id scope (grant_claims tc user) ≡ raw
    → with_id_token env client user scope nonce auth_time
        (grant_claims tc user)
        (access_response env scope tc raw)
      ≡ some resp
    → Parts env client user scope nonce auth_time tc resp
unfolding issue_id_token
with_id_token-Parts env client user scope nonce auth_time tc none signed h = absurd (cc)
with_id_token-Parts env client user scope nonce auth_time tc (some t) {resp} signed h =
    elim (Bool-cases (has_scope scope scope_open_id)) [
      | inl e ↦
          let signed_id : Option String =
            env.issuer.jwt.sign (id_token_claims env client user nonce auth_time tc) in
          let added : add_id_token (plain_response env scope tc t) signed_id ≡ some resp =
            rw e at h in
          let (id, same) = add_id_token-fields (plain_response env scope tc t) signed_id added in
          (
            signed ∙ ap some (sym (ap (λ (x : TokenResponse). x.access_token) same)),
            λ _. id,
            λ f. absurd (cc (e, f)),
            ap (λ (x : TokenResponse). x.token_type) same,
            ap (λ (x : TokenResponse). x.scope) same,
            ap (λ (x : TokenResponse). x.refresh_token) same,
          )
      | inr e ↦
          let plain : some (plain_response env scope tc t) ≡ some resp = rw e at h in
          let same : plain_response env scope tc t ≡ resp = same_response plain in
          (
            signed ∙ ap some (ap (λ (x : TokenResponse). x.access_token) same),
            λ f. absurd (cc (e, f)),
            λ _. sym (ap (λ (x : TokenResponse). x.id_token) same),
            sym (ap (λ (x : TokenResponse). x.token_type) same),
            sym (ap (λ (x : TokenResponse). x.scope) same),
            sym (ap (λ (x : TokenResponse). x.refresh_token) same),
          )
    ]

-- The response of a grant holds the access token that the issuer signed for the user, the client and
-- the scope, with a binding to exactly the key of the grant; an ID token exactly where the scope has
-- `openid`, one without that binding and without the mark of an access or device token; and
-- no refresh token yet.
pub build_access_and_id-IssuedTokens :
    (env : Env) (client : Client) (user : User) (scope nonce : String) (auth_time : ℕ)
    (tc : TokenContext) {resp : TokenResponse}
    → build_access_and_id env client user scope nonce auth_time tc ≡ some resp
    → IssuedTokens env client user scope nonce auth_time tc resp
unfolding build_access_and_id
build_access_and_id-IssuedTokens env client user scope nonce auth_time tc h =
    let (access, id, no_id, kind, granted, no_refresh) =
      with_id_token-Parts env client user scope nonce auth_time tc _ refl h in
    record {
      access = access;
      id = id;
      no_id = no_id;
      key = bound_to_key tc user;
      kind = kind;
      id_key = id_unbound env client user nonce auth_time tc;
      id_use = id_no_use env client user nonce auth_time tc;
      granted = granted;
      no_refresh = no_refresh;
    }
