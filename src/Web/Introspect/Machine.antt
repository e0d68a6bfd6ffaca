-- ===== src/Web/Introspect/Machine.antt =====
-- What a machine's client gets: an access token for itself, for scopes that it is allowed.
use mathlib.Core.List.{Memᴰ}
use mathlib.Core.Path.{subst}
use omni_identity.Prelude.{
  String, false, some, List, [], ◌∷◌, ◌≡◌, refl, sym, ap, arith, ◌==◌, Bool-cases, inl, inr, All,
}
use omni_identity.Prelude.Text.{IsToken, fields, join, fields-join}
use omni_identity.Model.{Client, is_public}
use omni_identity.Oidc.Scope.{contains, split_scope, scopes_subset, scope_open_id}
use omni_identity.Oidc.Scope.Laws.{Within, scopes_subset_sound, contains_of_mem, mem_of_contains}
use omni_identity.Tokens.{issue_access_token}
use omni_identity.Web.Server.{Env, Request, State}
use omni_identity.Web.Handler.{
  done, pure, after_find, after_reject_if, after_or_reject, audit, attempt, AuditEntry, ◌>>=◌, ◌>>◌,
}
use omni_identity.Web.ClientAuth.{authenticate_client}
use omni_identity.Web.Grants.{require_client}
use omni_identity.Web.Issue.{TokenResponse}
use omni_identity.Web.Introspect.{
  non_open_id_scopes, machine_scope, machine_response, grant_client_credentials,
}

non_open_id_scopes-IsToken :
    (xs : List String) → All IsToken xs → All IsToken (non_open_id_scopes xs)
unfolding non_open_id_scopes
non_open_id_scopes-IsToken [] h = tt
non_open_id_scopes-IsToken (x ∷ xs) h = elim (Bool-cases (x == scope_open_id)) [
  | inl e ↦ rw e (non_open_id_scopes-IsToken xs h.1)
  | inr e ↦ rw e (h.0, non_open_id_scopes-IsToken xs h.1)
]

non_open_id_scopes-openid :
    (xs : List String) → contains (non_open_id_scopes xs) scope_open_id ≡ false
unfolding non_open_id_scopes contains
non_open_id_scopes-openid [] = refl
non_open_id_scopes-openid (x ∷ xs) = ground (arith, non_open_id_scopes-openid xs)

machine_scope-Within :
    (requested scope : String) (client : Client)
    → All IsToken client.allowed_scopes
    → machine_scope requested client ≡ some scope
    → Within (split_scope scope) (non_open_id_scopes client.allowed_scopes)
unfolding machine_scope split_scope
machine_scope-Within requested scope client tokens h =
    let granted = non_open_id_scopes client.allowed_scopes in
    elim (Bool-cases (requested == "")) [
      | inl e ↦
          let same : join granted ≡ scope = ground arith in
          let split : fields scope ≡ granted =
            subst (λ x. fields x ≡ granted) same
              (fields-join granted (non_open_id_scopes-IsToken client.allowed_scopes tokens)) in
          λ t m. subst (λ xs. Memᴰ t xs) split m
      | inr e ↦ elim (Bool-cases (scopes_subset (split_scope requested) granted)) [
        | inl fits ↦
            let same : requested ≡ scope = ground arith in
            subst (λ x. Within (split_scope x) granted) same
              (scopes_subset_sound (split_scope requested) granted fits)
        | inr over ↦ absurd (ground arith)
      ]
    ]

audited-done :
    (env : Env) (req : Request) (event : String) (entry : AuditEntry) (a : TokenResponse)
    (s : State) {b : TokenResponse} {s' : State}
    → (audit env req event entry >> pure a) s ≡ (done b, s')
    → a ≡ b
unfolding audit attempt pure ◌>>=◌
audited-done env req event entry a s h = cc h

no_open_id :
    (scopes allowed : List String)
    → Within scopes (non_open_id_scopes allowed)
    → contains scopes scope_open_id ≡ false
no_open_id scopes allowed within = elim (Bool-cases (contains scopes scope_open_id)) [
  | inl e ↦
      let t =
        contains_of_mem (non_open_id_scopes allowed) scope_open_id
          (within scope_open_id (mem_of_contains scopes scope_open_id e)) in
      absurd (cc (t, non_open_id_scopes-openid allowed))
  | inr e ↦ e
]

-- Where the scopes that the client is allowed are words, the client_credentials grant answers only
-- an authenticated client that is not public, with a bearer access token that is signed for the client
-- itself, with the scope of the answer and no other claim; its scopes are all among those allowed and
-- are not `openid`; and there is neither a refresh token nor an ID token.
pub grant_client_credentials-Within :
    (env : Env) (req : Request) (s : State) (client : Client) {resp : TokenResponse} {s' : State}
    → authenticate_client env req s.db ≡ some client
    → All IsToken client.allowed_scopes
    → grant_client_credentials env req s ≡ (done resp, s')
    → (is_public client ≡ false)
      × Within (split_scope resp.scope) (non_open_id_scopes client.allowed_scopes)
      × (contains (split_scope resp.scope) scope_open_id ≡ false)
      × (issue_access_token env.issuer client.client_id client.client_id resp.scope []
          ≡ some resp.access_token)
      × (resp.token_type ≡ "Bearer")
      × (resp.refresh_token ≡ "")
      × (resp.id_token ≡ "")
unfolding grant_client_credentials require_client
grant_client_credentials-Within env req s client {resp} {s'} auth tokens h =
    let (found, auth', h1) = after_find _ _ _ s h in
    let same : client ≡ found = cc (auth, auth') in
    let (private, h2) = after_reject_if _ _ _ s h1 in
    let (scope, granted, h3) = after_or_reject _ _ _ s h2 in
    let (token, signed, h4) = after_or_reject _ _ _ s h3 in
    let within =
      machine_scope-Within (req.form "scope") scope client tokens
        (subst (λ x. machine_scope (req.form "scope") x ≡ some scope) (sym same) granted) in
    let e = audited-done env req "token.issued" _ (machine_response env scope token) s h4 in
    let scoped : scope ≡ resp.scope = ap (λ (r : TokenResponse). r.scope) e in
    let good : Within (split_scope resp.scope) (non_open_id_scopes client.allowed_scopes) =
      subst (λ x. Within (split_scope x) (non_open_id_scopes client.allowed_scopes)) scoped
        within in
    (
      subst (λ x. is_public x ≡ false) (sym same) private,
      good,
      no_open_id (split_scope resp.scope) client.allowed_scopes good,
      subst
          (λ (r : TokenResponse).
            issue_access_token env.issuer client.client_id client.client_id r.scope []
            ≡ some r.access_token)
          e
          (subst
            (λ (c : Client).
              issue_access_token env.issuer c.client_id c.client_id scope [] ≡ some token)
            (sym same) signed),
      sym (ap (λ (r : TokenResponse). r.token_type) e),
      sym (ap (λ (r : TokenResponse). r.refresh_token) e),
      sym (ap (λ (r : TokenResponse). r.id_token) e),
    )
