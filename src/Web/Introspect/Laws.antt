-- ===== src/Web/Introspect/Laws.antt =====
-- Who learns and revokes what: a client, of its own tokens only.
use omni_identity.Prelude.{
  ◌<◌, String, true, false, not, ◌&&◌, Option, none, some, ◌≡◌, refl, arith, ◌==◌, eq_iff,
  Bool-cases, inl, inr, ltb,
}
use omni_identity.Model.{Client, RefreshToken, is_public}
use omni_identity.Store.Io.{Db, Result, ok, err}
use omni_identity.Store.RefreshTokens.{get_refresh_token_by_hash}
use omni_identity.Tokens.{VerifiedToken, verify, is_access_token}
use omni_identity.Web.Server.{Env, Request, State}
use omni_identity.Web.Handler.{done, pure, after_find, after_reject_if}
use omni_identity.Web.ClientAuth.{authenticate_client}
use omni_identity.Web.Grants.{require_client}
use omni_identity.Web.Introspect.{
  Introspection, inactive, access, refresh, own_access, refresh_info, info_or, introspect,
  handle_introspect,
}

-- What may be told of a token to a client.
abbrev pub MayTell : Env → Client → String → Db → Introspection → Type 0
MayTell env client token db inactive = Unit
MayTell env client token db (access sub aud scope) =
    (vt : VerifiedToken) × (verify env.issuer token ≡ some vt)
    × (is_access_token vt ≡ true)
    × (vt.audience ≡ client.client_id)
    × (vt.subject ≡ sub)
MayTell env client token db (refresh sub id scope exp) =
    (rt : RefreshToken) × (get_refresh_token_by_hash env.io (env.hash token) db ≡ ok rt)
    × (rt.client_id ≡ client.client_id)
    × (rt.revoked ≡ false)
    × (env.io.now < rt.expires_at)
    × (rt.user_id ≡ sub)

refresh_info-MayTell :
    (env : Env) (client : Client) (token : String) (db : Db) (r : Result RefreshToken)
    → get_refresh_token_by_hash env.io (env.hash token) db ≡ r
    → MayTell env client token db (refresh_info env client r)
refresh_info-MayTell env client token db (err e) h = tt
refresh_info-MayTell env client token db (ok rt) h =
    elim (Bool-cases
      (rt.client_id == client.client_id && (not rt.revoked && ltb env.io.now rt.expires_at))) [
        | inl e ↦ rw e (
          rt,
          h,
          ground (arith, eq_iff rt.client_id client.client_id),
          ground arith,
          ground arith,
          refl,
        )
        | inr e ↦ rw e tt
      ]

info_or-MayTell :
    (env : Env) (client : Client) (token : String) (db : Db) (o : Option VerifiedToken)
    (other : Introspection)
    → verify env.issuer token ≡ o
    → MayTell env client token db other
    → MayTell env client token db (info_or (own_access client o) other)
info_or-MayTell env client token db none other h k = k
info_or-MayTell env client token db (some vt) other h k =
    elim (Bool-cases (is_access_token vt && (vt.audience == client.client_id))) [
      | inl e ↦
          rw e (vt, h, ground arith, ground (arith, eq_iff vt.audience client.client_id), refl)
      | inr e ↦ rw e k
    ]

introspect-MayTell :
    (env : Env) (client : Client) (token : String) (db : Db)
    → MayTell env client token db (introspect env client token db)
unfolding introspect
introspect-MayTell env client token db = elim (Bool-cases (token == "")) [
  | inl e ↦ rw e tt
  | inr e ↦ rw e (
      info_or-MayTell env client token db _ _ refl
        (refresh_info-MayTell env client token db _ refl))
]

-- An introspection that answers changes nothing, comes from an authenticated client that is not
-- public, and tells of an access token only to the client that is its audience, and of a refresh
-- token only to the client that it was issued to, and only while it is neither revoked nor expired.
pub handle_introspect-MayTell :
    (env : Env) (req : Request) (s : State) {info : Introspection} {s' : State}
    → handle_introspect env req s ≡ (done info, s')
    → (s' ≡ s)
      × ((client : Client) × (authenticate_client env req s.db ≡ some client)
          × (is_public client ≡ false)
          × MayTell env client (req.form "token") s.db info)
unfolding handle_introspect require_client pure
handle_introspect-MayTell env req s {info} {s'} h =
    let (client, auth, h1) = after_find _ _ _ s h in
    let (private, h2) = after_reject_if _ _ _ s h1 in
    let told : introspect env client (req.form "token") s.db ≡ info = cc h2 in
    (
      cc h2,
      (client, auth, private, rw told at (introspect-MayTell env client (req.form "token") s.db)),
    )
