-- ===== src/Web/RefreshGrant/Reuse.antt =====
-- What happens to a refresh token that is presented after it was rotated or revoked.
use omni_identity.Prelude.{
  String, Bool, true, false, not, ◌&&◌, some, ◌≡◌, ◌≢◌, refl, arith, ◌==◌, eq_iff, any,
  none-update_where_all,
}
use omni_identity.Model.{Client, RefreshToken}
use omni_identity.Store.Io.{Db, Io, ok, Stmt}
use omni_identity.Store.RefreshTokens.{
  revoke, of_pair, get_refresh_token_by_hash, revoke_refresh_tokens_for_user_client,
}
use omni_identity.Web.Server.{Env, Request, State}
use omni_identity.Web.Handler.{
  refused, reject, query, attempt, find_or_reject, reject_if, when, ◌>>=◌,
}
use omni_identity.Web.ClientAuth.{authenticate_client}
use omni_identity.Web.Grants.{invalid_grant, require_client}
use omni_identity.Web.RefreshGrant.{grant_refresh_token}

-- A live token of the user and the client.
abbrev pub live_of_pair : String → String → RefreshToken → Bool
live_of_pair user_id client_id rt = of_pair user_id client_id rt && not rt.revoked

revoked_pair :
    (io : Io) (user_id client_id : String) (db : Db)
    → io.fails Stmt.revoke_refresh_pair ≡ false
    → any
        (live_of_pair user_id client_id)
        (revoke_refresh_tokens_for_user_client io user_id client_id db).refresh_tokens
      ≡ false
unfolding revoke_refresh_tokens_for_user_client
revoked_pair io user_id client_id db works = rw works (
    none-update_where_all (live_of_pair user_id client_id) (of_pair user_id client_id) revoke
      db.refresh_tokens (λ x e. ground arith) (λ x e. ground arith))

-- A client that presents a refresh token of its own that is already revoked is refused as a reuse,
-- and, where that revocation does not fail, no refresh token of the token's user and client is live
-- afterwards.
pub grant_refresh_token_reuse :
    (env : Env) (req : Request) (s : State) (client : Client) (rt : RefreshToken)
    → authenticate_client env req s.db ≡ some client
    → req.form "refresh_token" ≢ ""
    → get_refresh_token_by_hash env.io (env.hash (req.form "refresh_token")) s.db ≡ ok rt
    → rt.client_id ≡ client.client_id
    → rt.revoked ≡ true
    → env.io.fails Stmt.revoke_refresh_pair ≡ false
    → ((grant_refresh_token env req s).0 ≡ refused (invalid_grant "refresh token reuse detected"))
      × (any
            (live_of_pair rt.user_id rt.client_id)
            (grant_refresh_token env req s).1.db.refresh_tokens
          ≡ false)
unfolding grant_refresh_token require_client find_or_reject query reject_if when attempt reject
    ◌>>=◌
grant_refresh_token_reuse env req s client rt auth given found own dead works =
    let full : (req.form "refresh_token" == "") ≡ false =
      ground (arith, eq_iff (req.form "refresh_token") "") in
    let same : (rt.client_id == client.client_id) ≡ true =
      ground (arith, eq_iff rt.client_id client.client_id) in
    rw (auth, full, found, same, dead)
      (refl, revoked_pair env.io rt.user_id rt.client_id s.db works)
