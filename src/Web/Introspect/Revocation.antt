-- ===== src/Web/Introspect/Revocation.antt =====
-- What a revocation does.
use omni_identity.Prelude.{
  String, true, false, not, ◌&&◌, some, List, ◌≡◌, ◌≢◌, refl, sym, ap, ◌∙◌, arith, ◌==◌, eq_iff,
  ne_of_test, Bool-cases, inl, inr, any, select_where, none-update_where_all, select-update_where,
}
use omni_identity.Model.{Client, RefreshToken, AuditEvent}
use omni_identity.Store.Io.{Db, Io, Result, ok, err, StoreError, Stmt}
use omni_identity.Store.Clients.{append_audit_event}
use omni_identity.Store.RefreshTokens.{revoke, get_refresh_token_by_hash, revoke_refresh_token}
use omni_identity.Web.Server.{Env, Request, State}
use omni_identity.Web.Handler.{done, pure, attempt, audit, after_find, ◌>>=◌}
use omni_identity.Web.ClientAuth.{authenticate_client}
use omni_identity.Web.Grants.{require_client}
use omni_identity.Web.Introspect.{own_row, own_token, revoke_own, handle_revoke}

-- What a revocation of `raw` by a client makes of the rows of the refresh tokens.
pub data Revocation (env : Env) (client : Client) (raw : String) (db : Db)
    (rows : List RefreshToken) : Type 0 where
  -- The token is stored and the client's: it alone is revoked.
  own :
      (rt : RefreshToken)
      → raw ≢ ""
      → get_refresh_token_by_hash env.io (env.hash raw) db ≡ ok rt
      → rt.client_id ≡ client.client_id
      → any (λ x. x.id == rt.id && not x.revoked) rows ≡ false
      → select_where (λ x. not (x.id == rt.id)) rows
        ≡ select_where (λ x. not (x.id == rt.id)) db.refresh_tokens
      → Revocation env client raw db rows
  -- The statement fails.
  failed :
      env.io.fails Stmt.revoke_refresh ≡ true
      → rows ≡ db.refresh_tokens
      → Revocation env client raw db rows
  -- No token of the client is presented.
  foreign :
      ((rt : RefreshToken)
        → raw ≢ ""
        → get_refresh_token_by_hash env.io (env.hash raw) db ≡ ok rt
        → rt.client_id ≢ client.client_id)
      → rows ≡ db.refresh_tokens
      → Revocation env client raw db rows

append_audit_event-refresh_tokens :
    (io : Io) (ev : AuditEvent) (db : Db)
    → (append_audit_event io ev db).refresh_tokens ≡ db.refresh_tokens
unfolding append_audit_event
append_audit_event-refresh_tokens io ev db = ground arith

revoke-Revocation :
    (env : Env) (client : Client) (raw : String) (db : Db) (rt : RefreshToken)
    → raw ≢ ""
    → get_refresh_token_by_hash env.io (env.hash raw) db ≡ ok rt
    → rt.client_id ≡ client.client_id
    → Revocation env client raw db (revoke_refresh_token env.io rt.id db).refresh_tokens
unfolding revoke_refresh_token
revoke-Revocation env client raw db rt given found mine =
    elim (Bool-cases (env.io.fails Stmt.revoke_refresh)) [
      | inl bad ↦ rw bad (failed bad refl)
      | inr works ↦ rw works (
          own rt given found mine
            (none-update_where_all (λ x. x.id == rt.id && not x.revoked) (λ x. x.id == rt.id) revoke
              db.refresh_tokens (λ x e. ground arith) (λ x e. ground arith))
            (select-update_where (λ x. not (x.id == rt.id)) (λ x. x.id == rt.id) revoke
              db.refresh_tokens (λ x e. ground arith) (λ x e. ground arith)))
    ]

not_ok : {x : RefreshToken} {e : StoreError} → err e ≡ ok x → ⊥
not_ok h = cc

ok_inj : {x y : RefreshToken} → ok x ≡ ok y → x ≡ y
ok_inj h = cc

-- The rows after the answer, for the row that was found and whether it is the client's.
found-Revocation :
    (env : Env) (req : Request) (client : Client) (raw : String) (r : Result RefreshToken)
    (s : State)
    → raw ≢ ""
    → get_refresh_token_by_hash env.io (env.hash raw) s.db ≡ r
    → Revocation env client raw s.db
        (revoke_own env req client (own_row client r) s).1.db.refresh_tokens
unfolding pure attempt audit ◌>>=◌
found-Revocation env req client raw (err e) s given found =
    foreign (λ rt _ there. absurd (not_ok (sym found ∙ there))) refl
found-Revocation env req client raw (ok rt) s given found =
    elim (Bool-cases (rt.client_id == client.client_id)) [
      | inl mine ↦
          rw
            (
              mine,
              append_audit_event-refresh_tokens env.io _ (revoke_refresh_token env.io rt.id s.db),
            )
            (revoke-Revocation env client raw s.db rt given found
              ((eq_iff rt.client_id client.client_id).0 mine))
      | inr other ↦ rw other (
          foreign
            (λ x _ there same.
              ne_of_test rt.client_id client.client_id other
                (ap (λ (y : RefreshToken). y.client_id) (ok_inj (sym found ∙ there)) ∙ same))
            refl)
    ]

token-Revocation :
    (env : Env) (req : Request) (client : Client) (raw : String) (s : State)
    → Revocation env client raw s.db
        (revoke_own env req client (own_token env client raw s.db) s).1.db.refresh_tokens
unfolding own_token pure
token-Revocation env req client raw s = elim (Bool-cases (raw == "")) [
  | inl blank ↦ rw blank (foreign (λ rt given _ _. given ((eq_iff raw "").0 blank)) refl)
  | inr given ↦ rw given (
      found-Revocation env req client raw (get_refresh_token_by_hash env.io (env.hash raw) s.db) s
        (ne_of_test raw "" given) refl)
]

-- A revocation that answers comes from an authenticated client. Where the presented refresh token is
-- stored and the client's, no row with its id is live afterwards and the other rows are as they were,
-- or the store has failed and all rows are; where it is not stored, or another client's, all rows are
-- as they were.
pub handle_revoke-Revocation :
    (env : Env) (req : Request) (s : State) {u : Unit {0}} {s' : State}
    → handle_revoke env req s ≡ (done u, s')
    → (client : Client) × (authenticate_client env req s.db ≡ some client)
      × Revocation env client (req.form "token") s.db s'.db.refresh_tokens
unfolding handle_revoke require_client
handle_revoke-Revocation env req s {u} {s'} h =
    let (client, auth, h1) = after_find _ _ _ s h in
    (client, auth, rw h1 at (token-Revocation env req client (req.form "token") s))
