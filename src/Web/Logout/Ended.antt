-- ===== src/Web/Logout/Ended.antt =====
-- What a logout ends: the session of the browser, and the refresh tokens of the user at the client.
use omni_identity.Prelude.{
  String, Bool, true, false, not, ◌&&◌, Option, none, some, List, [], ◌∷◌, ◌≡◌, refl, ap, ◌∙◌, ◌==◌,
  arith, Bool-cases, inl, inr, any, delete_where, update_where,
}
use omni_identity.Model.{Client, RefreshToken}
use omni_identity.Store.Io.{Db, Io, ok, Stmt}
use omni_identity.Store.Clients.{get_client_row}
use omni_identity.Store.RefreshTokens.{of_pair, revoke, revoke_refresh_tokens_for_user_client}
use omni_identity.Store.Sessions.{delete_session_row}
use omni_identity.Tokens.{VerifiedToken, parse_id_token_hint}
use omni_identity.Web.Logout.{Party, identify, destroy_anyway, revoke_pair, handle_logout_page}
use omni_identity.Web.Handler.{Handler, HttpError, Reply, reject_if, attempt, ◌>>=◌, ◌>>◌}
use omni_identity.Web.Server.{Env, Request, State}
use omni_identity.Web.Sessions.{destroy, drop_prior, session_cookie, set_cookie}

any-delete_where {ℓ} : {A : Type ℓ} (p : A → Bool) (xs : List A) → any p (delete_where p xs) ≡ false
unfolding any delete_where
any-delete_where p [] = refl
any-delete_where p (x ∷ xs) = elim (Bool-cases (p x)) [
  | inl e ↦ rw e (any-delete_where p xs)
  | inr e ↦ rw (e, e) (any-delete_where p xs)
]

-- A refresh token of a user at a client that still works.
abbrev pub live_pair : String → String → RefreshToken → Bool
live_pair user_id client_id rt = of_pair user_id client_id rt && not rt.revoked

any-live_pair :
    (user_id client_id : String) (rows : List RefreshToken)
    → any (live_pair user_id client_id) (update_where (of_pair user_id client_id) revoke rows)
      ≡ false
unfolding any update_where
any-live_pair user_id client_id [] = refl
any-live_pair user_id client_id (rt ∷ rows) = elim (Bool-cases (of_pair user_id client_id rt)) [
  | inl e ↦ ground (arith, any-live_pair user_id client_id rows)
  | inr e ↦ ground (arith, any-live_pair user_id client_id rows)
]

dropped :
    (io : Io) (id : String) (db : Db)
    → io.fails Stmt.delete_session ≡ false
    → any (λ x. x.id == id) (delete_session_row io id db).sessions ≡ false
unfolding delete_session_row
dropped io id db runs = rw runs (any-delete_where (λ x. x.id == id) db.sessions)

passed :
    (b : Bool) (e : HttpError) (k : Handler (Unit {0})) (s : State)
    → b ≡ false
    → (reject_if b e >> k) s ≡ k s
unfolding reject_if ◌>>=◌
passed true e k s h = absurd (cc)
passed false e k s h = refl

prior_gone :
    (env : Env) (req : Request) (db : Db)
    → (req.cookie session_cookie == "") ≡ false
    → env.io.fails Stmt.delete_session ≡ false
    → any (λ x. x.id == req.cookie session_cookie) (drop_prior env req db).sessions ≡ false
unfolding drop_prior
prior_gone env req db named runs = rw named (dropped env.io (req.cookie session_cookie) db runs)

destroyed :
    (env : Env) (req : Request) (s : State)
    → (req.cookie session_cookie == "") ≡ false
    → env.io.fails Stmt.delete_session ≡ false
    → any (λ x. x.id == req.cookie session_cookie) (destroy_anyway env req s).db.sessions ≡ false
unfolding destroy_anyway destroy attempt set_cookie ◌>>=◌
destroyed env req s named runs =
    ap
      (λ (x : Reply (Unit {0}) × State).
        any (λ y. y.id == req.cookie session_cookie) x.1.db.sessions)
      (passed (not (req.cookie session_cookie == "") && env.io.fails Stmt.delete_session) _ _ s
        (ground arith))
    ∙ prior_gone env req s.db named runs

revoke_pair-sessions :
    (env : Env) (user_id : String) (c : Option Client) (db : Db)
    → (revoke_pair env user_id c db).sessions ≡ db.sessions
unfolding revoke_refresh_tokens_for_user_client
revoke_pair-sessions env user_id none db = refl
revoke_pair-sessions env user_id (some c) db = ground arith

revoke_pair-rows :
    (env : Env) (user_id : String) (c : Client) (db : Db)
    → (user_id == "") ≡ false
    → env.io.fails Stmt.revoke_refresh_pair ≡ false
    → any (live_pair user_id c.client_id) (revoke_pair env user_id (some c) db).refresh_tokens
      ≡ false
unfolding revoke_refresh_tokens_for_user_client
revoke_pair-rows env user_id c db named runs =
    rw (named, runs) (any-live_pair user_id c.client_id db.refresh_tokens)

identify-hinted :
    (env : Env) (req : Request) (db : Db) (vt : VerifiedToken) (c : Client)
    → (req.query_param "id_token_hint" == "") ≡ false
    → parse_id_token_hint env.issuer (req.query_param "id_token_hint") ≡ some vt
    → (not (req.query_param "client_id" == "") && not (req.query_param "client_id" == vt.audience))
      ≡ false
    → get_client_row env.io vt.audience db ≡ ok c
    → identify env req db ≡ record { user_id = vt.subject; client = some c }
unfolding identify
identify-hinted env req db vt c given hinted same here = rw (given, hinted, same, here) refl

-- Where the statements of the store run, a logout with a hint that this server signed, for a client
-- that it knows and that a client id given besides does not contradict, leaves no session with the
-- id that the browser's cookie names and no refresh token of the user of the hint at this client that
-- is not revoked, whether or not it sends the browser back.
pub handle_logout_page-ended :
    (env : Env) (req : Request) (s : State) (vt : VerifiedToken) (c : Client)
    → (req.query_param "id_token_hint" == "") ≡ false
    → parse_id_token_hint env.issuer (req.query_param "id_token_hint") ≡ some vt
    → (not (req.query_param "client_id" == "") && not (req.query_param "client_id" == vt.audience))
      ≡ false
    → get_client_row env.io vt.audience s.db ≡ ok c
    → (vt.subject == "") ≡ false
    → (req.cookie session_cookie == "") ≡ false
    → env.io.fails Stmt.delete_session ≡ false
    → env.io.fails Stmt.revoke_refresh_pair ≡ false
    → (any (λ x. x.id == req.cookie session_cookie) (handle_logout_page env req s).1.db.sessions
        ≡ false)
      × (any (live_pair vt.subject c.client_id) (handle_logout_page env req s).1.db.refresh_tokens
          ≡ false)
unfolding handle_logout_page
handle_logout_page-ended env req s vt c given hinted same here subject cookie deletes revokes =
    let party = identify-hinted env req s.db vt c given hinted same here in
    (
      ap (any (λ x. x.id == req.cookie session_cookie)) (
            revoke_pair-sessions env (identify env req s.db).user_id (identify env req s.db).client
              (destroy_anyway env req s).db)
          ∙ destroyed env req s cookie deletes,
      ap
            (λ (p : Party).
              any (live_pair vt.subject c.client_id)
                (revoke_pair env p.user_id p.client (destroy_anyway env req s).db).refresh_tokens)
            party
          ∙ revoke_pair-rows env vt.subject c (destroy_anyway env req s).db subject revokes,
    )
