-- ===== src/Web/Login/Parked.antt =====
-- What it takes for a parked request to be continued.
use omni_identity.Prelude.{
  String, true, Option, none, some, ◌≡◌, refl, ℕ, ◌==◌, Bool-cases, inl, inr,
}
use omni_identity.Model.{AuthRequest, Client}
use omni_identity.Store.AuthRequests.{get_auth_request}
use omni_identity.Store.Io.{Db, Io, Result, ok, err, Stmt}
use omni_identity.Store.Clients.{get_client_row}
use omni_identity.Store.Sessions.{delete_session_row, touch_session_row}
use omni_identity.Web.Authorize.{
  AuthzParams, resumed, peeked, peek_client, peek_auth_request, enabled_client,
  redirect_uri_allowed,
}
use omni_identity.Web.Login.{peek_if_named}
use omni_identity.Web.Server.{Env, Request, State}
use omni_identity.Web.Sessions.{current}
use omni_identity.Web.Sessions.Laws.{current-Keeps}

-- The request that the login form continues: it is parked under the id that is given, for a client that
-- is stored and enabled and may still be sent to its address.
pub record ParkedFor (env : Env) (id : String) (db : Db) (a : AuthRequest) (client : Client)
    : Type 0 where
  pub stored : get_auth_request env.io id db ≡ ok a
  pub enabled : enabled_client env a.client_id db ≡ some client
  pub allowed : redirect_uri_allowed env.pop client a.redirect_uri ≡ true

peek_client-some :
    (env : Env) (a : AuthRequest) (o : Option Client) {p : AuthzParams}
    → peek_client env a o ≡ some p
    → (c : Client) × (o ≡ some c)
      × (redirect_uri_allowed env.pop c a.redirect_uri ≡ true)
      × (p ≡ resumed a c)
peek_client-some env a none h = absurd (cc)
peek_client-some env a (some c) {p} h =
    elim (Bool-cases (redirect_uri_allowed env.pop c a.redirect_uri)) [
      | inl fine ↦ (c, refl, fine, some_inj (rw fine at h))
      | inr bad ↦ absurd (none_not_some (rw bad at h))
    ]
  where
    some_inj : {x y : AuthzParams} → some x ≡ some y → y ≡ x
    some_inj h = cc

    none_not_some : {x : AuthzParams} → ◌≡◌ {A = Option AuthzParams} none (some x) → ⊥
    none_not_some h = cc

peeked-some :
    (env : Env) (db : Db) (r : Result AuthRequest) {p : AuthzParams}
    → peeked env db r ≡ some p
    → (a : AuthRequest) × (c : Client) × (r ≡ ok a)
      × (enabled_client env a.client_id db ≡ some c)
      × (redirect_uri_allowed env.pop c a.redirect_uri ≡ true)
      × (p ≡ resumed a c)
peeked-some env db (err e) h = absurd (cc)
peeked-some env db (ok a) h =
    let (c, enabled, allowed, same) = peek_client-some env a _ h in
    (a, c, refl, enabled, allowed, same)

pub peek-ParkedFor :
    (env : Env) (id : String) (db : Db) {p : AuthzParams}
    → peek_if_named env id db ≡ some p
    → (a : AuthRequest) × (c : Client) × ParkedFor env id db a c × (p ≡ resumed a c)
unfolding peek_auth_request
peek-ParkedFor env id db h = elim (Bool-cases (id == "")) [
  | inl unnamed ↦ absurd (none_not_some (rw unnamed at h))
  | inr named ↦
      let (a, c, stored, enabled, allowed, same) = peeked-some env db _ (rw named at h) in
      (a, c, record { stored = stored; enabled = enabled; allowed = allowed }, same)
]
  where
    none_not_some : {x : AuthzParams} → ◌≡◌ {A = Option AuthzParams} none (some x) → ⊥
    none_not_some h = cc

-- Looking the session up changes nothing that the parked request hangs on.
abbrev SamePeek : Env → String → Db → Db → Type 0
SamePeek env id start db = peek_if_named env id db ≡ peek_if_named env id start

delete-SamePeek :
    (env : Env) (key : String) (start : Db) (io : Io) (id : String) (db : Db)
    → SamePeek env key start db
    → SamePeek env key start (delete_session_row io id db)
unfolding delete_session_row peek_auth_request get_auth_request enabled_client get_client_row
delete-SamePeek env key start io id db h = elim (Bool-cases (io.fails Stmt.delete_session)) [
  | inl bad ↦ rw bad h
  | inr fine ↦ rw fine h
]

touch-SamePeek :
    (env : Env) (key : String) (start : Db) (io : Io) (id : String) (t : ℕ) (db : Db)
    → SamePeek env key start db
    → SamePeek env key start (touch_session_row io id t db)
unfolding touch_session_row peek_auth_request get_auth_request enabled_client get_client_row
touch-SamePeek env key start io id t db h = elim (Bool-cases (io.fails Stmt.touch_session)) [
  | inl bad ↦ rw bad h
  | inr fine ↦ rw fine h
]

pub current-peek :
    (env : Env) (req : Request) (key : String) (s : State)
    → peek_if_named env key (current env req s).1.db ≡ peek_if_named env key s.db
current-peek env req key s =
    (current-Keeps (SamePeek env key s.db) (delete-SamePeek env key s.db)
        (touch-SamePeek env key s.db) env req).at
      s refl
