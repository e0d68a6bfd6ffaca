-- ===== src/Web/Login/Reauth.antt =====
-- How the login form goes on with a session that the browser has.
use mathlib.Core.Path.{subst}
use omni_identity.Prelude.{
  String, true, Option, none, some, ◌∷◌, ◌≡◌, refl, sym, ap, ◌∙◌, arith, ◌==◌, Bool-cases, inl, inr,
}
use omni_identity.Model.{Session, AuthRequest, Client}
use omni_identity.Store.AuthRequests.{delete_auth_request}
use omni_identity.Store.Io.{Db, Io}
use omni_identity.Web.Authorize.{
  Answer, code_to_client, form_shown, AuthzParams, new_code, continue_after_auth, resumed,
}
use omni_identity.Web.Authorize.Issued.{issue_code-row, code_not_page}
use omni_identity.Web.Handler.{
  HttpError, Reply, done, refused, pure, after_bind, after_attempt, ended_as, done_inj, if_taken,
  if_passed, ◌>>=◌,
}
use omni_identity.Web.Login.{
  needs_setup, setup_first, signed_in, show_form, peek_if_named, form_for, handle_login_form,
}
use omni_identity.Web.Login.Parked.{ParkedFor, peek-ParkedFor, current-peek}
use omni_identity.Web.Server.{Env, Request, State}
use omni_identity.Web.Sessions.{current}
use omni_identity.Web.Sessions.Laws.{Live, current-Live, current-codes}

setup_first-state :
    (env : Env) (s : State) {u : Unit {0}} {s' : State} → setup_first env s ≡ (done u, s') → s' ≡ s
setup_first-state env s h = elim (Bool-cases (needs_setup env s.db)) [
  | inl needed ↦ absurd (refused_not_done (rw needed at h))
  | inr there ↦ (done_inj (rw there at h)).1
]
  where
    refused_not_done :
        {e : HttpError} {x y : State} {u : Unit {0}}
        → ◌≡◌ {A = Reply (Unit {0}) × State} (refused e, x) (done u, y)
        → ⊥
    refused_not_done h = cc

delete-codes :
    (io : Io) (id : String) (db : Db) → (delete_auth_request io id db).auth_codes ≡ db.auth_codes
unfolding delete_auth_request
delete-codes io id db = ground arith

-- A parked request that is continued ends in a code only where the client needs no consent.
continue_after_auth-row :
    (env : Env) (p : AuthzParams) (id : String) (sess : Session) (s : State) {uri code st : String}
    {s' : State}
    → continue_after_auth env p id sess.user_id sess.created_at sess.amr s
      ≡ (done (code_to_client uri code st), s')
    → (p.client.skip_consent ≡ true)
      × (s'.db.auth_codes ≡ new_code env p sess.user_id sess.created_at sess.amr ∷ s.db.auth_codes)
unfolding continue_after_auth pure
continue_after_auth-row env p id sess s h = elim (Bool-cases p.client.skip_consent) [
  | inl trusted ↦
      let h1 = after_attempt _ _ s (if_taken p.client.skip_consent _ _ s trusted h) in
      let (_, row) = issue_code-row env p sess.user_id sess.created_at sess.amr _ h1 in
      (
        trusted,
        row
            ∙ ap (λ xs. new_code env p sess.user_id sess.created_at sess.amr ∷ xs)
                (delete-codes env.io id s.db),
      )
  | inr asked ↦ absurd (code_not_page (done_inj (if_passed p.client.skip_consent _ _ s asked h)).0)
]

-- A code that the login form leads to is for the session that the browser has and for the request that
-- is parked.
pub record Reused (env : Env) (req : Request) (s s' : State) : Type 0 where
  pub sess : Session
  pub request : AuthRequest
  pub client : Client
  pub live : Live env req s.db sess
  pub parked : ParkedFor env (req.query_param "req") s.db request client
  pub trusted : client.skip_consent ≡ true
  pub row :
      s'.db.auth_codes
      ≡ new_code env (resumed request client) sess.user_id sess.created_at sess.amr
        ∷ s.db.auth_codes

code_not_form : {uri code st : String} → code_to_client uri code st ≡ form_shown → ⊥
code_not_form e = cc

show_form-answer :
    (env : Env) (req : Request) (s : State) {a : Answer} {s' : State}
    → show_form env req s ≡ (done a, s')
    → a ≡ form_shown
unfolding pure
show_form-answer env req s h = elim (Bool-cases (req.query_param "req" == "")) [
  | inl plain ↦ (done_inj (if_taken (req.query_param "req" == "") _ _ s plain h)).0
  | inr parked ↦
      let (_, _, h1) = after_bind _ _ s (if_passed (req.query_param "req" == "") _ _ s parked h) in
      (done_inj h1).0
]

-- What the form for a browser with a session has continued.
abbrev Continued : Env → Request → Session → Db → Db → Type 0
Continued env req sess db db' =
    (p : AuthzParams) × (peek_if_named env (req.query_param "req") db ≡ some p)
    × (p.client.skip_consent ≡ true)
    × (db'.auth_codes ≡ new_code env p sess.user_id sess.created_at sess.amr ∷ db.auth_codes)

signed_in-Continued :
    (env : Env) (req : Request) (sess : Session) (o : Option AuthzParams) (s : State)
    {uri code st : String} {s' : State}
    → peek_if_named env (req.query_param "req") s.db ≡ o
    → signed_in env req sess o s ≡ (done (code_to_client uri code st), s')
    → Continued env req sess s.db s'.db
signed_in-Continued env req sess none s found h = absurd (code_not_page (done_inj h).0)
signed_in-Continued env req sess (some p) s found h =
    let (trusted, row) = continue_after_auth-row env p (req.query_param "req") sess s h in
    (p, found, trusted, row)

form_for-session :
    (env : Env) (req : Request) (o : Option Session) (s : State) {uri code st : String} {s' : State}
    → form_for env req o s ≡ (done (code_to_client uri code st), s')
    → (sess : Session) × (o ≡ some sess) × Continued env req sess s.db s'.db
form_for-session env req none s h = absurd (code_not_form (show_form-answer env req s h))
form_for-session env req (some sess) s h = (sess, refl, signed_in-Continued env req sess _ s refl h)

-- The login form answers with a code only for a browser that has a live session and a request that is
-- parked under the id given, whose client is stored, enabled, registered for the request's address and
-- needs no consent. The code is for this request and for the user of that session, and has the time of
-- its login.
pub handle_login_form-Reused :
    (env : Env) (req : Request) (s : State) {uri code st : String} {s' : State}
    → handle_login_form env req s ≡ (done (code_to_client uri code st), s')
    → Reused env req s s'
unfolding handle_login_form
handle_login_form-Reused env req s {uri} {code} {st} {s'} h =
    let (_, begun, h1) = after_bind _ _ s h in
    let h2 : (current env req >>= form_for env req) s ≡ (done (code_to_client uri code st), s') =
      subst
        (λ x. (current env req >>= form_for env req) x ≡ (done (code_to_client uri code st), s'))
        (setup_first-state env s (ended_as _ begun)) h1 in
    let (o, looked, h3) = after_bind _ _ s h2 in
    let (sess, there, continued) = form_for-session env req o _ h3 in
    let (p, found, trusted, row) = continued in
    let (a, client, parked, same) =
      peek-ParkedFor env (req.query_param "req") s.db
        (sym (current-peek env req (req.query_param "req") s) ∙ found) in
    record {
      sess = sess;
      request = a;
      client = client;
      live = current-Live env req s (ended_as _ (looked ∙ ap (λ x. done x) there));
      parked = parked;
      trusted = sym (ap (λ (x : AuthzParams). x.client.skip_consent) same) ∙ trusted;
      row =
          row
          ∙ (ap (λ xs. new_code env p sess.user_id sess.created_at sess.amr ∷ xs)
                (current-codes env req s)
              ∙ ap (λ x. new_code env x sess.user_id sess.created_at sess.amr ∷ s.db.auth_codes)
                  same);
    }
