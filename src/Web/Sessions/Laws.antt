-- ===== src/Web/Sessions/Laws.antt =====
-- Which sessions count: one that the cookie names, that has not expired and has not been idle.
use omni_identity.Prelude.{
  ◌⊎◌, ℕ, String, Bool, true, false, not, Option, none, some, ◌≡◌, refl, arith, ◌==◌, ltb,
  if◌then◌else◌, find, Bool-cases, inl, inr,
}
use omni_identity.Model.{Session}
use omni_identity.Store.Io.{Db, Io, Result, ok, err, Stmt}
use omni_identity.Store.Sessions.{get_session_row, unexpired, delete_session_row, touch_session_row}
use omni_identity.Web.Server.{Env, Request, State}
use omni_identity.Web.Handler.{Reply, done}
use omni_identity.Web.Handler.Keeps.{Keeps}
use omni_identity.Web.Sessions.{current, seen, session_cookie, idle}

abbrev pub with_id : String → Session → Bool
with_id id s = s.id == id

-- `sess` is the live session of the request's browser; `stored` is its row.
pub record Live (env : Env) (req : Request) (db : Db) (sess : Session) : Type 0 where
  pub stored : Session
  pub cookie : (req.cookie session_cookie == "") ≡ false
  pub row : find (with_id (req.cookie session_cookie)) db.sessions ≡ some stored
  pub unexpired : ltb stored.expires_at env.io.now ≡ false
  pub busy : ltb 0 env.settings.session_idle_timeout ≡ true → idle env stored ≡ false
  pub user : sess.user_id ≡ stored.user_id
  pub time : sess.created_at ≡ stored.created_at
  pub factors : sess.amr ≡ stored.amr

unexpired-ok :
    (now : ℕ) (o : Option Session) {r : Session}
    → unexpired now o ≡ ok r
    → (o ≡ some r) × (ltb r.expires_at now ≡ false)
unexpired-ok now none h = absurd (cc)
unexpired-ok now (some s) h = elim (Bool-cases (ltb s.expires_at now)) [
  | inl e ↦ absurd (ground arith)
  | inr e ↦ (ground arith, ground arith)
]

get_session_row-ok :
    (io : Io) (id : String) (db : Db) {r : Session}
    → get_session_row io id db ≡ ok r
    → (find (with_id id) db.sessions ≡ some r) × (ltb r.expires_at io.now ≡ false)
unfolding get_session_row
get_session_row-ok io id db h = elim (Bool-cases (io.fails Stmt.get_session)) [
  | inl broken ↦ absurd (ground arith)
  | inr works ↦ unexpired-ok io.now (find (with_id id) db.sessions) (rw works at h)
]

abbrev pub Seen : Type 0
Seen = Reply (Option Session) × State

abbrev pub choose : Bool → Bool → Seen → Seen → Seen → Seen
choose on late a b c = if not on then a else if late then b else c

-- What `current` answers where the store gives a row.
settled :
    (on late : Bool) (y : State) {a b sess : Session} {x z s' : State}
    → choose on late (done (some a), x) (done none, y) (done (some b), z) ≡ (done (some sess), s')
    → (on ≡ true → late ≡ false) × (((sess ≡ a) × (s' ≡ x)) ⊎ ((sess ≡ b) × (s' ≡ z)))
settled false late y h = (λ e. cc, inl (cc, cc))
settled true true y h = absurd (cc)
settled true false y h = (λ e. refl, inr (cc, cc))

-- The session that is answered is the row, but for the time at which it was last seen.
abbrev SameLogin : Session → Session → Type 0
SameLogin sess r =
    (sess.user_id ≡ r.user_id) × (sess.created_at ≡ r.created_at) × (sess.amr ≡ r.amr)

seen-SameLogin :
    (env : Env) (r : Session) (s : State) {sess : Session} {s' : State}
    → seen env (ok r) s ≡ (done (some sess), s')
    → (ltb 0 env.settings.session_idle_timeout ≡ true → idle env r ≡ false) × SameLogin sess r
seen-SameLogin env r s h =
    let (fresh, which) = settled (ltb 0 env.settings.session_idle_timeout) (idle env r) _ h in
    (
      fresh,
      elim which [
        | inl (same, _) ↦ rw same (refl, refl, refl)
        | inr (touched, _) ↦ rw touched (refl, refl, refl)
      ],
    )

-- A session that `current` gives is the one that the request's cookie names: its row is stored, has
-- not expired and, where sessions end by idleness, was last used within the time allowed, and its
-- user, the time of its login and the factors used are those of the row.
pub current-Live :
    (env : Env) (req : Request) (s : State) {sess : Session} {s' : State}
    → current env req s ≡ (done (some sess), s')
    → Live env req s.db sess
unfolding current
current-Live env req s h = elim (Bool-cases (req.cookie session_cookie == "")) [
  | inl none_sent ↦ absurd (ground arith)
  | inr sent ↦
      let (r, found, h1) =
        of_row (get_session_row env.io (req.cookie session_cookie) s.db) (rw sent at h) in
      let (row, unexpired) = get_session_row-ok env.io (req.cookie session_cookie) s.db found in
      let (busy, same) = seen-SameLogin env r s h1 in
      record {
        stored = r;
        cookie = sent;
        row = row;
        unexpired = unexpired;
        busy = busy;
        user = same.0;
        time = same.1;
        factors = same.2;
      }
]
  where
    of_row :
        (r : Result Session) {sess : Session} {s' : State}
        → seen env r s ≡ (done (some sess), s')
        → (stored : Session) × (r ≡ ok stored) × (seen env (ok stored) s ≡ (done (some sess), s'))
    of_row (ok stored) h = (stored, refl, h)
    of_row (err e) h = absurd (cc)

module _ (P : Db → Type 0)
    (drop : (io : Io) (id : String) (db : Db) → P db → P (delete_session_row io id db))
    (touch : (io : Io) (id : String) (t : ℕ) (db : Db)
      → P db
      → P (touch_session_row io id t db)) where
  choose-keeps :
      (on late : Bool) (a b c : Seen)
      → P a.1.db
      → P b.1.db
      → P c.1.db
      → P (choose on late a b c).1.db
  choose-keeps false late a b c x y z = x
  choose-keeps true true a b c x y z = y
  choose-keeps true false a b c x y z = z

  seen-keeps : (env : Env) (r : Result Session) (s : State) → P s.db → P (seen env r s).1.db
  seen-keeps env (err e) s h = h
  seen-keeps env (ok r) s h =
      choose-keeps (ltb 0 env.settings.session_idle_timeout) (idle env r) _ _ _ h
        (drop env.io r.id s.db h) (touch env.io r.id env.io.now s.db h)

  -- Looking a session up keeps what a change of the sessions keeps.
  pub current-Keeps : (env : Env) (req : Request) → Keeps P (current env req)
  unfolding current
  current-Keeps env req = record {
    at = λ s h. elim (Bool-cases (req.cookie session_cookie == "")) [
      | inl none_sent ↦ rw none_sent h
      | inr sent ↦
          rw sent (seen-keeps env (get_session_row env.io (req.cookie session_cookie) s.db) s h)
    ];
  }

abbrev SameCodes : Db → Db → Type 0
SameCodes db db' = db'.auth_codes ≡ db.auth_codes

delete-SameCodes :
    (start : Db) (io : Io) (id : String) (db : Db)
    → SameCodes start db
    → SameCodes start (delete_session_row io id db)
unfolding delete_session_row
delete-SameCodes start io id db h = elim (Bool-cases (io.fails Stmt.delete_session)) [
  | inl bad ↦ rw bad h
  | inr fine ↦ rw fine h
]

touch-SameCodes :
    (start : Db) (io : Io) (id : String) (t : ℕ) (db : Db)
    → SameCodes start db
    → SameCodes start (touch_session_row io id t db)
unfolding touch_session_row
touch-SameCodes start io id t db h = elim (Bool-cases (io.fails Stmt.touch_session)) [
  | inl bad ↦ rw bad h
  | inr fine ↦ rw fine h
]

pub current-codes :
    (env : Env) (req : Request) (s : State) → (current env req s).1.db.auth_codes ≡ s.db.auth_codes
current-codes env req s =
    (current-Keeps (SameCodes s.db) (delete-SameCodes s.db) (touch-SameCodes s.db) env req).at s
      refl
