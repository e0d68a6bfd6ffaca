-- ===== src/Web/Handler.antt =====
-- Handlers as actions: they change the state and end in a value or in the error response that they
-- write. What was changed before an error stays changed.
pub mod Keeps
pub mod Refuses
use mathlib.Core.Path.{subst}
use omni_identity.Prelude.{
  ℕ, String, Bool, true, false, Option, none, some, ◌∷◌, ◌≡◌, refl, ap, ◌⊎◌, arith, sym,
  if◌then◌else◌,
}
use omni_identity.Model.{AuditEvent}
use omni_identity.Store.Io.{Db, Result, ok, err}
use omni_identity.Store.Clients.{append_audit_event}
use omni_identity.Web.Server.{Env, Request, State, Metric}

-- oauthError: the status, the error code and the description; a page that is shown in place of an
-- answer: the status and its message; an error that the browser takes back to the client: the
-- address, the code, the description and the state; another page that the browser is sent to; and a
-- run-time panic.
pub data HttpError : Type 0 where
  oauth_error : ℕ → String → String → HttpError
  page : ℕ → String → HttpError
  error_to_client : String → String → String → String → HttpError
  see_other : String → HttpError
  panicked : HttpError

pub data Reply {ℓ} (A : Type ℓ) : Type ℓ where
  done : A → Reply A
  refused : HttpError → Reply A

abbrev pub Handler {ℓ} : Type ℓ → Type ℓ
Handler A = State → Reply A × State

module _ {ℓ} {A : Type ℓ} where
  unfoldable pub pure : A → Handler A
  pure a s = (done a, s)

  unfoldable pub reject : HttpError → Handler A
  reject e s = (refused e, s)

  -- x, err := f(db); if err != nil { return e }.
  abbrev pub answer : Result A → HttpError → Reply A
  answer (ok a) e = done a
  answer (err _) e = refused e

  unfoldable pub query : (Db → Result A) → HttpError → Handler A
  query f e s = (answer (f s.db) e, s)

  unfoldable pub exec : (Db → Result A × Db) → HttpError → Handler A
  exec f e s = let (r, db) = f s.db in (answer r e, record s { db = db })

  abbrev pub present : Option A → HttpError → Reply A
  present (some a) e = done a
  present none e = refused e

  unfoldable pub or_reject : Option A → HttpError → Handler A
  or_reject o e s = (present o e, s)

  -- The same for what is read from the database.
  unfoldable pub find_or_reject : (Db → Option A) → HttpError → Handler A
  find_or_reject f e s = (present (f s.db) e, s)

module _ {ℓ κ} {A : Type ℓ} {B : Type κ} where
  abbrev pub continue : Reply A → (A → Handler B) → Handler B
  continue (done a) f s = f a s
  continue (refused e) f s = (refused e, s)

  infixl 5 ◌>>=◌
  unfoldable pub ◌>>=◌ : Handler A → (A → Handler B) → Handler B
  ◌>>=◌ m f s = let (r, s') = m s in continue r f s'

module _ {ℓ} {B : Type ℓ} where
  infixl 5 ◌>>◌
  abbrev pub ◌>>◌ : Handler (Unit {0}) → Handler B → Handler B
  m >> n = m >>= λ _. n

-- A change of the database where the source drops the error.
unfoldable pub attempt : (Db → Db) → Handler (Unit {0})
attempt f s = (done tt, record s { db = f s.db })

-- if b { … }.
unfoldable pub when : Bool → Handler (Unit {0}) → Handler (Unit {0})
when b m s = if b then m s else (done tt, s)

-- if b { oauthError(…); return }.
unfoldable pub reject_if : Bool → HttpError → Handler (Unit {0})
reject_if b e s = if b then (refused e, s) else (done tt, s)

abbrev pub reject_some : Option HttpError → Handler (Unit {0})
reject_some none = pure tt
reject_some (some e) = reject e

unfoldable pub record_metric : Metric → Handler (Unit {0})
record_metric m s = (done tt, record s { metrics = m ∷ s.metrics })

-- The variable fields of an audit record.
pub record AuditEntry : Type 0 where
  pub actor_user_id : String
  pub username : String
  pub client_id : String
  pub success : Bool
  pub detail : String

abbrev pub audit_event : Env → Request → String → AuditEntry → AuditEvent
audit_event env req event e = record {
  id = env.audit_id;
  created_at = env.io.now;
  event = event;
  actor_user_id = e.actor_user_id;
  username = e.username;
  client_id = e.client_id;
  ip = req.ip;
  user_agent = req.user_agent;
  success = e.success;
  detail = e.detail;
}

unfoldable pub audit : Env → Request → String → AuditEntry → Handler (Unit {0})
audit env req event e = attempt (append_audit_event env.io (audit_event env req event e))

module _ {ℓ} {A : Type ℓ} where
  answer-eq-done : (r : Result A) (e : HttpError) {a : A} → answer r e ≡ done a → r ≡ ok a
  answer-eq-done (ok a) e h = cc
  answer-eq-done (err _) e h = cc

  present-eq-done : (o : Option A) (e : HttpError) {a : A} → present o e ≡ done a → o ≡ some a
  present-eq-done (some a) e h = cc
  present-eq-done none e h = cc

-- What a handler that ends well has done: one inversion lemma for each first step, which gives what
-- the step has found and how the rest goes on.
module _ {ℓ κ} {A : Type ℓ} {B : Type κ} where
  -- How a handler ends well that starts with `m`.
  continue-eq-done :
      (r : Reply A) (f : A → Handler B) (s : State) {b : B} {s' : State}
      → continue r f s ≡ (done b, s')
      → (a : A) × (r ≡ done a) × (f a s ≡ (done b, s'))
  continue-eq-done (done a) f s h = (a, refl, h)
  continue-eq-done (refused e) f s h = absurd (cc)

  pub after_bind :
      (m : Handler A) (f : A → Handler B) (s : State) {s' : State} {b : B}
      → (m >>= f) s ≡ (done b, s')
      → (a : A) × ((m s).0 ≡ done a) × (f a (m s).1 ≡ (done b, s'))
  unfolding ◌>>=◌
  after_bind m f s h = continue-eq-done (m s).0 f (m s).1 h

  pub after_query :
      (g : Db → Result A) (e : HttpError) (f : A → Handler B) (s : State) {s' : State} {b : B}
      → (query g e >>= f) s ≡ (done b, s')
      → (a : A) × (g s.db ≡ ok a) × (f a s ≡ (done b, s'))
  unfolding query
  after_query g e f s h =
      let (a, found, rest) = after_bind (query g e) f s h in
      (a, answer-eq-done (g s.db) e found, rest)

  pub after_exec :
      (g : Db → Result A × Db) (e : HttpError) (f : A → Handler B) (s : State) {s' : State} {b : B}
      → (exec g e >>= f) s ≡ (done b, s')
      → (a : A) × ((g s.db).0 ≡ ok a) × (f a (record s { db = (g s.db).1 }) ≡ (done b, s'))
  unfolding exec
  after_exec g e f s h =
      let (a, found, rest) = after_bind (exec g e) f s h in
      (a, answer-eq-done (g s.db).0 e found, rest)

  pub after_or_reject :
      (o : Option A) (e : HttpError) (f : A → Handler B) (s : State) {s' : State} {b : B}
      → (or_reject o e >>= f) s ≡ (done b, s')
      → (a : A) × (o ≡ some a) × (f a s ≡ (done b, s'))
  unfolding or_reject
  after_or_reject o e f s h =
      let (a, found, rest) = after_bind (or_reject o e) f s h in
      (a, present-eq-done o e found, rest)

  pub after_find :
      (g : Db → Option A) (e : HttpError) (f : A → Handler B) (s : State) {s' : State} {b : B}
      → (find_or_reject g e >>= f) s ≡ (done b, s')
      → (a : A) × (g s.db ≡ some a) × (f a s ≡ (done b, s'))
  unfolding find_or_reject
  after_find g e f s h =
      let (a, found, rest) = after_bind (find_or_reject g e) f s h in
      (a, present-eq-done (g s.db) e found, rest)

module _ {ℓ} {B : Type ℓ} where
  pub after_reject_if :
      (t : Bool) (e : HttpError) (k : Handler B) (s : State) {s' : State} {b : B}
      → (reject_if t e >> k) s ≡ (done b, s')
      → (t ≡ false) × (k s ≡ (done b, s'))
  unfolding reject_if ◌>>=◌
  after_reject_if true e k s h = absurd (cc)
  after_reject_if false e k s h = (refl, h)

  pub after_reject_some :
      (o : Option HttpError) (k : Handler B) (s : State) {s' : State} {b : B}
      → (reject_some o >> k) s ≡ (done b, s')
      → (o ≡ none) × (k s ≡ (done b, s'))
  unfolding pure reject ◌>>=◌
  after_reject_some (some e) k s h = absurd (cc)
  after_reject_some none k s h = (refl, h)

  -- A step that runs only if `t` holds, and always ends well.
  pub after_unless :
      (t : Bool) (m : Handler (Unit {0})) (e : HttpError) (k : Handler B) (s : State) {s' : State}
      {b : B}
      → (when t (m >> reject e) >> k) s ≡ (done b, s')
      → ((s : State) → (m s).0 ≡ done tt)
      → (t ≡ false) × (k s ≡ (done b, s'))
  unfolding when reject ◌>>=◌
  after_unless true m e k s h ends = absurd (ground (arith, ends s))
  after_unless false m e k s h ends = (refl, h)

  pub after_attempt :
      (f : Db → Db) (k : Handler B) (s : State) {s' : State} {b : B}
      → (attempt f >> k) s ≡ (done b, s')
      → k (record s { db = f s.db }) ≡ (done b, s')
  unfolding attempt ◌>>=◌
  after_attempt f k s h = h

-- The branch of a test whose result is known.
module _ {ℓ} {A : Type ℓ} where
  pub if_taken :
      (b : Bool) (m n : Handler A) (s : State) {r : Reply A × State}
      → b ≡ true
      → (if b then m else n) s ≡ r
      → m s ≡ r
  if_taken true m n s e h = h
  if_taken false m n s e h = absurd (cc)

  pub if_passed :
      (b : Bool) (m n : Handler A) (s : State) {r : Reply A × State}
      → b ≡ false
      → (if b then m else n) s ≡ r
      → n s ≡ r
  if_passed false m n s e h = h
  if_passed true m n s e h = absurd (cc)

-- A pair whose reply is known.
pub ended_as {ℓ} : {A : Type ℓ} {a : A} (x : Reply A × State) → x.0 ≡ done a → x ≡ (done a, x.1)
ended_as (r, s) e = ap (λ y. (y, s)) e

pub done_inj {ℓ} :
    {A : Type ℓ} {a b : A} {s s' : State}
    → ◌≡◌ {A = Reply A × State} (done a, s) (done b, s')
    → (b ≡ a) × (s' ≡ s)
done_inj h = (cc, cc)

-- A search that ends well, as the last step.
pub found {ℓ} :
    {A : Type ℓ} (g : Db → Option A) (e : HttpError) (s : State) {a : A} {s' : State}
    → find_or_reject g e s ≡ (done a, s')
    → (g s.db ≡ some a) × (s' ≡ s)
unfolding find_or_reject
found g e s h = (present-eq-done (g s.db) e (ap (λ x. x.0) h), sym (ap (λ x. x.1) h))

-- A first step that leaves the state as it is where it ends well.
pub after_still {ℓ κ} :
    {A : Type ℓ} {B : Type κ} (m : Handler A) (f : A → Handler B) (s : State) {s' : State} {b : B}
    → ((a : A) (t : State) → m s ≡ (done a, t) → t ≡ s)
    → (m >>= f) s ≡ (done b, s')
    → (a : A) × (m s ≡ (done a, s)) × (f a s ≡ (done b, s'))
after_still m f s {s'} {b} still h =
    let (a, ended, rest) = after_bind m f s h in
    let full = ended_as (m s) ended in
    let same = still a (m s).1 full in
    (a, subst (λ t. m s ≡ (done a, t)) same full, subst (λ t. f a t ≡ (done b, s')) same rest)
