-- ===== src/Web/Authorize/Targets.antt =====
-- Where a reply sends the browser with an answer for a client, and rules to follow it through a
-- handler.
use mathlib.Core.Path.{subst}
use omni_identity.Prelude.{
  String, Bool, true, false, Option, none, some, ◌≡◌, refl, Bool-cases, inl, inr,
}
use omni_identity.Model.{is_nil}
use omni_identity.Store.Io.{Db, Result, ok, err}
use omni_identity.Web.Authorize.{Answer, code_to_client, redirect_err}
use omni_identity.Web.Handler.{
  Handler, HttpError, page, error_to_client, Reply, done, refused, query, exec, or_reject,
  find_or_reject, reject_if, continue, answer, present, ◌>>=◌, ◌>>◌,
}
use omni_identity.Web.Server.{Env, State}

abbrev pub error_uri : HttpError → Option String
error_uri (error_to_client uri code desc state) = some uri
error_uri _ = none

abbrev pub answer_uri : Answer → Option String
answer_uri (code_to_client uri code state) = some uri
answer_uri _ = none

abbrev pub nowhere {ℓ} : {A : Type ℓ} → A → Option String
nowhere a = none

abbrev pub target {ℓ} : {A : Type ℓ} → (A → Option String) → Reply A → Option String
target t (done a) = t a
target t (refused e) = error_uri e

-- The address that the reply is sent to, if any, satisfies `P`.
abbrev pub Sends {ℓ} : (String → Type 0) → {A : Type ℓ} → (A → Option String) → Reply A → Type 0
Sends P t r = (uri : String) → target t r ≡ some uri → P uri

module _ {ℓ} {A : Type ℓ} (P : String → Type 0) (t : A → Option String) where
  continue-Sends {κ} :
      {B : Type κ} (r : Reply B) (f : B → Handler A) (s : State)
      → Sends P nowhere r
      → ((b : B) → r ≡ done b → Sends P t (f b s).0)
      → Sends P t (continue r f s).0
  continue-Sends (done b) f s first rest = rest b refl
  continue-Sends (refused e) f s first rest = first

  pub bind-Sends {κ} :
      {B : Type κ} (m : Handler B) (f : B → Handler A) (s : State)
      → Sends P nowhere (m s).0
      → ((b : B) → (m s).0 ≡ done b → Sends P t (f b (m s).1).0)
      → Sends P t ((m >>= f) s).0
  unfolding ◌>>=◌
  bind-Sends m f s first rest = continue-Sends (m s).0 f (m s).1 first rest

-- The address that an error is sent to, if any, satisfies `P`.
abbrev pub SafeError : (String → Type 0) → HttpError → Type 0
SafeError P e = (uri : String) → error_uri e ≡ some uri → P uri

module _ (P : String → Type 0) where
  -- An error that goes to an address goes to this one.
  pub redirect_err-SafeError :
      (env : Env) (uri code desc st : String)
      → P uri
      → SafeError P (redirect_err env uri code desc st)
  unfolding redirect_err
  redirect_err-SafeError env uri code desc st safe got h =
      elim (Bool-cases (is_nil (env.pop.parse_url uri))) [
        | inl bad ↦ absurd (of_page (rw bad at h))
        | inr fine ↦ subst P (of_error (rw fine at h)) safe
      ]
    where
      of_page : {got : String} → error_uri (page 400 "invalid redirect_uri") ≡ some got → ⊥
      of_page h = cc

      of_error : {a b : String} → some a ≡ some b → a ≡ b
      of_error h = cc

  -- An answer that is sent to no address.
  pub silent : (uri : String) → ◌≡◌ {A = Option String} none (some uri) → P uri
  silent uri h = absurd (cc)

  pub reject_if-Sends :
      (b : Bool) (e : HttpError) (s : State) → SafeError P e → Sends P nowhere (reject_if b e s).0
  unfolding reject_if
  reject_if-Sends true e s safe = safe
  reject_if-Sends false e s safe = λ uri h. absurd (cc)

module _ {ℓ} {A : Type ℓ} (P : String → Type 0) where
  pub nowhere-Sends : (a : A) → Sends P nowhere (done a)
  nowhere-Sends a uri h = absurd (cc)

  pub query-Sends :
      (f : Db → Result A) (e : HttpError) (s : State)
      → SafeError P e
      → Sends P nowhere (query f e s).0
  unfolding query
  query-Sends f e s safe = of_row (f s.db)
    where
      of_row : (r : Result A) → Sends P nowhere (answer r e)
      of_row (ok a) = nowhere-Sends a
      of_row (err x) = safe

  pub exec-Sends :
      (f : Db → Result A × Db) (e : HttpError) (s : State)
      → SafeError P e
      → Sends P nowhere (exec f e s).0
  unfolding exec
  exec-Sends f e s safe = of_row (f s.db).0
    where
      of_row : (r : Result A) → Sends P nowhere (answer r e)
      of_row (ok a) = nowhere-Sends a
      of_row (err x) = safe

  pub or_reject-Sends :
      (o : Option A) (e : HttpError) (s : State)
      → SafeError P e
      → Sends P nowhere (or_reject o e s).0
  unfolding or_reject
  or_reject-Sends (some a) e s safe = nowhere-Sends a
  or_reject-Sends none e s safe = safe

  pub find_or_reject-Sends :
      (f : Db → Option A) (e : HttpError) (s : State)
      → SafeError P e
      → Sends P nowhere (find_or_reject f e s).0
  unfolding find_or_reject
  find_or_reject-Sends f e s safe = of_found (f s.db)
    where
      of_found : (o : Option A) → Sends P nowhere (present o e)
      of_found (some a) = nowhere-Sends a
      of_found none = safe

-- A handler that goes on unless a test holds.
pub unless-Sends {ℓ} :
    {A : Type ℓ} (P : String → Type 0) (t : A → Option String) (b : Bool) (e : HttpError)
    (k : Handler A) (s : State)
    → SafeError P e
    → (b ≡ false → Sends P t (k s).0)
    → Sends P t ((reject_if b e >> k) s).0
unfolding reject_if ◌>>=◌
unless-Sends P t true e k s safe rest = safe
unless-Sends P t false e k s safe rest = rest refl

-- The same for what is read from the database.
module _ {ℓ κ} {A : Type ℓ} {B : Type κ} (P : String → Type 0) (t : A → Option String) where
  pub find-Sends :
      (f : Db → Option B) (e : HttpError) (k : B → Handler A) (s : State)
      → SafeError P e
      → ((b : B) → f s.db ≡ some b → Sends P t (k b s).0)
      → Sends P t ((find_or_reject f e >>= k) s).0
  unfolding find_or_reject ◌>>=◌
  find-Sends f e k s safe rest = of_found (f s.db) rest
    where
      of_found :
          (o : Option B)
          → ((b : B) → o ≡ some b → Sends P t (k b s).0)
          → Sends P t (continue (present o e) k s).0
      of_found (some b) rest = rest b refl
      of_found none rest = safe
