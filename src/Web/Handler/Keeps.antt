-- ===== src/Web/Handler/Keeps.antt =====
-- Invariants of handlers: `Keeps P m` says that `m` keeps the predicate `P` of the database,
-- whatever it replies. One rule for each way to build a handler.
use mathlib.Core.Path.{subst}
use omni_identity.Prelude.{◌≡◌, ap, Bool, true, false, Option, none, some, if◌then◌else◌}
use omni_identity.Store.Io.{Db, Result}
use omni_identity.Web.Server.{State, Metric}
use omni_identity.Web.Handler.{
  Handler, HttpError, Reply, done, refused, pure, reject, query, exec, attempt, or_reject,
  find_or_reject, reject_some, when, reject_if, record_metric, continue, ◌>>=◌,
}

pub record Keeps {ℓ κ} {A : Type ℓ} (P : Db → Type κ) (m : Handler A) : Type (ℓ ⊔ κ) where
  pub at : (s : State) → P s.db → P (m s).1.db

module _ {ℓ κ} {A : Type ℓ} {P : Db → Type κ} where
  pub Keeps-pure : (a : A) → Keeps P (pure a)
  unfolding pure
  Keeps-pure a = record { at = λ s h. h }

  pub Keeps-reject : (e : HttpError) → Keeps {A = A} P (reject e)
  unfolding reject
  Keeps-reject e = record { at = λ s h. h }

  pub Keeps-query : (f : Db → Result A) (e : HttpError) → Keeps P (query f e)
  unfolding query
  Keeps-query f e = record { at = λ s h. h }

  pub Keeps-or_reject : (o : Option A) (e : HttpError) → Keeps P (or_reject o e)
  unfolding or_reject
  Keeps-or_reject o e = record { at = λ s h. h }

  pub Keeps-find_or_reject : (f : Db → Option A) (e : HttpError) → Keeps P (find_or_reject f e)
  unfolding find_or_reject
  Keeps-find_or_reject f e = record { at = λ s h. h }

  pub Keeps-exec :
      (f : Db → Result A × Db) (e : HttpError)
      → ((db : Db) → P db → P (f db).1)
      → Keeps P (exec f e)
  unfolding exec
  Keeps-exec f e k = record { at = λ s h. k s.db h }

module _ {κ} {P : Db → Type κ} where
  pub Keeps-attempt : (f : Db → Db) → ((db : Db) → P db → P (f db)) → Keeps P (attempt f)
  unfolding attempt
  Keeps-attempt f k = record { at = λ s h. k s.db h }

  pub Keeps-when : (b : Bool) (m : Handler (Unit {0})) → Keeps P m → Keeps P (when b m)
  unfolding when
  Keeps-when true m k = record { at = λ s h. k.at s h }
  Keeps-when false m k = record { at = λ s h. h }

  pub Keeps-reject_if : (b : Bool) (e : HttpError) → Keeps P (reject_if b e)
  unfolding reject_if
  Keeps-reject_if true e = record { at = λ s h. h }
  Keeps-reject_if false e = record { at = λ s h. h }

  pub Keeps-record_metric : (m : Metric) → Keeps P (record_metric m)
  unfolding record_metric
  Keeps-record_metric m = record { at = λ s h. h }

  pub Keeps-reject_some : (e : Option HttpError) → Keeps P (reject_some e)
  Keeps-reject_some none = Keeps-pure tt
  Keeps-reject_some (some e) = Keeps-reject e

module _ {ℓ κ} {A : Type ℓ} {P : Db → Type κ} where
  pub Keeps-if : (b : Bool) (m n : Handler A) → Keeps P m → Keeps P n → Keeps P (if b then m else n)
  Keeps-if true m n km kn = km
  Keeps-if false m n km kn = kn

module _ {ℓ μ κ} {A : Type ℓ} {B : Type μ} {P : Db → Type κ} where
  continue-keeps :
      (r : Reply A) (f : A → Handler B) (s : State)
      → ((a : A) → Keeps P (f a))
      → P s.db
      → P (continue r f s).1.db
  continue-keeps (done a) f s k h = (k a).at s h
  continue-keeps (refused e) f s k h = h

  pub Keeps-bind :
      (m : Handler A) (f : A → Handler B)
      → Keeps P m
      → ((a : A) → Keeps P (f a))
      → Keeps P (m >>= f)
  unfolding ◌>>=◌
  Keeps-bind m f km kf = record { at = λ s h. continue-keeps (m s).0 f (m s).1 kf (km.at s h) }

pub ruleset keeps_rules = (
  Keeps-pure, Keeps-find_or_reject, Keeps-reject_some, Keeps-reject, Keeps-query, Keeps-or_reject,
  Keeps-when, Keeps-reject_if, Keeps-record_metric, Keeps-bind,
)

pub kept {ℓ κ} :
    {A : Type ℓ} (P : Db → Type κ) (m : Handler A) (s : State) {a : A} {s' : State}
    → Keeps P m
    → m s ≡ (done a, s')
    → P s.db
    → P s'.db
kept P m s k h p = subst P (ap (λ x. x.1.db) h) (k.at s p)
