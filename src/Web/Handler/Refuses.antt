-- ===== src/Web/Handler/Refuses.antt =====
-- Handlers that never end well.
use omni_identity.Prelude.{Bool, true, false, ◌≡◌, ◌≢◌, refl, if◌then◌else◌}
use omni_identity.Web.Server.{State}
use omni_identity.Web.Handler.{
  Handler, HttpError, Reply, done, refused, reject, when, continue, ◌>>=◌, ◌>>◌,
}

abbrev pub Refuses {ℓ} : {A : Type ℓ} → Handler A → Type ℓ
Refuses {A = A} m = (s : State) (a : A) → (m s).0 ≢ done a

module _ {ℓ} {A : Type ℓ} where
  pub reject-Refuses : (e : HttpError) → Refuses {A = A} (reject e)
  unfolding reject
  reject-Refuses e s a h = cc

  pub if-Refuses :
      (b : Bool) (m n : Handler A) → Refuses m → Refuses n → Refuses (if b then m else n)
  if-Refuses true m n x y = x
  if-Refuses false m n x y = y

module _ {ℓ κ} {A : Type ℓ} {B : Type κ} where
  continue-Refuses :
      (r : Reply B) (f : B → Handler A) (s : State) (a : A)
      → ((b : B) → Refuses (f b))
      → (continue r f s).0 ≢ done a
  continue-Refuses (done b) f s a h e = h b s a e
  continue-Refuses (refused x) f s a h e = cc

  -- What follows refuses, whatever comes before it.
  pub bind-Refuses :
      (m : Handler B) (f : B → Handler A) → ((b : B) → Refuses (f b)) → Refuses (m >>= f)
  unfolding ◌>>=◌
  bind-Refuses m f h s a e = continue-Refuses (m s).0 f (m s).1 a h e

continued {ℓ} :
    {A : Type 0} {B : Type ℓ} (r : Reply A) (f : A → Handler B) (s : State) {s' : State} {b : B}
    → ((a : A) → r ≢ done a)
    → continue r f s ≡ (done b, s')
    → ⊥
continued (done a) f s never e = never a refl
continued (refused x) f s never e = cc

-- A step that is taken only if `t` holds, and then ends the handler.
pub after_refusal {ℓ} :
    {B : Type ℓ} (t : Bool) (m : Handler (Unit {0})) (k : Handler B) (s : State) {s' : State}
    {b : B}
    → (when t m >> k) s ≡ (done b, s')
    → Refuses m
    → (t ≡ false) × (k s ≡ (done b, s'))
unfolding when ◌>>=◌
after_refusal true m k s h refuses = absurd (continued (m s).0 _ _ (λ a e. refuses s a e) h)
after_refusal false m k s h refuses = (refl, h)

pub never_done {ℓ} :
    {A : Type ℓ} (m : Handler A) (s : State) {a : A} {s' : State}
    → Refuses m
    → m s ≡ (done a, s')
    → ⊥
never_done m s {a} refuses h = refuses s a (cc)
