-- ===== src/Oidc/Scope/Laws.antt =====
-- What the tests of a scope decide.
use mathlib.Core.List.{Memᴰ}
use mathlib.Core.Path.{subst⁻¹}
use omni_identity.Prelude.{
  String, true, List, [], ◌∷◌, ◌≡◌, ◌↔◌, refl, All, sym, ◌==◌, arith, eq_iff, inl, inr, Bool-cases,
  eq_of_test,
}
use omni_identity.Prelude.Text.{IsToken, join, fields-join}
use omni_identity.Oidc.Scope.{contains, split_scope, scopes_subset}

pub mem_of_contains : (xs : List String) (s : String) → contains xs s ≡ true → Memᴰ s xs
unfolding contains
mem_of_contains [] s h = absurd (cc)
mem_of_contains (x ∷ xs) s h = elim (Bool-cases (x == s)) [
  | inl e ↦ Memᴰ.head (sym (eq_of_test x s e))
  | inr e ↦ Memᴰ.tail (mem_of_contains xs s (ground arith))
]

pub contains_of_mem : (xs : List String) (s : String) → Memᴰ s xs → contains xs s ≡ true
unfolding contains
contains_of_mem [] s m = elim m [ ]
contains_of_mem (x ∷ xs) s (Memᴰ.head e) = ground (arith, eq_iff x s)
contains_of_mem (x ∷ xs) s (Memᴰ.tail m) = ground (arith, contains_of_mem xs s m)

-- Every requested scope is among the allowed ones: what the test means.
abbrev pub Within : List String → List String → Type 0
Within requested allowed = (s : String) → Memᴰ s requested → Memᴰ s allowed

pub scopes_subset_sound :
    (requested allowed : List String)
    → scopes_subset requested allowed ≡ true
    → Within requested allowed
unfolding scopes_subset
scopes_subset_sound [] allowed h s m = elim m [ ]
scopes_subset_sound (r ∷ rs) allowed h s (Memᴰ.head e) =
    subst⁻¹ (λ t. Memᴰ t allowed) e (mem_of_contains allowed r (ground arith))
scopes_subset_sound (r ∷ rs) allowed h s (Memᴰ.tail m) =
    scopes_subset_sound rs allowed (ground arith) s m

scopes_subset_complete :
    (requested allowed : List String)
    → Within requested allowed
    → scopes_subset requested allowed ≡ true
unfolding scopes_subset
scopes_subset_complete [] allowed h = refl
scopes_subset_complete (r ∷ rs) allowed h = ground (
  arith,
  contains_of_mem allowed r (h r (Memᴰ.head refl)),
  scopes_subset_complete rs allowed (λ s m. h s (Memᴰ.tail m)),
)

-- The subset test passes exactly if every requested scope is among the allowed ones, whatever the
-- order and the repetitions in either list.
pub scopes_subset-Within :
    (requested allowed : List String)
    → (scopes_subset requested allowed ≡ true) ↔ Within requested allowed
scopes_subset-Within requested allowed =
    (scopes_subset_sound requested allowed, scopes_subset_complete requested allowed)

-- Splitting a scope text that joins words with a space gives the words back.
pub split_scope-join : (xs : List String) → All IsToken xs → split_scope (join xs) ≡ xs
unfolding split_scope
split_scope-join xs h = fields-join xs h
