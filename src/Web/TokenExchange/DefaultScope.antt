-- ===== src/Web/TokenExchange/DefaultScope.antt =====
-- The scope of an exchange that names none.
use mathlib.Core.List.{Memᴰ}
use mathlib.Core.Path.{subst}
use omni_identity.Prelude.{
  String, Option, none, some, List, [], ◌∷◌, ◌≡◌, ◌↔◌, refl, sym, All, Bool-cases, inl, inr,
}
use omni_identity.Prelude.Text.{IsToken, join, fields-IsToken}
use omni_identity.Oidc.Scope.{contains, split_scope}
use omni_identity.Oidc.Scope.Laws.{
  Within, contains_of_mem, mem_of_contains, scopes_subset-Within, split_scope-join,
}
use omni_identity.Web.TokenExchange.{intersect_scopes, checked_scope, exchange_scope}

pub intersect_scopes_sound :
    (a b : List String) (s : String) → Memᴰ s (intersect_scopes a b) → Memᴰ s a × Memᴰ s b
unfolding intersect_scopes
intersect_scopes_sound [] b s m = elim m [ ]
intersect_scopes_sound (x ∷ a) b s m = elim (Bool-cases (contains b x)) [
  | inl e ↦ kept (mem_of_contains b x e) (intersect_scopes_sound a b s) (rw e at m)
  | inr e ↦ let (l, r) = intersect_scopes_sound a b s (rw e at m) in (Memᴰ.tail l, r)
]
  where
    kept :
        Memᴰ x b
        → (Memᴰ s (intersect_scopes a b) → Memᴰ s a × Memᴰ s b)
        → Memᴰ s (x ∷ intersect_scopes a b)
        → Memᴰ s (x ∷ a) × Memᴰ s b
    kept k ih (Memᴰ.head e) = (Memᴰ.head e, subst (λ t. Memᴰ t b) (sym e) k)
    kept k ih (Memᴰ.tail n) = let (l, r) = ih n in (Memᴰ.tail l, r)

intersect_scopes_complete :
    (a b : List String) (s : String) → Memᴰ s a → Memᴰ s b → Memᴰ s (intersect_scopes a b)
unfolding intersect_scopes
intersect_scopes_complete [] b s m k = elim m [ ]
intersect_scopes_complete (x ∷ a) b s (Memᴰ.head e) k =
    rw (contains_of_mem b x (subst (λ t. Memᴰ t b) e k)) (Memᴰ.head e)
intersect_scopes_complete (x ∷ a) b s (Memᴰ.tail m) k =
    let ih = intersect_scopes_complete a b s m k in
    elim (Bool-cases (contains b x)) [ inl e ↦ rw e (Memᴰ.tail ih) | inr e ↦ rw e ih ]

intersect_scopes-IsToken : (a b : List String) → All IsToken a → All IsToken (intersect_scopes a b)
unfolding intersect_scopes
intersect_scopes-IsToken [] b h = tt
intersect_scopes-IsToken (x ∷ a) b h = elim (Bool-cases (contains b x)) [
  | inl e ↦ rw e (h.0, intersect_scopes-IsToken a b h.1)
  | inr e ↦ rw e (intersect_scopes-IsToken a b h.1)
]

-- No scope at all is refused.
abbrev pub offered : List String → Option String
offered [] = none
offered (x ∷ xs) = some (join (x ∷ xs))

checked_scope-offered :
    (xs granted allowed : List String)
    → split_scope (join xs) ≡ xs
    → Within xs granted
    → Within xs allowed
    → checked_scope (join xs) granted allowed ≡ offered xs
checked_scope-offered [] granted allowed split g a = rw split refl
checked_scope-offered (x ∷ xs) granted allowed split g a =
    rw
      (
        split,
        (scopes_subset-Within (x ∷ xs) granted).1 g,
        (scopes_subset-Within (x ∷ xs) allowed).1 a,
      )
      refl

granted_words : (granted : String) → All IsToken (split_scope granted)
unfolding split_scope
granted_words granted = fields-IsToken granted

-- An exchange that names no scope is offered the scopes that are both in the grant and allowed to the
-- audience, all of them and no others, and is refused exactly if there are none; the scope that is
-- offered reads back as this list.
pub exchange_scope_default :
    (granted : String) (allowed : List String)
    → (exchange_scope "" (split_scope granted) allowed
        ≡ offered (intersect_scopes (split_scope granted) allowed))
      × (split_scope (join (intersect_scopes (split_scope granted) allowed))
          ≡ intersect_scopes (split_scope granted) allowed)
      × ((s : String)
          → Memᴰ s (intersect_scopes (split_scope granted) allowed)
            ↔ (Memᴰ s (split_scope granted) × Memᴰ s allowed))
unfolding exchange_scope
exchange_scope_default granted allowed =
    let g = split_scope granted in
    let split =
      split_scope-join (intersect_scopes g allowed)
        (intersect_scopes-IsToken g allowed (granted_words granted)) in
    (
      checked_scope-offered (intersect_scopes g allowed) g allowed split
          (λ s m. (intersect_scopes_sound g allowed s m).0)
          (λ s m. (intersect_scopes_sound g allowed s m).1),
      split,
      λ s. (intersect_scopes_sound g allowed s, λ p. intersect_scopes_complete g allowed s p.0 p.1),
    )
