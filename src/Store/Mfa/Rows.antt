-- ===== src/Store/Mfa/Rows.antt =====
-- What the statements on recovery codes do to the codes that can still be used.
use omni_identity.Prelude.{
  String, Bool, true, false, ◌&&◌, ◌||◌, Option, none, some, List, [], ◌∷◌, ◌≡◌, refl, sym, ◌∙◌, ap,
  arith, ◌==◌, eq_iff, if◌then◌else◌, any, update_where, delete_where, Bool-cases, inl, inr,
  none-update_where_all,
}
use omni_identity.Model.{RecoveryCode}
use omni_identity.Store.Mfa.{of_user, unused_code, spend, insert_codes}

abbrev pub hashed : String → RecoveryCode → Bool
hashed h c = c.code_hash == h

any_where :
    (q p : RecoveryCode → Bool) (f : RecoveryCode → RecoveryCode) (rows : List RecoveryCode)
    → ((c : RecoveryCode) → p c ≡ true → q (f c) ≡ q c)
    → any q (update_where p f rows) ≡ any q rows
unfolding any update_where
any_where q p f [] keep = refl
any_where q p f (c ∷ rows) keep = ground (arith, keep c, any_where q p f rows keep)

-- A code of another user, or of another hash, is not touched.
unused-other :
    (u k v h : String) (c : RecoveryCode)
    → (v == u && h == k) ≡ false
    → unused_code u k c ≡ true
    → unused_code v h (spend c) ≡ unused_code v h c
unused-other u k v h c other hit = ground (
  arith,
  eq_iff c.user_id u,
  eq_iff c.user_id v,
  eq_iff v u,
  eq_iff c.code_hash k,
  eq_iff c.code_hash h,
  eq_iff h k,
)

unused-same :
    (u k v h : String) (c : RecoveryCode)
    → (v == u && h == k) ≡ true
    → unused_code v h c ≡ true
    → unused_code u k c ≡ true
unused-same u k v h c same hit = ground (
  arith,
  eq_iff c.user_id u,
  eq_iff c.user_id v,
  eq_iff v u,
  eq_iff c.code_hash k,
  eq_iff c.code_hash h,
  eq_iff h k,
)

pub consumed_rows :
    (u k v h : String) (rows : List RecoveryCode)
    → any (unused_code v h) (update_where (unused_code u k) spend rows)
      ≡ (if v == u && h == k then false else any (unused_code v h) rows)
consumed_rows u k v h rows = elim (Bool-cases (v == u && h == k)) [
  | inl same ↦ rw same (
      none-update_where_all (unused_code v h) (unused_code u k) spend rows
        (λ c hit. unused-same u k v h c same hit) (λ c hit. ground arith))
  | inr other ↦ rw other (
      any_where (unused_code v h) (unused_code u k) spend rows
        (λ c hit. unused-other u k v h c other hit))
]

pub removed_rows :
    (u v h : String) (rows : List RecoveryCode)
    → any (unused_code v h) (delete_where (of_user u) rows)
      ≡ (if v == u then false else any (unused_code v h) rows)
unfolding any delete_where
removed_rows u v h [] = ground arith
removed_rows u v h (c ∷ rows) =
    ground (arith, removed_rows u v h rows, eq_iff c.user_id u, eq_iff c.user_id v, eq_iff v u)

some_inj : {a b : List RecoveryCode} → some a ≡ some b → a ≡ b
some_inj h = cc

no_more : (a b : Bool) → ((a && false) || b) ≡ b
no_more true b = refl
no_more false b = refl

-- The set after one more row.
one_more :
    (u v h : String) (c : RecoveryCode) (more old : Bool)
    → ((v == u && more)
        || (if unused_code v h (record c { user_id = u; used = false }) then true else old))
      ≡ ((v == u && (if hashed h c then true else more)) || old)
one_more u v h c more old = ground (arith, eq_iff u v, eq_iff v u)

pub inserted_rows :
    (u v h : String) (cs rows : List RecoveryCode) {got : List RecoveryCode}
    → insert_codes u cs rows ≡ some got
    → any (unused_code v h) got ≡ ((v == u && any (hashed h) cs) || any (unused_code v h) rows)
unfolding insert_codes any
inserted_rows u v h [] rows e =
    ap (any (unused_code v h)) (some_inj (sym e)) ∙ sym (no_more (v == u) _)
inserted_rows u v h (c ∷ cs) rows {got} e = elim (Bool-cases (any (λ r. r.id == c.id) rows)) [
  | inl taken ↦ absurd (none_not_some (rw taken at e))
  | inr free ↦
      inserted_rows u v h cs (record c { user_id = u; used = false } ∷ rows) (rw free at e)
      ∙ one_more u v h c (any (hashed h) cs) (any (unused_code v h) rows)
]
  where
    none_not_some : {a : List RecoveryCode} → ◌≡◌ {A = Option (List RecoveryCode)} none (some a) → ⊥
    none_not_some e = cc
