-- ===== src/Store/RefreshTokens/Spent.antt =====
-- A refresh token is rotated at most once, whatever the requests and revocations in between.
use omni_identity.Prelude.{
  ℕ, String, Bool, true, false, ◌||◌, Option, none, some, List, [], ◌∷◌, ◌≡◌, ◌≢◌, refl, arith,
  ◌==◌, eq_iff, Bool-cases, inl, inr, any, update_where, any-update_where, none-update_where,
  none-update_where_all, any_weaken,
}
use omni_identity.Model.{RefreshToken}
use omni_identity.Store.Io.{Db, Io, ok, Stmt}
use omni_identity.Store.Devices.{revoke_device_row, bound_to, revocable}
use omni_identity.Store.RefreshTokens.{
  clashes, create_refresh_token, revoke, live_with_id, insert_replacement, rotate_refresh_token,
  revoke_refresh_token, revoke_refresh_tokens_for_user_client, of_pair,
}

abbrev pub with_id : String → RefreshToken → Bool
with_id id rt = rt.id == id

-- The token is stored, and no row with its id is live.
pub record Spent (id : String) (db : Db) : Type 0 where
  pub stored : any (with_id id) db.refresh_tokens ≡ true
  pub dead : any (live_with_id id) db.refresh_tokens ≡ false

-- What the program does to refresh tokens.
pub data TokenOp : Type 0 where
  create : Io → RefreshToken → TokenOp
  rotate : Io → String → Option RefreshToken → TokenOp
  revoke_one : Io → String → TokenOp
  revoke_pair : Io → String → String → TokenOp
  revoke_device : Io → String → ℕ → TokenOp

pub apply : TokenOp → Db → Db
apply (create io rt) db = (create_refresh_token io rt db).1
apply (rotate io id new) db = (rotate_refresh_token io id new db).1
apply (revoke_one io id) db = revoke_refresh_token io id db
apply (revoke_pair io u c) db = revoke_refresh_tokens_for_user_client io u c db
apply (revoke_device io id now) db = (revoke_device_row io id now db).1

pub run : List TokenOp → Db → Db
run [] db = db
run (op ∷ ops) db = run ops (apply op db)

module _ (id : String) where
  abbrev IsSpent : List RefreshToken → Type 0
  IsSpent rows = (any (with_id id) rows ≡ true) × (any (live_with_id id) rows ≡ false)

  revoke-IsSpent :
      (p : RefreshToken → Bool) (rows : List RefreshToken)
      → IsSpent rows
      → IsSpent (update_where p revoke rows)
  revoke-IsSpent p rows h = (
    rw (any-update_where (with_id id) p revoke rows (λ x. refl)) h.0,
    none-update_where (live_with_id id) p revoke rows (λ x e. ground arith) h.1,
  )

  -- A row that does not clash with the stored ones has another id than a stored one.
  insert_other :
      (rt : RefreshToken) (rows : List RefreshToken)
      → clashes rt rows ≡ false
      → any (with_id id) rows ≡ true
      → (rt.id == id) ≡ false
  insert_other rt rows fresh stored = elim (Bool-cases (rt.id == id)) [
    | inr other ↦ other
    | inl same ↦
        let clash : clashes rt rows ≡ true =
          any_weaken (with_id id) _ rows
            (λ x e. ground (arith, eq_iff x.id id, eq_iff rt.id id, eq_iff x.id rt.id)) stored in
        cc
  ]

  insert-IsSpent :
      (rt : RefreshToken) (rows : List RefreshToken)
      → clashes rt rows ≡ false
      → IsSpent rows
      → IsSpent (rt ∷ rows)
  unfolding any
  insert-IsSpent rt rows fresh h =
      let other = insert_other rt rows fresh h.0 in (rw (other, any) h.0, rw (other, any) h.1)

  create-IsSpent :
      (io : Io) (rt : RefreshToken) (db : Db)
      → IsSpent db.refresh_tokens
      → IsSpent (create_refresh_token io rt db).1.refresh_tokens
  unfolding create_refresh_token
  create-IsSpent io rt db h =
      elim (Bool-cases (io.fails Stmt.create_refresh || clashes rt db.refresh_tokens)) [
        | inl bad ↦ rw bad h
        | inr fine ↦ rw fine (insert-IsSpent rt db.refresh_tokens (ground arith) h)
      ]

  insert_replacement-IsSpent :
      (new : Option RefreshToken) (rows : List RefreshToken) (db : Db)
      → IsSpent rows
      → IsSpent db.refresh_tokens
      → IsSpent (insert_replacement new rows db).1.refresh_tokens
  insert_replacement-IsSpent none rows db h k = h
  insert_replacement-IsSpent (some rt) rows db h k = elim (Bool-cases (clashes rt rows)) [
    | inl bad ↦ rw bad k
    | inr fine ↦ rw fine (insert-IsSpent rt rows fine h)
  ]

  rotate-IsSpent :
      (io : Io) (other : String) (new : Option RefreshToken) (db : Db)
      → IsSpent db.refresh_tokens
      → IsSpent (rotate_refresh_token io other new db).1.refresh_tokens
  unfolding rotate_refresh_token
  rotate-IsSpent io other new db h = elim (Bool-cases (io.fails Stmt.rotate_refresh)) [
    | inl bad ↦ rw bad h
    | inr works ↦ rw works (elim (Bool-cases (any (live_with_id other) db.refresh_tokens)) [
      | inr gone ↦ rw gone h
      | inl live ↦ rw live (
          insert_replacement-IsSpent new
            (update_where (live_with_id other) revoke db.refresh_tokens) db
            (revoke-IsSpent (live_with_id other) db.refresh_tokens h) h)
    ])
  ]

  revoke_device-IsSpent :
      (io : Io) (dev : String) (now : ℕ) (db : Db)
      → IsSpent db.refresh_tokens
      → IsSpent (revoke_device_row io dev now db).1.refresh_tokens
  unfolding revoke_device_row
  revoke_device-IsSpent io dev now db h = elim (Bool-cases (io.fails Stmt.revoke_device)) [
    | inl bad ↦ rw bad h
    | inr works ↦ rw works (elim (Bool-cases (any (revocable dev) db.devices)) [
      | inr gone ↦ rw gone h
      | inl there ↦ rw there (revoke-IsSpent (bound_to dev) db.refresh_tokens h)
    ])
  ]

  apply-IsSpent :
      (op : TokenOp) (db : Db) → IsSpent db.refresh_tokens → IsSpent (apply op db).refresh_tokens
  unfolding apply revoke_refresh_token revoke_refresh_tokens_for_user_client
  apply-IsSpent (create io rt) db h = create-IsSpent io rt db h
  apply-IsSpent (rotate io other new) db h = rotate-IsSpent io other new db h
  apply-IsSpent (revoke_one io other) db h = elim (Bool-cases (io.fails Stmt.revoke_refresh)) [
    | inl bad ↦ rw bad h
    | inr works ↦ rw works (revoke-IsSpent _ db.refresh_tokens h)
  ]
  apply-IsSpent (revoke_pair io u c) db h = elim (Bool-cases (io.fails Stmt.revoke_refresh_pair)) [
    | inl bad ↦ rw bad h
    | inr works ↦ rw works (revoke-IsSpent (of_pair u c) db.refresh_tokens h)
  ]
  apply-IsSpent (revoke_device io dev now) db h = revoke_device-IsSpent io dev now db h

  run-IsSpent :
      (ops : List TokenOp) (db : Db)
      → IsSpent db.refresh_tokens
      → IsSpent (run ops db).refresh_tokens
  unfolding run
  run-IsSpent [] db h = h
  run-IsSpent (op ∷ ops) db h = run-IsSpent ops (apply op db) (apply-IsSpent op db h)

  -- What the update of a rotation leaves.
  update-IsSpent :
      (rows : List RefreshToken)
      → any (live_with_id id) rows ≡ true
      → IsSpent (update_where (live_with_id id) revoke rows)
  update-IsSpent rows live = (
    rw (any-update_where (with_id id) (live_with_id id) revoke rows (λ x. refl))
        (any_weaken (live_with_id id) (with_id id) rows (λ x e. ground arith) live),
    none-update_where_all (live_with_id id) (live_with_id id) revoke rows (λ x e. e)
        (λ x e. ground arith),
  )

  won-IsSpent :
      (new : Option RefreshToken) (rows : List RefreshToken) (db : Db)
      → (insert_replacement new rows db).0 ≡ ok true
      → IsSpent rows
      → IsSpent (insert_replacement new rows db).1.refresh_tokens
  won-IsSpent none rows db e h = h
  won-IsSpent (some rt) rows db e h = elim (Bool-cases (clashes rt rows)) [
    | inl bad ↦ absurd (ground arith)
    | inr fine ↦ rw fine (insert-IsSpent rt rows fine h)
  ]

  rotated-IsSpent :
      (io : Io) (new : Option RefreshToken) (db : Db)
      → (rotate_refresh_token io id new db).0 ≡ ok true
      → (any (live_with_id id) db.refresh_tokens ≡ true)
        × IsSpent (rotate_refresh_token io id new db).1.refresh_tokens
  unfolding rotate_refresh_token
  rotated-IsSpent io new db e = elim (Bool-cases (io.fails Stmt.rotate_refresh)) [
    | inl bad ↦ absurd (ground arith)
    | inr works ↦ elim (Bool-cases (any (live_with_id id) db.refresh_tokens)) [
      | inr gone ↦ absurd (ground arith)
      | inl live ↦ (
        live,
        rw (works, live)
            (won-IsSpent new (update_where (live_with_id id) revoke db.refresh_tokens) db
              (ground arith) (update-IsSpent db.refresh_tokens live)),
      )
    ]
  ]

-- A rotation that wins leaves its token spent: stored, and not live.
pub rotate_refresh_token-Spent :
    (io : Io) (id : String) (new : Option RefreshToken) (db : Db)
    → (rotate_refresh_token io id new db).0 ≡ ok true
    → Spent id (rotate_refresh_token io id new db).1
rotate_refresh_token-Spent io id new db e =
    let h = (rotated-IsSpent id io new db e).1 in record { stored = h.0; dead = h.1 }

-- Once a rotation of a token has succeeded, no other rotation of it does, after any sequence of
-- creations, rotations and revocations of tokens and of devices by any requests.
pub rotate_once :
    (io io' : Io) (id : String) (new new' : Option RefreshToken) (db : Db) (ops : List TokenOp)
    → (rotate_refresh_token io id new db).0 ≡ ok true
    → (rotate_refresh_token io' id new' (run ops (rotate_refresh_token io id new db).1)).0 ≢ ok true
rotate_once io io' id new new' db ops first second =
    let db' = (rotate_refresh_token io id new db).1 in
    let spent = run-IsSpent id ops db' (rotated-IsSpent id io new db first).1 in
    let live = (rotated-IsSpent id io' new' (run ops db') second).0 in cc (spent.1, live)
