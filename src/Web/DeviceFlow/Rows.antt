-- ===== src/Web/DeviceFlow/Rows.antt =====
-- What a decision makes of the rows of the device codes, and what it has found there.
use omni_identity.Prelude.{
  ℕ, ◌≤◌, String, Bool, true, false, not, ◌&&◌, ◌||◌, Option, none, some, List, [], ◌∷◌, ◌≡◌, refl,
  arith, ◌==◌, eq_iff, eq_refl, Bool-cases, inl, inr, any, find, select_where, update_where,
  none-update_where_all, select-update_where, ltb,
}
use omni_identity.Model.{
  User, Device, DeviceCode, DeviceCodeStatus, code_is_pending, code_is_approved,
}
use omni_identity.Store.Io.{Db, Io, Result, ok, err, Stmt, StoreError}
use omni_identity.Store.Devices.{get_device_row}
use omni_identity.Store.DeviceCodes.{
  pending_with_id, approve_by, deny, open_code, get_pending_device_code_by_user_code,
  approve_device_code, deny_device_code,
}
use omni_identity.Web.DeviceFlow.{owner_forbids, forbids}
use omni_identity.Web.Server.{Env}

-- The grant of a user code: its row is stored, waits for a decision and has not expired.
pub record PendingGrant (now : ℕ) (user_code : String) (db : Db) (dc : DeviceCode) : Type 0 where
  pub row : find (λ c. c.user_code == user_code) db.device_codes ≡ some dc
  pub waits : dc.status ≡ DeviceCodeStatus.pending
  pub in_time : now ≤ dc.expires_at

pending_of_test :
    (st : DeviceCodeStatus) → code_is_pending st ≡ true → st ≡ DeviceCodeStatus.pending
pending_of_test DeviceCodeStatus.pending h = refl
pending_of_test DeviceCodeStatus.approved h = absurd (cc)
pending_of_test DeviceCodeStatus.denied h = absurd (cc)
pending_of_test DeviceCodeStatus.consumed h = absurd (cc)

open_code-some :
    (now : ℕ) (o : Option DeviceCode) {dc : DeviceCode}
    → open_code now o ≡ ok dc
    → (o ≡ some dc) × (code_is_pending dc.status ≡ true) × (now ≤ dc.expires_at)
open_code-some now none h = absurd (cc)
open_code-some now (some c) h =
    elim (Bool-cases (not (code_is_pending c.status) || ltb c.expires_at now)) [
      | inl shut ↦ absurd (ground arith)
      | inr fine ↦ (ground arith, ground arith, ground arith)
    ]

pub get_pending-PendingGrant :
    (io : Io) (user_code : String) (db : Db) {dc : DeviceCode}
    → get_pending_device_code_by_user_code io user_code db ≡ ok dc
    → PendingGrant io.now user_code db dc
unfolding get_pending_device_code_by_user_code
get_pending-PendingGrant io user_code db {dc} h =
    elim (Bool-cases (io.fails Stmt.get_device_code)) [
      | inl broken ↦ absurd (ground arith)
      | inr works ↦
          let (row, waits, in_time) =
            open_code-some io.now (find (λ c. c.user_code == user_code) db.device_codes)
              (rw works at h) in
          record { row = row; waits = pending_of_test dc.status waits; in_time = in_time }
    ]

-- The device of a grant, if it has one that the store gives, is open to the user.
pub data OpenTo (env : Env) (user : User) (dc : DeviceCode) (db : Db) : Type 0 where
  unbound : dc.device_id ≡ "" → OpenTo env user dc db
  unread : (e : StoreError) → get_device_row env.io dc.device_id db ≡ err e → OpenTo env user dc db
  shared :
      (d : Device)
      → get_device_row env.io dc.device_id db ≡ ok d
      → d.owner_only ≡ false
      → OpenTo env user dc db
  own :
      (d : Device)
      → get_device_row env.io dc.device_id db ≡ ok d
      → d.owner_user_id ≡ user.id
      → OpenTo env user dc db

device-OpenTo :
    (env : Env) (user : User) (dc : DeviceCode) (db : Db) (r : Result Device)
    → get_device_row env.io dc.device_id db ≡ r
    → forbids user r ≡ false
    → OpenTo env user dc db
device-OpenTo env user dc db (err e) found h = unread e found
device-OpenTo env user dc db (ok d) found h = elim (Bool-cases d.owner_only) [
  | inl closed ↦ own d found (ground (arith, eq_iff d.owner_user_id user.id))
  | inr open_all ↦ shared d found open_all
]

pub owner_forbids-OpenTo :
    (env : Env) (user : User) (dc : DeviceCode) (db : Db)
    → owner_forbids env user dc db ≡ false
    → OpenTo env user dc db
unfolding owner_forbids
owner_forbids-OpenTo env user dc db h = elim (Bool-cases (dc.device_id == "")) [
  | inl none_named ↦ unbound ((eq_iff dc.device_id "").0 none_named)
  | inr named ↦
      device-OpenTo env user dc db (get_device_row env.io dc.device_id db) refl (ground arith)
]

-- The rows of other grants are as they were.
abbrev pub OthersKept : String → List DeviceCode → List DeviceCode → Type 0
OthersKept id rows rows' =
    select_where (λ c. not (c.id == id)) rows' ≡ select_where (λ c. not (c.id == id)) rows

-- A row of the grant says that this user has approved it, with these methods and this time.
abbrev pub approved_for : String → String → String → ℕ → DeviceCode → Bool
approved_for id user_id amr auth_time c =
    c.id == id
    && code_is_approved c.status
    && c.user_id == user_id
    && c.amr == amr
    && not (ltb c.auth_time auth_time)
    && not (ltb auth_time c.auth_time)

abbrev is_denied : DeviceCodeStatus → Bool
is_denied DeviceCodeStatus.denied = true
is_denied _ = false

abbrev pub denied : String → DeviceCode → Bool
denied id c = c.id == id && is_denied c.status

abbrev pub waiting : String → DeviceCode → Bool
waiting id c = c.id == id && code_is_pending c.status

any-found {ℓ} :
    {A : Type ℓ} (q p : A → Bool) (xs : List A) {x : A}
    → find q xs ≡ some x
    → p x ≡ true
    → any p xs ≡ true
unfolding any find
any-found q p [] e h = absurd (cc)
any-found {A = A} q p (y ∷ ys) {x} e h = elim (Bool-cases (q y)) [
  | inl here ↦ let same : y ≡ x = some_inj (rw here at e) in rw (same, h) refl
  | inr later ↦ elim (Bool-cases (p y)) [
    | inl t ↦ rw t refl
    | inr t ↦ rw t (any-found q p ys {x = x} (rw later at e) h)
  ]
]
  where
    some_inj : {a b : A} → some a ≡ some b → a ≡ b
    some_inj h = cc

any-written {ℓ} :
    {A : Type ℓ} (p q : A → Bool) (f : A → A) (xs : List A)
    → ((x : A) → p x ≡ true → q (f x) ≡ true)
    → any p xs ≡ true
    → any q (update_where p f xs) ≡ true
unfolding any update_where
any-written p q f [] writes h = absurd (cc)
any-written p q f (x ∷ xs) writes h = ground (arith, writes x, any-written p q f xs writes)

-- A successful approval: a row of the grant is approved for this user, none waits, others are kept.
pub approve-rows :
    (io : Io) (id user_id amr : String) (t : ℕ) (db : Db)
    → (approve_device_code io id user_id amr t db).0 ≡ ok tt
    → (any
          (approved_for id user_id amr t)
          (approve_device_code io id user_id amr t db).1.device_codes
        ≡ true)
      × (any (waiting id) (approve_device_code io id user_id amr t db).1.device_codes ≡ false)
      × OthersKept id db.device_codes (approve_device_code io id user_id amr t db).1.device_codes
unfolding approve_device_code
approve-rows io id user_id amr t db h = elim (Bool-cases (io.fails Stmt.approve_code)) [
  | inl bad ↦ absurd (ground arith)
  | inr works ↦ elim (Bool-cases (any (pending_with_id id) db.device_codes)) [
    | inr gone ↦ absurd (ground arith)
    | inl there ↦
        rw (works, there)
          (
            any-written (pending_with_id id) (approved_for id user_id amr t)
                (approve_by user_id amr t) db.device_codes
                (λ x e. ground (arith, eq_refl user_id, eq_refl amr)) there,
            none-update_where_all (waiting id) (pending_with_id id) (approve_by user_id amr t)
                db.device_codes (λ x e. e) (λ x e. ground arith),
            select-update_where (λ c. not (c.id == id)) (pending_with_id id)
                (approve_by user_id amr t) db.device_codes (λ x e. ground arith)
                (λ x e. ground arith),
          )
  ]
]

-- A refusal of a grant that waits.
pub deny-rows :
    (io : Io) (id : String) (db : Db)
    → io.fails Stmt.deny_code ≡ false
    → any (waiting id) db.device_codes ≡ true
    → (any (denied id) (deny_device_code io id db).1.device_codes ≡ true)
      × (any (waiting id) (deny_device_code io id db).1.device_codes ≡ false)
      × OthersKept id db.device_codes (deny_device_code io id db).1.device_codes
unfolding deny_device_code
deny-rows io id db works there =
    rw (works, there)
      (
        any-written (pending_with_id id) (denied id) deny db.device_codes (λ x e. ground arith)
            there,
        none-update_where_all (waiting id) (pending_with_id id) deny db.device_codes (λ x e. e)
            (λ x e. ground arith),
        select-update_where (λ c. not (c.id == id)) (pending_with_id id) deny db.device_codes
            (λ x e. ground arith) (λ x e. ground arith),
      )

pub deny-failed :
    (io : Io) (id : String) (db : Db)
    → io.fails Stmt.deny_code ≡ true
    → (deny_device_code io id db).1.device_codes ≡ db.device_codes
unfolding deny_device_code
deny-failed io id db bad = rw bad refl

pub PendingGrant-waits :
    (now : ℕ) (user_code : String) (db : Db) (dc : DeviceCode)
    → PendingGrant now user_code db dc
    → any (waiting dc.id) db.device_codes ≡ true
PendingGrant-waits now user_code db dc p =
    any-found (λ c. c.user_code == user_code) (waiting dc.id) db.device_codes p.row
      (rw p.waits (ground (arith, eq_refl dc.id)))
