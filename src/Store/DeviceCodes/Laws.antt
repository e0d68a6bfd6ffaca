-- ===== src/Store/DeviceCodes/Laws.antt =====
-- A device code grant as a state machine: pending, then approved or denied; approved, then consumed.
use omni_identity.Prelude.{
  ℕ, String, Bool, true, false, ◌&&◌, ◌||◌, List, [], ◌∷◌, ◌≤◌, ◌≡◌, ◌≢◌, refl, arith, ◌==◌, eq_iff,
  any, count_where, update_where, none-update_where, none-delete_where,
}
use omni_identity.Model.{DeviceCode, code_is_pending, code_is_approved}
use omni_identity.Store.Io.{Db, Io, ok}
use omni_identity.Store.DeviceCodes.{
  expired, pending_with_id, approved_with_id, approve_by, deny, consume, create_device_code_row,
  approve_device_code, deny_device_code, consume_device_code_row, mark_device_code_polled,
  delete_expired_device_codes,
}

-- The operations on the table.
pub data CodeOp : Type 0 where
  create : Io → DeviceCode → CodeOp
  approve : Io → String → String → String → ℕ → CodeOp
  deny_op : Io → String → CodeOp
  consume_op : Io → String → CodeOp
  poll : Io → String → ℕ → CodeOp
  expire : Io → ℕ → CodeOp

abbrev pub apply : CodeOp → Db → Db
apply (create io c) db = (create_device_code_row io c db).1
apply (approve io id user_id amr auth_time) db =
    (approve_device_code io id user_id amr auth_time db).1
apply (deny_op io id) db = (deny_device_code io id db).1
apply (consume_op io id) db = (consume_device_code_row io id db).1
apply (poll io id now) db = mark_device_code_polled io id now db
apply (expire io now) db = (delete_expired_device_codes io now db).1

abbrev pub run : List CodeOp → Db → Db
run [] db = db
run (op ∷ ops) db = run ops (apply op db)

-- No row of the code can be approved any more, or is.
abbrev live : String → DeviceCode → Bool
live id c = c.id == id && (code_is_pending c.status || code_is_approved c.status)

abbrev Closed : String → Db → Type 0
Closed id db = any (live id) db.device_codes ≡ false

-- A code of another identifier: identifiers are random and never drawn again.
abbrev pub Spares : String → CodeOp → Type 0
Spares id (create io c) = (c.id == id) ≡ false
Spares id _ = Unit

abbrev pub AllSpare : String → List CodeOp → Type 0
AllSpare id [] = Unit
AllSpare id (op ∷ ops) = Spares id op × AllSpare id ops

-- The rows that an approval writes were pending, so none of them is closed.
live-approve :
    (id key user_id amr : String) (auth_time : ℕ) (xs : List DeviceCode)
    → any (live id) xs ≡ false
    → any (live id) (update_where (pending_with_id key) (approve_by user_id amr auth_time) xs)
      ≡ false
unfolding any update_where
live-approve id key user_id amr auth_time [] h = refl
live-approve id key user_id amr auth_time (c ∷ xs) h =
    ground (arith, eq_iff c.id key, eq_iff c.id id, live-approve id key user_id amr auth_time xs)

live-deny :
    (id key : String) (xs : List DeviceCode)
    → any (live id) xs ≡ false
    → any (live id) (update_where (pending_with_id key) deny xs) ≡ false
live-deny id key xs h =
    none-update_where (live id) (pending_with_id key) deny xs (λ c p. ground arith) h

live-consume :
    (id key : String) (xs : List DeviceCode)
    → any (live id) xs ≡ false
    → any (live id) (update_where (approved_with_id key) consume xs) ≡ false
live-consume id key xs h =
    none-update_where (live id) (approved_with_id key) consume xs (λ c p. ground arith) h

apply-Closed :
    (id : String) (op : CodeOp) (db : Db) → Spares id op → Closed id db → Closed id (apply op db)
unfolding create_device_code_row approve_device_code deny_device_code consume_device_code_row
    mark_device_code_polled delete_expired_device_codes any
apply-Closed id (create io c) db spares h = ground (arith, spares)
apply-Closed id (approve io key user_id amr auth_time) db spares h =
    ground (arith, live-approve id key user_id amr auth_time db.device_codes h)
apply-Closed id (deny_op io key) db spares h = ground (arith, live-deny id key db.device_codes h)
apply-Closed id (consume_op io key) db spares h =
    ground (arith, live-consume id key db.device_codes h)
apply-Closed id (poll io key now) db spares h = ground (
  arith,
  none-update_where (live id) (λ c. c.id == key) (λ c. record c { last_polled_at = now })
      db.device_codes (λ c p. p) h,
)
apply-Closed id (expire io now) db spares h =
    ground (arith, none-delete_where (live id) (expired now) db.device_codes h)

run-Closed :
    (id : String) (ops : List CodeOp) (db : Db)
    → AllSpare id ops
    → Closed id db
    → Closed id (run ops db)
run-Closed id [] db spares h = h
run-Closed id (op ∷ ops) db spares h =
    run-Closed id ops (apply op db) spares.1 (apply-Closed id op db spares.0 h)

abbrev pub codes_with_id : String → Db → ℕ
codes_with_id id db = count_where (λ c. c.id == id) db.device_codes

no_row :
    (id : String) (xs : List DeviceCode)
    → count_where (λ c. c.id == id) xs ≡ 0
    → any (live id) xs ≡ false
unfolding any count_where
no_row id [] h = refl
no_row id (c ∷ xs) h = ground (arith, no_row id xs)

no_approved :
    (id : String) (xs : List DeviceCode)
    → any (live id) xs ≡ false
    → any (approved_with_id id) xs ≡ false
unfolding any
no_approved id [] h = refl
no_approved id (c ∷ xs) h = ground (arith, no_approved id xs)

no_pending :
    (id : String) (xs : List DeviceCode)
    → any (live id) xs ≡ false
    → any (pending_with_id id) xs ≡ false
unfolding any
no_pending id [] h = refl
no_pending id (c ∷ xs) h = ground (arith, no_pending id xs)

-- A consumption that affects a row, or a refusal that does, leaves the code closed.
consumed-closed :
    (id : String) (xs : List DeviceCode)
    → count_where (λ c. c.id == id) xs ≤ 1
    → any (approved_with_id id) xs ≡ true
    → any (live id) (update_where (approved_with_id id) consume xs) ≡ false
unfolding any count_where update_where
consumed-closed id [] one h = cc
consumed-closed id (c ∷ xs) one h =
    ground (arith, no_row id xs, no_approved id xs, live-consume id id xs, consumed-closed id xs)

denied-closed :
    (id : String) (xs : List DeviceCode)
    → count_where (λ c. c.id == id) xs ≤ 1
    → any (pending_with_id id) xs ≡ true
    → any (live id) (update_where (pending_with_id id) deny xs) ≡ false
unfolding any count_where update_where
denied-closed id [] one h = cc
denied-closed id (c ∷ xs) one h =
    ground (arith, no_row id xs, no_pending id xs, live-deny id id xs, denied-closed id xs)

consume_device_code_row-Closed :
    (io : Io) (id : String) (db : Db)
    → Closed id db
    → (consume_device_code_row io id db).0 ≢ ok true
unfolding consume_device_code_row
consume_device_code_row-Closed io id db h r = ground (arith, no_approved id db.device_codes h)

-- Where at most one row has the identifier `id`, after a consumption of it that affected a row and
-- any operations on the table (creations with another identifier, approvals, refusals,
-- consumptions, polls and expiries, whatever fails in them), no consumption of `id` affects a row.
pub consume_device_code_once :
    (io io' : Io) (id : String) (ops : List CodeOp) (db : Db)
    → codes_with_id id db ≤ 1
    → (consume_device_code_row io id db).0 ≡ ok true
    → AllSpare id ops
    → (consume_device_code_row io' id (run ops (consume_device_code_row io id db).1)).0 ≢ ok true
unfolding consume_device_code_row
consume_device_code_once io io' id ops db one won spares =
    consume_device_code_row-Closed io' id (run ops (consume_device_code_row io id db).1) (
      run-Closed id ops (consume_device_code_row io id db).1 spares
        (ground (arith, consumed-closed id db.device_codes one)))

-- Where at most one row has the identifier `id`, after a successful refusal of it and any such
-- operations, approvals included, no consumption of `id` affects a row.
pub deny_device_code_final :
    (io io' : Io) (id : String) (ops : List CodeOp) (db : Db)
    → codes_with_id id db ≤ 1
    → (deny_device_code io id db).0 ≡ ok tt
    → AllSpare id ops
    → (consume_device_code_row io' id (run ops (deny_device_code io id db).1)).0 ≢ ok true
unfolding deny_device_code
deny_device_code_final io io' id ops db one won spares =
    consume_device_code_row-Closed io' id (run ops (deny_device_code io id db).1) (
      run-Closed id ops (deny_device_code io id db).1 spares
        (ground (arith, denied-closed id db.device_codes one)))
