-- ===== src/Store/DeviceCodes/Closed.antt =====
-- A device code that has been consumed or refused stays closed to whoever holds it.
use omni_identity.Prelude.{
  ℕ, String, Bool, true, false, ◌&&◌, ◌||◌, some, List, [], ◌∷◌, ◌≤◌, ◌≡◌, ◌≢◌, refl, arith, ◌==◌,
  eq_iff, Bool-cases, inl, inr, any, find, count_where, update_where, none-update_where,
  none-delete_where,
}
use omni_identity.Model.{DeviceCode, DeviceCodeStatus, code_is_pending, code_is_approved}
use omni_identity.Store.Io.{Db}
use omni_identity.Store.DeviceCodes.{
  expired, pending_with_id, approved_with_id, approve_by, deny, consume, create_device_code_row,
  approve_device_code, deny_device_code, consume_device_code_row, mark_device_code_polled,
  delete_expired_device_codes,
}
use omni_identity.Store.DeviceCodes.Laws.{
  CodeOp, create, approve, deny_op, consume_op, poll, expire, apply, run,
}

abbrev pub holds : String → DeviceCode → Bool
holds h c = c.device_code_hash == h

-- A row of the code that is pending or approved.
abbrev redeemable : String → DeviceCode → Bool
redeemable h c = holds h c && (code_is_pending c.status || code_is_approved c.status)

abbrev pub Shut : String → List DeviceCode → Type 0
Shut h rows = any (redeemable h) rows ≡ false

-- A code of another hash: codes are random and never drawn again.
abbrev pub SparesHash : String → CodeOp → Type 0
SparesHash h (create io c) = (c.device_code_hash == h) ≡ false
SparesHash h _ = Unit

abbrev pub AllSpareHash : String → List CodeOp → Type 0
AllSpareHash h [] = Unit
AllSpareHash h (op ∷ ops) = SparesHash h op × AllSpareHash h ops

-- An approval writes rows that are pending, so none of the code's.
approve-Shut :
    (h key user_id amr : String) (t : ℕ) (xs : List DeviceCode)
    → Shut h xs
    → Shut h (update_where (pending_with_id key) (approve_by user_id amr t) xs)
unfolding any update_where
approve-Shut h key user_id amr t [] shut = refl
approve-Shut h key user_id amr t (c ∷ xs) shut =
    ground (arith, eq_iff c.id key, approve-Shut h key user_id amr t xs)

apply-Shut :
    (h : String) (op : CodeOp) (db : Db)
    → SparesHash h op
    → Shut h db.device_codes
    → Shut h (apply op db).device_codes
unfolding create_device_code_row approve_device_code deny_device_code consume_device_code_row
    mark_device_code_polled delete_expired_device_codes any
apply-Shut h (create io c) db spares shut = ground (arith, spares)
apply-Shut h (approve io key user_id amr t) db spares shut =
    ground (arith, approve-Shut h key user_id amr t db.device_codes shut)
apply-Shut h (deny_op io key) db spares shut = ground (
  arith,
  none-update_where (redeemable h) (pending_with_id key) deny db.device_codes (λ c p. ground arith)
      shut,
)
apply-Shut h (consume_op io key) db spares shut = ground (
  arith,
  none-update_where (redeemable h) (approved_with_id key) consume db.device_codes
      (λ c p. ground arith) shut,
)
apply-Shut h (poll io key now) db spares shut = ground (
  arith,
  none-update_where (redeemable h) (λ c. c.id == key) (λ c. record c { last_polled_at = now })
      db.device_codes (λ c p. p) shut,
)
apply-Shut h (expire io now) db spares shut =
    ground (arith, none-delete_where (redeemable h) (expired now) db.device_codes shut)

pub run-Shut :
    (h : String) (ops : List CodeOp) (db : Db)
    → AllSpareHash h ops
    → Shut h db.device_codes
    → Shut h (run ops db).device_codes
run-Shut h [] db spares shut = shut
run-Shut h (op ∷ ops) db spares shut =
    run-Shut h ops (apply op db) spares.1 (apply-Shut h op db spares.0 shut)

abbrev pub codes_with_hash : String → Db → ℕ
codes_with_hash h db = count_where (holds h) db.device_codes

none_left : (h : String) (xs : List DeviceCode) → count_where (holds h) xs ≡ 0 → Shut h xs
unfolding any count_where
none_left h [] e = refl
none_left h (c ∷ xs) e = ground (arith, none_left h xs)

-- Where the one row of the code is consumed, it is shut.
pub consumed-Shut :
    (h : String) (xs : List DeviceCode) {c : DeviceCode}
    → count_where (holds h) xs ≤ 1
    → find (holds h) xs ≡ some c
    → c.status ≡ DeviceCodeStatus.consumed
    → Shut h xs
unfolding any find count_where
consumed-Shut h [] one e st = absurd (cc)
consumed-Shut h (x ∷ xs) {c} one e st = elim (Bool-cases (holds h x)) [
  | inl here ↦
      let same : x ≡ c = some_inj (rw here at e) in
      let rest : Shut h xs = none_left h xs (ground arith) in rw (here, same, st) rest
  | inr other ↦ rw other (consumed-Shut h xs {c = c} (rw other at one) (rw other at e) st)
]
  where
    some_inj : {a b : DeviceCode} → some a ≡ some b → a ≡ b
    some_inj h = cc

-- The row that is read for a code that is shut is not approved.
pub Shut-found :
    (h : String) (xs : List DeviceCode) {c : DeviceCode}
    → Shut h xs
    → find (holds h) xs ≡ some c
    → c.status ≢ DeviceCodeStatus.approved
unfolding any find
Shut-found h [] shut e st = absurd (cc)
Shut-found h (x ∷ xs) {c} shut e st = elim (Bool-cases (holds h x)) [
  | inl here ↦ let same : x ≡ c = some_inj (rw here at e) in clash (rw (here, same, st) at shut)
  | inr other ↦ Shut-found h xs {c = c} (rw other at shut) (rw other at e) st
]
  where
    some_inj : {a b : DeviceCode} → some a ≡ some b → a ≡ b
    some_inj h = cc

    clash : true ≡ false → ⊥
    clash h = cc
