-- ===== src/Store/Mfa/CodeSet.antt =====
-- The recovery codes that can still be used, as a set for each user: what the statements promise, and
-- that they keep it.
use mathlib.Core.Path.{subst}
use omni_identity.Prelude.{
  String, Bool, true, false, ◌&&◌, ◌||◌, Option, none, some, List, [], ◌∷◌, ◌≡◌, refl, sym, ◌∙◌, ap,
  ◌==◌, if◌then◌else◌, any, delete_where,
}
use omni_identity.Model.{RecoveryCode}
use omni_identity.Store.Io.{Db, Io, Result, ok, err, driver_error, Stmt}
use omni_identity.Store.Mfa.{
  of_user, unused_code, insert_codes, committed, replace_recovery_codes, consume_recovery_code,
  delete_recovery_codes,
}
use omni_identity.Store.Mfa.Rows.{hashed, consumed_rows, removed_rows, inserted_rows}

-- The hashes that a user can present.
abbrev pub Codes : Type 0
Codes = String → String → Bool

pub data CodeOp : Type 0 where
  replace : String → List RecoveryCode → CodeOp
  consume : String → String → CodeOp
  remove : String → CodeOp

-- What an operation answers and leaves.
unfoldable pub step_codes : CodeOp → Codes → Bool × Codes
step_codes (replace u cs) codes = (true, λ v h. if v == u then any (hashed h) cs else codes v h)
step_codes (consume u k) codes = (codes u k, λ v h. if v == u && h == k then false else codes v h)
step_codes (remove u) codes = (true, λ v h. if v == u then false else codes v h)

unfoldable pub spec_run : List (Io × CodeOp) → Codes → List Bool × Codes
spec_run [] codes = ([], codes)
spec_run ((io, op) ∷ ops) codes =
    let (b, codes1) = step_codes op codes in
    let (bs, codes2) = spec_run ops codes1 in (b ∷ bs, codes2)

abbrev succeeded : Result (Unit {0}) × Db → Result Bool × Db
succeeded (ok u, db) = (ok true, db)
succeeded (err e, db) = (err e, db)

unfoldable pub apply_op : Io → CodeOp → Db → Result Bool × Db
apply_op io (replace u cs) db = succeeded (replace_recovery_codes io u cs db)
apply_op io (consume u h) db = consume_recovery_code io u h db
apply_op io (remove u) db = succeeded (delete_recovery_codes io u db)

abbrev add_answer : Result Bool → Option (List Bool × Db) → Option (List Bool × Db)
add_answer (ok b) (some (bs, db)) = some (b ∷ bs, db)
add_answer _ _ = none

-- The answers, where no operation fails.
unfoldable pub store_run : List (Io × CodeOp) → Db → Option (List Bool × Db)
store_run [] db = some ([], db)
store_run ((io, op) ∷ ops) db = let (r, db1) = apply_op io op db in add_answer r (store_run ops db1)

-- The set that the table stands for.
unfoldable pub usable_codes : Db → Codes
usable_codes db u h = any (unused_code u h) db.recovery_codes

-- The table stands for this set.
abbrev pub Represents : Db → Codes → Type 0
Represents db codes = (u h : String) → usable_codes db u h ≡ codes u h

abbrev Refines : Result Bool × Db → Bool × Codes → Type 0
Refines r promised = (b : Bool) → r.0 ≡ ok b → (b ≡ promised.0) × Represents r.1 promised.1

ok_inj : {a b : Bool} → ok a ≡ ok b → b ≡ a
ok_inj h = cc

-- A statement that fails promises nothing.
guarded :
    (failed b : Bool) (db db' : Db) (promised : Bool × Codes)
    → b ≡ promised.0
    → Represents db' promised.1
    → Refines (if failed then (err driver_error, db) else (ok b, db')) promised
guarded true b db db' promised same left c e = absurd (cc)
guarded false b db db' promised same left c e = (ok_inj e ∙ same, left)

module _ (io : Io) (db : Db) (codes : Codes) (h : Represents db codes) where
  consume-Refines :
      (u k : String) → Refines (apply_op io (consume u k) db) (step_codes (consume u k) codes)
  unfolding apply_op consume_recovery_code step_codes usable_codes
  consume-Refines u k = guarded (io.fails Stmt.consume_recovery) _ db _ _ (h u k) (λ v x.
      consumed_rows u k v x db.recovery_codes
      ∙ ap (λ b. if v == u && x == k then false else b) (h v x))

  remove-Refines : (u : String) → Refines (apply_op io (remove u) db) (step_codes (remove u) codes)
  unfolding apply_op delete_recovery_codes step_codes usable_codes
  remove-Refines u = removed (io.fails Stmt.delete_recovery)
    where
      removed :
          (failed : Bool)
          → Refines
              (succeeded (
                if failed then (err driver_error, db) else (
                  ok tt,
                  record db { recovery_codes = delete_where (of_user u) db.recovery_codes },
                )))
              (step_codes (remove u) codes)
      removed true c e = absurd (cc)
      removed false c e = (
        ok_inj e,
        λ v x. removed_rows u v x db.recovery_codes ∙ ap (λ b. if v == u then false else b) (h v x),
      )

  replace-Refines :
      (u : String) (cs : List RecoveryCode)
      → Refines (apply_op io (replace u cs) db) (step_codes (replace u cs) codes)
  unfolding apply_op replace_recovery_codes step_codes usable_codes
  replace-Refines u cs = replaced _ _ refl
    where
      pick : (a m o : Bool) → ((a && m) || (if a then false else o)) ≡ (if a then m else o)
      pick true true o = refl
      pick true false o = refl
      pick false m o = refl

      replaced :
          (failed : Bool) (o : Option (List RecoveryCode))
          → insert_codes u cs (delete_where (of_user u) db.recovery_codes) ≡ o
          → Refines
              (succeeded (if failed then (err driver_error, db) else committed db o))
              (step_codes (replace u cs) codes)
      replaced true o e c got = absurd (cc)
      replaced false none e c got = absurd (cc)
      replaced false (some rows) e c got = (
        ok_inj got,
        λ v x.
            inserted_rows u v x cs _ e
            ∙ (ap (λ b. (v == u && any (hashed x) cs) || b)
                  (removed_rows u v x db.recovery_codes
                    ∙ ap (λ b. if v == u then false else b) (h v x))
                ∙ pick (v == u) (any (hashed x) cs) (codes v x)),
      )

  op-Refines : (op : CodeOp) → Refines (apply_op io op db) (step_codes op codes)
  op-Refines (replace u cs) = replace-Refines u cs
  op-Refines (consume u k) = consume-Refines u k
  op-Refines (remove u) = remove-Refines u

pair_inj :
    {a b : List Bool} {x y : Db}
    → ◌≡◌ {A = Option (List Bool × Db)} (some (a, x)) (some (b, y))
    → (b ≡ a) × (y ≡ x)
pair_inj h = (cc, cc)

-- Which answers a run is made of.
added :
    (r : Result Bool) (o : Option (List Bool × Db)) {bs : List Bool} {db' : Db}
    → add_answer r o ≡ some (bs, db')
    → (b : Bool) × (bs1 : List Bool) × (r ≡ ok b) × (o ≡ some (bs1, db')) × (bs ≡ b ∷ bs1)
added (ok b) (some (bs1, db1)) e =
    (b, bs1, refl, ap (λ x. some (bs1, x)) (sym (pair_inj e).1), (pair_inj e).0)
added (ok b) none e = absurd (cc)
added (err x) (some a) e = absurd (cc)
added (err x) none e = absurd (cc)

-- As long as no statement fails, the statements on the recovery codes, of any users and in any order,
-- answer what the sets of usable codes do, and leave a table that stands for the sets that these are
-- left with: new codes replace those of their user, a code that is consumed is in the set before and
-- not after, and the codes of other users stay as they are.
pub store_run-spec_run :
    (ops : List (Io × CodeOp)) (db : Db) (codes : Codes) {bs : List Bool} {db' : Db}
    → Represents db codes
    → store_run ops db ≡ some (bs, db')
    → (bs ≡ (spec_run ops codes).0) × Represents db' (spec_run ops codes).1
unfolding store_run spec_run
store_run-spec_run [] db codes h e =
    let (none_yet, same) = pair_inj e in (none_yet, subst (λ x. Represents x codes) (sym same) h)
store_run-spec_run ((io, op) ∷ ops) db codes {bs} {db'} h e =
    let (b, bs1, answered, rest, same) = added (apply_op io op db).0 _ e in
    let (first, next) = op-Refines io db codes h op b answered in
    let (later, last) =
      store_run-spec_run ops (apply_op io op db).1 (step_codes op codes).1 next rest in
    (same ∙ (ap (λ x. x ∷ bs1) first ∙ ap (λ xs. (step_codes op codes).0 ∷ xs) later), last)
