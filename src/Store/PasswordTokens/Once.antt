-- ===== src/Store/PasswordTokens/Once.antt =====
-- A password token is consumed once.
use omni_identity.Prelude.{
  ℕ, String, true, false, Option, none, some, List, ◌≡◌, arith, leb, find, any, update_where,
  Bool-cases, inl, inr, none-update_where_all,
}
use omni_identity.Model.{PasswordToken}
use omni_identity.Store.Io.{Db, Io, Result, ok, err, Stmt, driver_error}
use omni_identity.Store.PasswordTokens.{
  usable, spend, consume_password_token, get_valid_password_token, or_not_found,
}

-- No token of this hash can be used from this time on.
abbrev pub Spent : String → ℕ → Db → Type 0
Spent h now db = (t : ℕ) → leb now t ≡ true → any (usable h t) db.password_tokens ≡ false

spent_rows :
    (h : String) (now t : ℕ) (rows : List PasswordToken)
    → leb now t ≡ true
    → any (usable h t) (update_where (usable h now) spend rows) ≡ false
spent_rows h now t rows later =
    none-update_where_all (usable h t) (usable h now) spend rows (λ x e. ground arith)
      (λ x e. ground arith)

pub consume_password_token-Spent :
    (io : Io) (h : String) (db : Db) {tok : PasswordToken}
    → (consume_password_token io h db).0 ≡ ok (some tok)
    → Spent h io.now (consume_password_token io h db).1
unfolding consume_password_token
consume_password_token-Spent io h db e t later =
    elim (Bool-cases (io.fails Stmt.consume_password_token)) [
      | inl bad ↦ absurd (driver_not_ok (rw bad at e))
      | inr fine ↦ elim (Bool-cases (any (usable h io.now) db.password_tokens)) [
        | inl there ↦ rw (fine, there) (spent_rows h io.now t db.password_tokens later)
        | inr gone ↦ absurd (none_not_some (rw (fine, gone) at e))
      ]
    ]
  where
    driver_not_ok : {o : Option PasswordToken} → err driver_error ≡ ok o → ⊥
    driver_not_ok h = cc

    none_not_some :
        {x : PasswordToken} → ◌≡◌ {A = Result (Option PasswordToken)} (ok none) (ok (some x)) → ⊥
    none_not_some h = cc

pub get_valid_password_token-usable :
    (io : Io) (h : String) (db : Db) {tok : PasswordToken}
    → get_valid_password_token io h db ≡ ok tok
    → find (usable h io.now) db.password_tokens ≡ some tok
unfolding get_valid_password_token
get_valid_password_token-usable io h db e = elim (Bool-cases (io.fails Stmt.get_password_token)) [
  | inl bad ↦ absurd (ground arith)
  | inr fine ↦ found _ (rw fine at e)
]
  where
    found :
        (o : Option PasswordToken) {tok : PasswordToken} → or_not_found o ≡ ok tok → o ≡ some tok
    found none h = absurd (cc)
    found (some t) h = cc
