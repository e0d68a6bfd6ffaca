-- ===== src/Web/Login/Directory.antt =====
-- What a login by way of a directory changes.
use omni_identity.Prelude.{
  ◌≢◌, ◌==◌, ◌&&◌, ◌||◌, any, find-passes, Bool-cases, eq_iff, ap, sym, ◌∙◌, none, String, Option,
  some, List, [], ◌∷◌, ◌≡◌, refl, arith, ◌⊎◌, inl, inr,
}
use mathlib.Core.Path.{subst}
use omni_identity.Model.{User}
use omni_identity.Store.Io.{
  Db, Io, Result, ok, err, StoreError, not_found, driver_error, row_of, Stmt,
}
use omni_identity.Store.Users.{
  upsert_external_user, create_user, Profile, get_user_by_external_id, get_user_by_username,
  upsert_found, insert_external, refresh_external, refreshed, external_user, shadows_local, sourced,
  clashes, email_taken,
}
use omni_identity.Web.Login.{profile_of, auth_via_connectors, tried, provisioned}
use omni_identity.Web.Server.{Env, Login, Identity, failed, rejected, accepted}

-- The account of a user that a directory knows: it has the directory as its source, and the directory's
-- name for the user. A directory without a name stands as the local one.
abbrev pub Mirrors : Identity → User → Type 0
Mirrors id u =
    ((u.auth_source ≡ id.connector) ⊎ ((id.connector ≡ "") × (u.auth_source ≡ "local")))
    × (u.external_id ≡ id.external_id)

-- The first directory that accepts the credentials says who it is.
abbrev pub DecidedBy : List (String → String → Login) → String → String → Identity → Type 0
DecidedBy [] name password id = ⊥
DecidedBy (c ∷ cs) name password id =
    (c name password ≡ accepted id)
    ⊎ (((x : Identity) → c name password ≢ accepted x) × DecidedBy cs name password id)

-- The account is that of the user whom the first directory to accept the credentials names.
abbrev pub AcceptedBy : List (String → String → Login) → String → String → User → Type 0
AcceptedBy cs name password u = (id : Identity) × DecidedBy cs name password id × Mirrors id u

ok_inj : {x y : User} → ok x ≡ ok y → x ≡ y
ok_inj h = cc

err_not_ok : {e : StoreError} {x : User} → ◌≡◌ {A = Result User} (err e) (ok x) → ⊥
err_not_ok h = cc

abbrev Sourced : String → String → User → Type 0
Sourced source external_id u =
    ((u.auth_source ≡ source) ⊎ ((source ≡ "") × (u.auth_source ≡ "local")))
    × (u.external_id ≡ external_id)

sourced-Sourced : (v : User) → Sourced v.auth_source v.external_id (sourced v)
sourced-Sourced v = elim (Bool-cases (v.auth_source == "")) [
  | inl blank ↦ rw blank (inr ((eq_iff v.auth_source "").0 blank, refl), refl)
  | inr named ↦ rw named (inl refl, refl)
]

create_user-Sourced :
    (io : Io) (v : User) (db : Db) {u : User}
    → (create_user io v db).0 ≡ ok u
    → Sourced v.auth_source v.external_id u
unfolding create_user
create_user-Sourced io v db h =
    elim (Bool-cases (io.fails Stmt.create_user || any (clashes (sourced v)) db.users)) [
      | inl bad ↦ absurd (err_not_ok (rw bad at h))
      | inr fine ↦
          subst (Sourced v.auth_source v.external_id) (ok_inj (rw fine at h)) (sourced-Sourced v)
    ]

found-Sourced :
    (io : Io) (source external_id : String) (db : Db) {u : User}
    → get_user_by_external_id io source external_id db ≡ ok u
    → (u.auth_source ≡ source) × (u.external_id ≡ external_id)
unfolding get_user_by_external_id
found-Sourced io source external_id db {u} h =
    elim (Bool-cases (io.fails Stmt.get_user_by_external)) [
      | inl bad ↦ absurd (err_not_ok (rw bad at h))
      | inr fine ↦
          let passes =
            find-passes (λ x. x.auth_source == source && x.external_id == external_id) db.users
              (of_row _ (rw fine at h)) in
          (
            ground (arith, eq_iff u.auth_source source),
            ground (arith, eq_iff u.external_id external_id),
          )
    ]
  where
    of_row : (o : Option User) → row_of o ≡ ok u → o ≡ some u
    of_row none h = absurd (cc)
    of_row (some x) h = cc

refresh-Sourced :
    (io : Io) (p : Profile) (v : User) (db : Db) {u : User}
    → (v.auth_source ≡ p.source) × (v.external_id ≡ p.external_id)
    → (refresh_external io p v db).0 ≡ ok u
    → Sourced p.source p.external_id u
refresh-Sourced io p v db {u} (source, external_id) h =
    elim (Bool-cases (io.fails Stmt.update_user || email_taken v.id p.email db)) [
      | inl bad ↦ absurd (err_not_ok (rw bad at h))
      | inr fine ↦
          let same : refreshed io p v ≡ u = ok_inj (rw fine at h) in
          (
            inl (sym (ap (λ (x : User). x.auth_source) same) ∙ source),
            sym (ap (λ (x : User). x.external_id) same) ∙ external_id,
          )
    ]

insert-Sourced :
    (io : Io) (id : String) (p : Profile) (db : Db) {u : User}
    → (insert_external io id p db).0 ≡ ok u
    → Sourced p.source p.external_id u
insert-Sourced io id p db h =
    elim (Bool-cases (shadows_local (get_user_by_username io p.username db))) [
      | inl taken ↦ absurd (err_not_ok (rw taken at h))
      | inr free ↦ create_user-Sourced io (external_user io id p) db (rw free at h)
    ]

upsert_found-Sourced :
    (io : Io) (id : String) (p : Profile) (r : Result User) (db : Db) {u : User}
    → get_user_by_external_id io p.source p.external_id db ≡ r
    → (upsert_found io id p r db).0 ≡ ok u
    → Sourced p.source p.external_id u
upsert_found-Sourced io id p (ok v) db found h =
    refresh-Sourced io p v db (found-Sourced io p.source p.external_id db found) h
upsert_found-Sourced io id p (err not_found) db found h = insert-Sourced io id p db h
upsert_found-Sourced io id p (err driver_error) db found h = absurd (err_not_ok h)

upsert-Mirrors :
    (io : Io) (new_id : String) (id : Identity) (db : Db) {u : User}
    → (upsert_external_user io new_id (profile_of id) db).0 ≡ ok u
    → Mirrors id u
unfolding upsert_external_user
upsert-Mirrors io new_id id db h = upsert_found-Sourced io new_id (profile_of id) _ db refl h

provisioned-some : (r : Result User × Db) {u : User} → (provisioned r).0 ≡ some u → r.0 ≡ ok u
provisioned-some (ok v, db) h = cc
provisioned-some (err e, db) h = absurd (cc)

tried-Mirrors :
    (env : Env) (l : Login) (db : Db) (rest : Option User × Db) {u : User}
    → (tried env l db rest).0 ≡ some u
    → ((id : Identity) × (l ≡ accepted id) × Mirrors id u)
      ⊎ (((x : Identity) → l ≢ accepted x) × (rest.0 ≡ some u))
tried-Mirrors env (accepted id) db rest h =
    inl (id, refl, upsert-Mirrors env.io env.new_user_id id db (provisioned-some _ h))
tried-Mirrors env failed db rest h = inr (λ x e. absurd (cc), h)
tried-Mirrors env rejected db rest h = inr (λ x e. absurd (cc), h)

pub auth_via_connectors-AcceptedBy :
    (env : Env) (name password : String) (cs : List (String → String → Login)) (db : Db) {u : User}
    → (auth_via_connectors env name password cs db).0 ≡ some u
    → AcceptedBy cs name password u
unfolding auth_via_connectors
auth_via_connectors-AcceptedBy env name password [] db h = absurd (cc)
auth_via_connectors-AcceptedBy env name password (c ∷ cs) db h =
    let rest = auth_via_connectors-AcceptedBy env name password cs db in
    elim (tried-Mirrors env (c name password) db _ h) [
      | inl (id, accepts, mirrors) ↦ (id, inl accepts, mirrors)
      | inr (not_here, there) ↦
          let (id, decided, mirrors) = rest there in (id, inr (not_here, decided), mirrors)
    ]

-- Whatever a directory brings changes the users alone.
abbrev pub SameSessions : Db → Db → Type 0
SameSessions db db' = db'.sessions ≡ db.sessions

upsert-sessions :
    (io : Io) (id : String) (p : Profile) (db : Db)
    → (upsert_external_user io id p db).1.sessions ≡ db.sessions
unfolding upsert_external_user create_user
upsert-sessions io id p db = ground arith

provisioned-sessions :
    (r : Result User × Db) (db : Db)
    → r.1.sessions ≡ db.sessions
    → (provisioned r).1.sessions ≡ db.sessions
provisioned-sessions (ok u, db') db h = h
provisioned-sessions (err e, db') db h = h

tried-sessions :
    (env : Env) (l : Login) (db : Db) (rest : Option User × Db)
    → rest.1.sessions ≡ db.sessions
    → (tried env l db rest).1.sessions ≡ db.sessions
tried-sessions env (accepted id) db rest h =
    provisioned-sessions (upsert_external_user env.io env.new_user_id _ db) db
      (upsert-sessions env.io env.new_user_id _ db)
tried-sessions env failed db rest h = h
tried-sessions env rejected db rest h = h

pub auth_via_connectors-sessions :
    (env : Env) (name password : String) (cs : List (String → String → Login)) (db : Db)
    → (auth_via_connectors env name password cs db).1.sessions ≡ db.sessions
unfolding auth_via_connectors
auth_via_connectors-sessions env name password [] db = refl
auth_via_connectors-sessions env name password (c ∷ cs) db =
    tried-sessions env (c name password) db _ (auth_via_connectors-sessions env name password cs db)
