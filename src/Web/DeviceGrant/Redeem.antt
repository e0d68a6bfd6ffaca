-- ===== src/Web/DeviceGrant/Redeem.antt =====
-- The parts of the device_code grant: what its checks mean, and what its steps do to the row of the
-- code.
use omni_identity.Prelude.{
  ℕ, String, true, Option, none, some, ◌≡◌, ◌⊎◌, inl, inr, refl, arith, ◌==◌, eq_iff, eq_refl,
  Bool-cases, eq_of_refusal, eq_of_guarded_refusal, find, find-update_where_other,
}
use omni_identity.Model.{
  User, Client, Device, DeviceCode, DeviceCodeStatus, RefreshToken, AuditEvent,
}
use omni_identity.Store.Io.{Db, Io, ok, Stmt, row_of}
use omni_identity.Store.Clients.{append_audit_event}
use omni_identity.Store.DeviceCodes.{
  approved_with_id, consume, get_device_code_by_hash, consume_device_code_row,
  mark_device_code_polled,
}
use omni_identity.Store.RefreshTokens.{create_refresh_token}
use omni_identity.Web.Server.{Env, Request, State}
use omni_identity.Web.Handler.{done, HttpError, AuditEntry, after_bind, after_reject_if, audit}
use omni_identity.Web.Handler.Keeps.{Keeps, Keeps-if, keeps_rules}
use omni_identity.Web.Issue.{TokenResponse, TokenContext, record_token_metrics}
use omni_identity.Web.Grants.{issue_refresh}
use omni_identity.Web.Grants.Keeps.{issue_refresh-Keeps, audit-Keeps}
use omni_identity.Web.Dpop.{authenticate_device_request}
use omni_identity.Web.Dpop.Codes.{authenticate_device_request-codes}
use omni_identity.Web.DeviceGrant.{
  answer_device, authenticated_device, bound_device, issue_for_device,
}

-- The row of a device code.
abbrev pub device_code_row : String → Db → Option DeviceCode
device_code_row h db = find (λ c. c.device_code_hash == h) db.device_codes

create_refresh_token-device_codes :
    (io : Io) (rt : RefreshToken) (db : Db)
    → (create_refresh_token io rt db).1.device_codes ≡ db.device_codes
unfolding create_refresh_token
create_refresh_token-device_codes io rt db = ground arith

pub append_audit_event-device_codes :
    (io : Io) (ev : AuditEvent) (db : Db)
    → (append_audit_event io ev db).device_codes ≡ db.device_codes
unfolding append_audit_event
append_audit_event-device_codes io ev db = ground arith

pub get_device_code_by_hash-row :
    (io : Io) (h : String) (db : Db) {c : DeviceCode}
    → get_device_code_by_hash io h db ≡ ok c
    → device_code_row h db ≡ some c
unfolding get_device_code_by_hash
get_device_code_by_hash-row io h db {c} r = elim (Bool-cases (io.fails Stmt.get_device_code)) [
  | inl broken ↦ absurd (ground arith)
  | inr works ↦ row_of-ok (device_code_row h db) (ground arith)
]
  where
    row_of-ok : (o : Option DeviceCode) → row_of o ≡ ok c → o ≡ some c
    row_of-ok none e = absurd (cc)
    row_of-ok (some d) e = cc

module _ (h : String) (row : Option DeviceCode) where
  abbrev pub HasRow : Db → Type 0
  HasRow db = device_code_row h db ≡ row

  -- The steps after the consumption leave the codes alone.
  pub issue_for_device-Keeps :
      (env : Env) (req : Request) (client : Client) (user : User) (dc : DeviceCode)
      (tc : TokenContext)
      → Keeps HasRow (issue_for_device env req client user dc tc)
  unfolding issue_for_device record_token_metrics
  issue_for_device-Keeps env req client user dc tc = search (keeps_rules, audited, refresh) depth 12
    where
      audited : (event : String) (e : AuditEntry) → Keeps HasRow (audit env req event e)
      audited = audit-Keeps env (λ ev db e. rw (append_audit_event-device_codes env.io ev db) e) req

      refresh :
          (client : Client) (user : User) (scope : String) (t : ℕ) (tc : TokenContext)
          (resp : TokenResponse)
          → Keeps HasRow (issue_refresh env client user scope t tc resp)
      refresh =
          issue_refresh-Keeps env (λ rt db e. rw (create_refresh_token-device_codes env.io rt db) e)

  authenticated_device-Keeps :
      (env : Env) (req : Request) (e : HttpError) → Keeps HasRow (authenticated_device env req e)
  unfolding authenticated_device
  authenticated_device-Keeps env req e = record {
    at = λ s k. rw (authenticate_device_request-codes env req s.db) k;
  }

  -- Nor does the authentication of the device change them.
  pub bound_device-Keeps :
      (env : Env) (req : Request) (dc : DeviceCode) → Keeps HasRow (bound_device env req dc)
  unfolding bound_device
  bound_device-Keeps env req dc =
      Keeps-if (dc.device_id == "") _ _ (search keeps_rules)
        (search (keeps_rules, authenticated_device-Keeps) depth 9)

-- A row whose status has come to `st`.
abbrev pub RowIs : String → String → DeviceCodeStatus → Db → Type 0
RowIs h id st db =
    (c : DeviceCode) × (device_code_row h db ≡ some c) × (c.id ≡ id) × (c.status ≡ st)

pub polled-RowIs :
    (io : Io) (h : String) (id : String) (now : ℕ) (db : Db) {c : DeviceCode}
    → device_code_row h db ≡ some c
    → RowIs h c.id c.status (mark_device_code_polled io id now db)
unfolding mark_device_code_polled
polled-RowIs io h id now db {c} e = elim (Bool-cases (io.fails Stmt.poll_code)) [
  | inl broken ↦ rw broken (c, e, refl, refl)
  | inr works ↦
      let poll : DeviceCode → DeviceCode = λ d. record d { last_polled_at = now } in
      rw
        (
          works,
          find-update_where_other (λ d. d.device_code_hash == h) (λ d. d.id == id) poll
              db.device_codes (λ d. refl),
          e,
        )
        (elim (Bool-cases (c.id == id)) [
          | inl t ↦ rw t (poll c, refl, refl, refl)
          | inr t ↦ rw t (c, refl, refl, refl)
        ])
]

pub consumed-RowIs :
    (io : Io) (h id : String) (db : Db)
    → RowIs h id DeviceCodeStatus.approved db
    → (consume_device_code_row io id db).0 ≡ ok true
    → RowIs h id DeviceCodeStatus.consumed (consume_device_code_row io id db).1
unfolding consume_device_code_row
consumed-RowIs io h id db (c, e, same, st) won =
    elim (Bool-cases (io.fails Stmt.consume_device_code)) [
      | inl broken ↦ absurd (ground arith)
      | inr works ↦
          let hit : approved_with_id id c ≡ true = rw (same, st, eq_refl id) refl in
          rw
            (
              works,
              find-update_where_other (λ d. d.device_code_hash == h) (approved_with_id id) consume
                  db.device_codes (λ d. refl),
              e,
              hit,
            )
            (consume c, refl, same, refl)
    ]

-- The device that a bound grant asks for: the one that authenticated the request, and, where that
-- device takes sign-ins from its owner alone, of the user who approved.
abbrev pub BoundDevice : Env → Request → DeviceCode → Db → Type 0
BoundDevice env req dc db =
    (dc.device_id ≡ "")
    ⊎ ((d : Device) × ((authenticate_device_request env req db).0 ≡ some d)
        × (d.id ≡ dc.device_id)
        × (d.owner_only ≡ true → d.owner_user_id ≡ dc.user_id))

authenticated_device-found :
    (env : Env) (req : Request) (e : HttpError) (s : State) {d : Device}
    → (authenticated_device env req e s).0 ≡ done d
    → (authenticate_device_request env req s.db).0 ≡ some d
unfolding authenticated_device
authenticated_device-found env req e s {d} h =
    answer-found (authenticate_device_request env req s.db).0 h
  where
    answer-found : (o : Option Device) → answer_device e o ≡ done d → o ≡ some d
    answer-found none r = absurd (cc)
    answer-found (some x) r = cc

pub bound_device-BoundDevice :
    (env : Env) (req : Request) (dc : DeviceCode) (s : State) {o : Option Device} {s' : State}
    → bound_device env req dc s ≡ (done o, s')
    → BoundDevice env req dc s.db
unfolding bound_device
bound_device-BoundDevice env req dc s h = elim (Bool-cases (dc.device_id == "")) [
  | inl unbound ↦ inl ((eq_iff dc.device_id "").0 unbound)
  | inr bound ↦
      let (d, found, h1) = after_bind _ _ s (rw bound at h) in
      let (same, h2) = after_reject_if _ _ _ _ h1 in
      let (owned, _) = after_reject_if _ _ _ _ h2 in
      inr (
        d,
        authenticated_device-found env req _ s found,
        eq_of_refusal d.id dc.device_id same,
        eq_of_guarded_refusal d.owner_only d.owner_user_id dc.user_id owned,
      )
]
