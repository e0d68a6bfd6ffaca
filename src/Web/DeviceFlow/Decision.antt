-- ===== src/Web/DeviceFlow/Decision.antt =====
-- What a decision of the user does to a grant.
use mathlib.Core.Path.{subst}
use omni_identity.Oidc.Scope.{has_scope, scope_device_enroll}
use omni_identity.Web.DeviceGrant.Redeem.{append_audit_event-device_codes}
use omni_identity.Prelude.{
  ne_of_test, String, Bool, true, false, Option, ◌≡◌, ◌≢◌, ◌⊎◌, inl, inr, refl, ◌∙◌, any, arith,
  ◌==◌, eq_iff, Bool-cases,
}
use omni_identity.Model.{User, Session, DeviceCode}
use omni_identity.Store.Io.{Db, Result, ok, err, Stmt}
use omni_identity.Store.DeviceCodes.{
  get_pending_device_code_by_user_code, approve_device_code, deny_device_code,
}
use omni_identity.Web.DeviceFlow.Rows.{
  PendingGrant, get_pending-PendingGrant, PendingGrant-waits, OpenTo, owner_forbids-OpenTo,
  OthersKept, approved_for, denied, waiting, approve-rows, deny-rows, deny-failed,
}
use omni_identity.Web.Codes.{normalize_user_code}
use omni_identity.Web.RateLimit.{RateLimiter, allowed}
use omni_identity.Web.Server.{Env, Request, State}
use omni_identity.Web.Handler.{
  Reply, done, after_bind, after_exec, reject, when, attempt, audit, pure, record_metric, ◌>>=◌,
}
use omni_identity.Web.DeviceFlow.{
  looked_up, lookup_user_code, owner_forbids, refuse_stranger, refuse_if, session_amr, session_time,
  approve_grant, deny_grant, decide, handle_device_confirm, device_code_max_attempts,
}

looked_up-found :
    (env : Env) (req : Request) (code : String) (rl : RateLimiter) (r : Result DeviceCode)
    {dc : DeviceCode}
    → (looked_up env req code rl r).0 ≡ done dc
    → r ≡ ok dc
looked_up-found env req code rl (ok d) h = cc
looked_up-found env req code rl (err e) h = absurd (cc)

abbrev pub budget_left : Env → Request → State → Bool
budget_left env req s =
    (allowed env.io.now req.ip device_code_max_attempts env.settings.rate_limit_window
      s.device_code_rate).0

-- A lookup that answers was within the budget, found a pending grant, and changes no table.
lookup_user_code-found :
    (env : Env) (req : Request) (s : State) {dc : DeviceCode}
    → (lookup_user_code env req s).0 ≡ done dc
    → (budget_left env req s ≡ true)
      × (get_pending_device_code_by_user_code env.io
            (normalize_user_code (req.form "user_code"))
            s.db
          ≡ ok dc)
      × ((lookup_user_code env req s).1.db ≡ s.db)
unfolding lookup_user_code
lookup_user_code-found env req s {dc} h = elim (Bool-cases (budget_left env req s)) [
  | inl free ↦ rw free (refl, looked_up-found env req _ _ _ (rw free at h), refl)
  | inr spent ↦ absurd (ground arith)
]

-- Past the owner's rule, nothing has changed.
refuse_if-passed :
    (env : Env) (req : Request) (user : User) (dc : DeviceCode) (s : State) {u : Unit {0}}
    → (refuse_if env req user dc s).0 ≡ done u
    → (owner_forbids env user dc s.db ≡ false) × ((refuse_if env req user dc s).1 ≡ s)
unfolding refuse_stranger attempt audit record_metric reject when ◌>>=◌
refuse_if-passed env req user dc s h = elim (Bool-cases (owner_forbids env user dc s.db)) [
  | inl stranger ↦ absurd (ground arith)
  | inr fine ↦ rw fine (refl, refl)
]

-- The statement on the codes that a decision runs.
abbrev Ran : Env → Request → User → Option Session → DeviceCode → Db → Db → Type 0
Ran env req user sess dc db db' =
    ((req.form "action" ≡ "allow")
      × ((approve_device_code env.io dc.id user.id (session_amr sess) (session_time env.io.now sess)
            db).0
          ≡ ok tt)
      × (db'.device_codes
          ≡ (approve_device_code env.io dc.id user.id (session_amr sess)
              (session_time env.io.now sess) db).1.device_codes))
    ⊎ ((req.form "action" ≢ "allow")
        × (db'.device_codes ≡ (deny_device_code env.io dc.id db).1.device_codes))

approve_grant-codes :
    (env : Env) (req : Request) (user : User) (sess : Option Session) (dc : DeviceCode) (s : State)
    {msg : String} {s' : State}
    → approve_grant env req user sess dc s ≡ (done msg, s')
    → ((approve_device_code env.io dc.id user.id
          (session_amr sess)
          (session_time env.io.now sess)
          s.db).0
        ≡ ok tt)
      × (s'.db.device_codes
          ≡ (approve_device_code env.io dc.id user.id
              (session_amr sess)
              (session_time env.io.now sess)
              s.db).1.device_codes)
unfolding approve_grant audit attempt record_metric pure ◌>>=◌
approve_grant-codes env req user sess dc s h =
    let (_, approved, h1) = after_exec _ _ _ s h in
    let db1 =
      (approve_device_code env.io dc.id user.id (session_amr sess) (session_time env.io.now sess)
        s.db).1 in
    (
      approved,
      subst (λ (p : Reply String × State). p.1.db.device_codes ≡ db1.device_codes) h1
          (append_audit_event-device_codes env.io _ db1),
    )

deny_grant-codes :
    (env : Env) (req : Request) (user : User) (dc : DeviceCode) (s : State) {msg : String}
    {s' : State}
    → deny_grant env req user dc s ≡ (done msg, s')
    → s'.db.device_codes ≡ (deny_device_code env.io dc.id s.db).1.device_codes
unfolding deny_grant audit attempt record_metric when pure ◌>>=◌
deny_grant-codes env req user dc s h = elim (Bool-cases (has_scope dc.scope scope_device_enroll)) [
  | inl e ↦
      subst
        (λ (p : Reply String × State).
          p.1.db.device_codes ≡ (deny_device_code env.io dc.id s.db).1.device_codes)
        (rw e at h) (append_audit_event-device_codes env.io _ _)
  | inr e ↦
      subst
        (λ (p : Reply String × State).
          p.1.db.device_codes ≡ (deny_device_code env.io dc.id s.db).1.device_codes)
        (rw e at h) (append_audit_event-device_codes env.io _ _)
]

decide-Ran :
    (env : Env) (req : Request) (user : User) (sess : Option Session) (dc : DeviceCode) (s : State)
    {msg : String} {s' : State}
    → decide env req user sess dc s ≡ (done msg, s')
    → Ran env req user sess dc s.db s'.db
unfolding decide
decide-Ran env req user sess dc s h = elim (Bool-cases (req.form "action" == "allow")) [
  | inl e ↦
      let approval = approve_grant-codes env req user sess dc s (rw e at h) in
      inl (ground (arith, eq_iff (req.form "action") "allow"), approval.0, approval.1)
  | inr e ↦
      inr (ne_of_test (req.form "action") "allow" e, deny_grant-codes env req user dc s (rw e at h))
]

-- What the decision does to the codes, where `dc` waits before it.
pub data Outcome (env : Env) (req : Request) (user : User) (sess : Option Session) (dc : DeviceCode)
    (db db' : Db) : Type 0 where
  approved :
      req.form "action" ≡ "allow"
      → any
          (approved_for dc.id user.id (session_amr sess) (session_time env.io.now sess))
          db'.device_codes
        ≡ true
      → any (waiting dc.id) db'.device_codes ≡ false
      → OthersKept dc.id db.device_codes db'.device_codes
      → Outcome env req user sess dc db db'
  refused :
      req.form "action" ≢ "allow"
      → any (denied dc.id) db'.device_codes ≡ true
      → any (waiting dc.id) db'.device_codes ≡ false
      → OthersKept dc.id db.device_codes db'.device_codes
      → Outcome env req user sess dc db db'
  unsaved :
      req.form "action" ≢ "allow"
      → env.io.fails Stmt.deny_code ≡ true
      → db'.device_codes ≡ db.device_codes
      → Outcome env req user sess dc db db'

Ran-Outcome :
    (env : Env) (req : Request) (user : User) (sess : Option Session) (dc : DeviceCode)
    (db db' : Db)
    → any (waiting dc.id) db.device_codes ≡ true
    → Ran env req user sess dc db db'
    → Outcome env req user sess dc db db'
Ran-Outcome env req user sess dc db db' waits (inl (allow, ran, rows)) =
    let (mine, shut, others) =
      approve-rows env.io dc.id user.id (session_amr sess) (session_time env.io.now sess) db ran in
    approved allow (rw rows mine) (rw rows shut) (rw rows others)
Ran-Outcome env req user sess dc db db' waits (inr (other, rows)) =
    elim (Bool-cases (env.io.fails Stmt.deny_code)) [
      | inl bad ↦ unsaved other bad (rows ∙ deny-failed env.io dc.id db bad)
      | inr works ↦
          let (gone, shut, others) = deny-rows env.io dc.id db works waits in
          refused other (rw rows gone) (rw rows shut) (rw rows others)
    ]

-- What is true of a decision that is answered.
pub record Decided (env : Env) (req : Request) (user : User) (sess : Option Session) (s : State)
    (s' : State) : Type 0 where
  pub dc : DeviceCode
  pub budget : budget_left env req s ≡ true
  pub grant : PendingGrant env.io.now (normalize_user_code (req.form "user_code")) s.db dc
  pub permitted : OpenTo env user dc s.db
  pub outcome : Outcome env req user sess dc s.db s'.db

-- A decision is answered only within the budget of the address, on a stored grant of the user code
-- that is pending and in time, and whose device, if it has one that can be read, is shared or the
-- user's own. With the action `allow` a row of the grant is approved afterwards for that user, with
-- the session's methods and time; with any other a row of it is denied, unless the store has failed
-- and the codes are as before. In both no row of the grant is pending any more, and the rows of other
-- grants are as they were.
pub handle_device_confirm-Decided :
    (env : Env) (user : User) (sess : Option Session) (req : Request) (s : State) {msg : String}
    {s' : State}
    → handle_device_confirm env user sess req s ≡ (done msg, s')
    → Decided env req user sess s s'
unfolding handle_device_confirm
handle_device_confirm-Decided env user sess req s {msg} {s'} h =
    let (dc, answered, h1) = after_bind (lookup_user_code env req) _ s h in
    let s1 = (lookup_user_code env req s).1 in
    let (budget, found, same) = lookup_user_code-found env req s answered in
    let (_, passed, h2) = after_bind (refuse_if env req user dc) _ s1 h1 in
    let (permitted, still) = refuse_if-passed env req user dc s1 passed in
    let h3 : decide env req user sess dc s1 ≡ (done msg, s') =
      subst (λ x. decide env req user sess dc x ≡ (done msg, s')) still h2 in
    let code = normalize_user_code (req.form "user_code") in
    let grant = get_pending-PendingGrant env.io code s.db found in
    record {
      dc = dc;
      budget = budget;
      grant = grant;
      permitted =
          owner_forbids-OpenTo env user dc s.db
            (subst (λ db. owner_forbids env user dc db ≡ false) same permitted);
      outcome =
          Ran-Outcome env req user sess dc s.db s'.db
            (PendingGrant-waits env.io.now code s.db dc grant)
            (subst (λ db. Ran env req user sess dc db s'.db) same
              (decide-Ran env req user sess dc s1 h3));
    }
