-- ===== src/Store/Io.antt =====
-- The tables, the results of store operations (internal/store/errors.go) and the environment.
use omni_identity.Prelude.{ℕ, String, Bool, true, false, Option, none, some, List}
use omni_identity.Model.{
  User, Client, Session, AuditEvent, PasswordToken, LoginChallenge, WebAuthnCeremony, AuthRequest,
  AuthorizationCode, RefreshToken, Device, DeviceCode, PersonalAccessToken, RecoveryCode,
}

-- A row of device_assertion_jtis.
pub record Jti : Type 0 where
  pub jti_hash : String
  pub device_id : String
  pub expires_at : ℕ

pub record Db : Type 0 where
  pub users : List User
  pub clients : List Client
  pub sessions : List Session
  pub auth_codes : List AuthorizationCode
  pub auth_requests : List AuthRequest
  pub refresh_tokens : List RefreshToken
  pub login_challenges : List LoginChallenge
  pub password_tokens : List PasswordToken
  pub devices : List Device
  pub device_codes : List DeviceCode
  pub ceremonies : List WebAuthnCeremony
  pub jtis : List Jti
  pub pats : List PersonalAccessToken
  pub audit_log : List AuditEvent
  pub recovery_codes : List RecoveryCode

-- The operations that can fail.
pub data Stmt : Type 0 where
  get_user get_client append_audit : Stmt
  create_code consume_code delete_codes : Stmt
  create_request get_request delete_request delete_requests : Stmt
  create_refresh rotate_refresh get_refresh revoke_refresh revoke_refresh_pair : Stmt
  create_device set_posture get_device fingerprint_count touch_device revoke_device : Stmt
  delete_device rotate_key approve_device set_owner_only : Stmt
  prune_jtis insert_jti : Stmt
  create_device_code get_device_code approve_code deny_code consume_device_code poll_code : Stmt
  delete_device_codes : Stmt
  create_session touch_session get_session delete_session delete_sessions : Stmt
  create_pat revoke_pat : Stmt
  create_user get_user_by_name get_user_by_external update_user count_admins : Stmt
  record_failed read_failed reset_failed set_user_mfa set_user_password set_user_disabled
        delete_user :
      Stmt
  create_password_token consume_password_token read_password_token : Stmt
  get_password_token : Stmt
  delete_user_password_tokens : Stmt
  replace_recovery consume_recovery count_recovery delete_recovery : Stmt
  create_challenge get_challenge delete_challenge : Stmt
  delete_challenges delete_password_tokens delete_ceremonies delete_jtis : Stmt

pub record Io : Type 0 where
  pub now : ℕ
  pub fails : Stmt → Bool

pub data StoreError : Type 0 where
  not_found driver_error : StoreError

pub data Result {ℓ} (A : Type ℓ) : Type ℓ where
  ok : A → Result A
  err : StoreError → Result A

-- errors.Is(err, sql.ErrNoRows) → ErrNotFound.
abbrev pub row_of {ℓ} : {A : Type ℓ} → Option A → Result A
row_of none = err not_found
row_of (some a) = ok a

-- requireRow: no row affected is ErrNotFound.
abbrev pub changed {ℓ} : {A : Type ℓ} → Bool → A → A → Result (Unit {0}) × A
changed true new old = (ok tt, new)
changed false new old = (err not_found, old)
