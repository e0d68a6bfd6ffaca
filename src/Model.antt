-- ===== src/Model.antt =====
-- internal/model/model.go: the domain types. A `time.Time` is the number of nanoseconds since Go's
-- zero time, so the zero time, which `IsZero` tests and a NULL column stands for, is 0. A pointer to
-- a time is an `Option`.
use omni_identity.Prelude.{
  ℕ, ◌/◌, ◌-◌, String, Bool, true, false, not, ◌&&◌, ◌||◌, Option, none, some, List, ◌==◌, ltb,
  if◌then◌else◌,
}

abbrev pub is_zero : ℕ → Bool
is_zero t = not (ltb 0 t)

abbrev pub second : ℕ
second = 1_000_000_000

-- Time.Unix. A time before 1970, whose Unix time is negative, reads as 0.
unfoldable pub unix : ℕ → ℕ
unix t = t / second - 62_135_596_800

abbrev pub client_type_public : String
client_type_public = "public"

abbrev pub client_type_confidential : String
client_type_confidential = "confidential"

pub record User : Type 0 where
  pub id : String
  pub username : String
  pub email : String
  pub password_hash : String
  pub is_admin : Bool
  pub disabled : Bool
  pub auth_source : String
  pub external_id : String
  pub failed_login_count : ℕ
  pub locked_until : ℕ
  pub mfa_enabled : Bool
  pub totp_secret : String
  pub web_authn_handle : String
  pub created_at : ℕ
  pub updated_at : ℕ

unfoldable pub is_local : User → Bool
is_local u = u.auth_source == "" || u.auth_source == "local"

unfoldable pub is_locked : User → ℕ → Bool
is_locked u now = not (is_zero u.locked_until) && ltb now u.locked_until

pub record Session : Type 0 where
  pub id : String
  pub user_id : String
  pub csrf_secret : String
  pub user_agent : String
  pub created_at : ℕ
  pub expires_at : ℕ
  pub last_seen_at : ℕ
  pub amr : String

pub record AuditEvent : Type 0 where
  pub id : String
  pub created_at : ℕ
  pub event : String
  pub actor_user_id : String
  pub username : String
  pub client_id : String
  pub ip : String
  pub user_agent : String
  pub success : Bool
  pub detail : String

pub record PasswordToken : Type 0 where
  pub id : String
  pub user_id : String
  pub token_hash : String
  pub purpose : String
  pub used : Bool
  pub expires_at : ℕ
  pub created_at : ℕ

pub record LoginChallenge : Type 0 where
  pub id : String
  pub user_id : String
  pub next : String
  pub req : String
  pub amr : String
  pub created_at : ℕ
  pub expires_at : ℕ

pub record RecoveryCode : Type 0 where
  pub id : String
  pub user_id : String
  pub code_hash : String
  pub used : Bool
  pub created_at : ℕ

pub record WebAuthnCeremony : Type 0 where
  pub id : String
  pub user_id : String
  pub purpose : String
  pub session_data : String
  pub next : String
  pub req : String
  pub created_at : ℕ
  pub expires_at : ℕ

pub record Client : Type 0 where
  pub client_id : String
  pub client_secret_hash : String
  pub name : String
  pub redirect_uris : List String
  pub allowed_scopes : List String
  pub client_type : String
  pub disabled : Bool
  pub display_name : String
  pub logo_url : String
  pub homepage_url : String
  pub post_logout_redirect_uris : List String
  pub skip_consent : Bool
  pub created_at : ℕ
  pub updated_at : ℕ

unfoldable pub is_public : Client → Bool
is_public c = c.client_type == client_type_public

abbrev pub enrollment_client_id : String
enrollment_client_id = "omni-enrollment"

unfoldable pub built_in : Client → Bool
built_in c = c.client_id == enrollment_client_id

pub record AuthRequest : Type 0 where
  pub id : String
  pub client_id : String
  pub redirect_uri : String
  pub response_type : String
  pub scope : String
  pub state : String
  pub nonce : String
  pub code_challenge : String
  pub code_challenge_method : String
  pub created_at : ℕ
  pub expires_at : ℕ

pub record AuthorizationCode : Type 0 where
  pub code_hash : String
  pub client_id : String
  pub user_id : String
  pub redirect_uri : String
  pub scope : String
  pub nonce : String
  pub code_challenge : String
  pub code_challenge_method : String
  pub expires_at : ℕ
  pub used : Bool
  pub created_at : ℕ
  pub auth_time : ℕ
  pub amr : String

pub record RefreshToken : Type 0 where
  pub id : String
  pub token_hash : String
  pub client_id : String
  pub user_id : String
  pub scope : String
  pub rotated_from : String
  pub revoked : Bool
  pub expires_at : ℕ
  pub created_at : ℕ
  pub auth_time : ℕ
  pub amr : String
  pub device_id : String
  pub dpop_jkt : String

pub data DeviceStatus : Type 0 where
  pending active revoked : DeviceStatus

unfoldable pub trust_for_key_backend : String → String
trust_for_key_backend backend =
    if backend == "tpm" || backend == "secure-enclave" || backend == "strongbox" || backend == "tee"
    then "hardware"
    else "enrolled"

pub record PersonalAccessToken : Type 0 where
  pub id : String
  pub user_id : String
  pub device_id : String
  pub client_id : String
  pub name : String
  pub scope : String
  pub created_at : ℕ
  pub expires_at : ℕ
  pub last_used_at : Option ℕ
  pub revoked_at : Option ℕ

abbrev pub is_nil {ℓ} : {A : Type ℓ} → Option A → Bool
is_nil none = true
is_nil (some a) = false

unfoldable pub pat_active : PersonalAccessToken → ℕ → Bool
pat_active p now = is_nil p.revoked_at && ltb now p.expires_at

pub record Device : Type 0 where
  pub id : String
  pub owner_user_id : String
  pub name : String
  pub hostname : String
  pub platform : String
  pub architecture : String
  pub public_key : String
  pub public_key_algorithm : String
  pub fingerprint : String
  pub previous_fingerprint : String
  pub status : DeviceStatus
  pub trust_level : String
  pub key_backend : String
  pub posture : String
  pub posture_at : ℕ
  pub owner_only : Bool
  pub created_at : ℕ
  pub enrolled_at : ℕ
  pub last_seen_at : ℕ
  pub revoked_at : ℕ

abbrev pub status_is_active : DeviceStatus → Bool
status_is_active DeviceStatus.active = true
status_is_active _ = false

abbrev pub status_is_pending : DeviceStatus → Bool
status_is_pending DeviceStatus.pending = true
status_is_pending _ = false

abbrev pub status_is_revoked : DeviceStatus → Bool
status_is_revoked DeviceStatus.revoked = true
status_is_revoked _ = false

unfoldable pub is_active : Device → Bool
is_active d = status_is_active d.status

unfoldable pub is_pending : Device → Bool
is_pending d = status_is_pending d.status

pub data DeviceCodeStatus : Type 0 where
  pending approved denied consumed : DeviceCodeStatus

pub record DeviceCode : Type 0 where
  pub id : String
  pub device_code_hash : String
  pub user_code : String
  pub client_id : String
  pub scope : String
  pub device_id : String
  pub device_name : String
  pub device_platform : String
  pub status : DeviceCodeStatus
  pub user_id : String
  pub amr : String
  pub auth_time : ℕ
  pub last_polled_at : ℕ
  pub created_at : ℕ
  pub expires_at : ℕ

abbrev pub code_is_pending : DeviceCodeStatus → Bool
code_is_pending DeviceCodeStatus.pending = true
code_is_pending _ = false

abbrev pub code_is_approved : DeviceCodeStatus → Bool
code_is_approved DeviceCodeStatus.approved = true
code_is_approved _ = false
