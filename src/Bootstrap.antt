-- ===== src/Bootstrap.antt =====
-- The records of the bootstrap of the first administrator: src/modules/bootstrap/index.ts and
-- src/types/api.ts, over the part of src/storage/interface.ts that it uses.
pub mod Service
pub mod Once
pub mod Sound
pub mod Adapters
pub mod Completes
pub mod Durable
use tinyland_auth.Base.{ℕ, Bool, String, List, Option, Result, ok, err}
use tinyland_auth.Types.{AdminUser}
use tinyland_auth.Types.Secrets.{EncryptedTotpSecret, BackupCodeSet}
use tinyland_auth.Types.Audit.{EventData}

-- `BootstrapStorage`, with the ids and times that its adapters take.
pub record BootstrapStorage (S : Type 0) : Type 0 where
  pub has_users : S → Result Bool
  pub create_user : String → ℕ → AdminUser → S → Result AdminUser × S
  pub get_totp_secret : String → S → Result (Option EncryptedTotpSecret)
  pub save_totp_secret : String → EncryptedTotpSecret → S → Result (Unit {0}) × S
  pub save_backup_codes : String → BackupCodeSet → S → Result (Unit {0}) × S
  pub log_audit_event : String → EventData → S → Result (Unit {0}) × S

-- `BootstrapServiceConfig`, without the storage
pub record BootstrapServiceConfig : Type 0 where
  pub app_name : String
  pub bcrypt_rounds : ℕ
  pub generate_qr_code : String → String → String → Result String
  pub encrypt_totp_secret : String → String → Result EncryptedTotpSecret

-- `BootstrapRequest`
pub record BootstrapRequest : Type 0 where
  pub handle : String
  pub password : String
  pub display_name : String
  pub email : Option String

-- The `profile` of a state
pub record BootstrapProfile : Type 0 where
  pub bio : Option String
  pub pronouns : Option String
  pub avatar_url : Option String

-- `BootstrapState`
pub record BootstrapState : Type 0 where
  pub handle : String
  pub password_hash : String
  pub display_name : String
  pub email : Option String
  pub totp_secret : String
  pub backup_codes : List String
  pub timestamp : ℕ
  pub step : ℕ
  pub profile : Option BootstrapProfile

-- `BootstrapVerificationRequest`
pub record BootstrapVerificationRequest : Type 0 where
  pub handle : String
  pub totp_code : String

-- `BootstrapStatus`
pub record BootstrapStatus : Type 0 where
  pub needs_bootstrap : Bool
  pub has_users : Bool
  pub system_configured : Bool

-- What `initiate` gives.
pub record BootstrapSetup : Type 0 where
  pub state : BootstrapState
  pub qr_code_url : String
  pub backup_codes : List String

-- `BootstrapResponse`, where `success` says which; the user is without its password hash.
pub data BootstrapResponse : Type 0 where
  refused : (error : String) → BootstrapResponse
  completed : AdminUser → (backup_codes : List String) → BootstrapResponse

-- A storage operation and the steps after it.
abbrev pub followed : {A B S : Type 0} → Result A × S → (A → S → Result B × S) → Result B × S
followed (err message, s) rest = (err message, s)
followed (ok value, s) rest = rest value s

-- A computation that may throw and the steps after it.
abbrev pub attempted : {A B S : Type 0} → Result A → S → (A → Result B × S) → Result B × S
attempted (err message) s rest = (err message, s)
attempted (ok value) s rest = rest value
