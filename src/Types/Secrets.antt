-- ===== src/Types/Secrets.antt =====
-- The stored second factors: src/types/auth.ts.
use tinyland_auth.Base.{ℕ, Bool, String, List, Option}
use tinyland_auth.Types.{Timestamp}

-- `EncryptedTOTPSecret`
pub record EncryptedTotpSecret : Type 0 where
  pub user_id : String
  pub handle : String
  pub encrypted_secret : String
  pub iv : String
  pub auth_tag : String
  pub salt : String
  pub created_at : Timestamp
  pub last_used_at : Option Timestamp
  pub last_used_totp_step : Option ℕ
  pub backup_codes_generated : Bool
  pub version : ℕ

-- `EncryptedBackupCode`
pub record EncryptedBackupCode : Type 0 where
  pub id : String
  pub hash : String
  pub used : Bool
  pub used_at : Option Timestamp

-- `BackupCodeSet`
pub record BackupCodeSet : Type 0 where
  pub user_id : String
  pub codes : List EncryptedBackupCode
  pub generated_at : Timestamp
  pub last_used_at : Option Timestamp
