-- ===== src/Memory/Factors.antt =====
-- The second factors in the memory adapter: src/storage/memory.ts.
use tinyland_auth.Base.{Bool, String, Option, to_lower}
use tinyland_auth.Base.Assoc.{get, put, remove, has}
use tinyland_auth.Types.Secrets.{EncryptedTotpSecret, BackupCodeSet}
use tinyland_auth.Memory.{Memory}

-- `getTOTPSecret`
unfoldable pub get_totp_secret : String → Memory → Option EncryptedTotpSecret
get_totp_secret handle m = get (to_lower handle) m.totp_secrets

-- `saveTOTPSecret`
unfoldable pub save_totp_secret : String → EncryptedTotpSecret → Memory → Memory
save_totp_secret handle secret m = record m {
  totp_secrets = put (to_lower handle) secret m.totp_secrets;
}

-- `deleteTOTPSecret`
unfoldable pub delete_totp_secret : String → Memory → Bool × Memory
delete_totp_secret handle m = (
  has (to_lower handle) m.totp_secrets,
  record m { totp_secrets = remove (to_lower handle) m.totp_secrets },
)

-- `getBackupCodes`
unfoldable pub get_backup_codes : String → Memory → Option BackupCodeSet
get_backup_codes user_id m = get user_id m.backup_codes

-- `saveBackupCodes`
unfoldable pub save_backup_codes : String → BackupCodeSet → Memory → Memory
save_backup_codes user_id codes m = record m { backup_codes = put user_id codes m.backup_codes }

-- `deleteBackupCodes`
unfoldable pub delete_backup_codes : String → Memory → Bool × Memory
delete_backup_codes user_id m =
    (has user_id m.backup_codes, record m { backup_codes = remove user_id m.backup_codes })
