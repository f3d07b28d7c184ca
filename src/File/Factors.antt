-- ===== src/File/Factors.antt =====
-- The second factors in the file adapter: src/storage/file.ts.
use tinyland_auth.Base.{
  Bool, true, false, not, ◌&&◌, String, List, [], ◌∷◌, ◌==◌, Option, none, some, Result, ok, err,
  leb, is_empty, includes, if◌then◌else◌,
}
use tinyland_auth.Base.Assoc.{get, put, remove, has}
use tinyland_auth.Types.{Timestamp}
use tinyland_auth.Types.Secrets.{EncryptedTotpSecret, EncryptedBackupCode, BackupCodeSet}
use tinyland_auth.Sessions.Policy.{has_nul, is_date}
use tinyland_auth.StepUp.Records.{is_hex64}
use tinyland_auth.File.{Files, Writing, write_json_file}

-- `isText`
unfoldable pub is_text : String → Bool
is_text s = not (is_empty s) && not (has_nul s)

-- An optional date: absent, or a date that parses.
abbrev pub is_optional_date : Option Timestamp → Bool
is_optional_date none = true
is_optional_date (some t) = is_date t

-- `isStoredFactor`, on the fields of a secret: the step is a number that is no fraction.
unfoldable pub is_stored_factor : EncryptedTotpSecret → String → Bool
is_stored_factor v handle =
    v.handle == handle
    && is_text v.user_id
    && is_text v.encrypted_secret
    && is_text v.iv
    && is_text v.auth_tag
    && is_text v.salt
    && is_date v.created_at
    && is_optional_date v.last_used_at
    && leb 1 v.version

-- The loop of `isStoredBackupCodes`, on the ids and hashes met so far.
unfoldable pub all_codes_stored : List String → List String → List EncryptedBackupCode → Bool
all_codes_stored ids hashes [] = true
all_codes_stored ids hashes (c ∷ cs) =
    is_text c.id
    && is_hex64 c.hash
    && is_optional_date c.used_at
    && not (includes c.id ids)
    && not (includes c.hash hashes)
    && all_codes_stored (c.id ∷ ids) (c.hash ∷ hashes) cs

-- `isStoredBackupCodes`
unfoldable pub is_stored_backup_codes : BackupCodeSet → String → Bool
is_stored_backup_codes v user_id =
    v.user_id == user_id
    && is_date v.generated_at
    && is_optional_date v.last_used_at
    && all_codes_stored [] [] v.codes

-- `getTOTPSecret`
unfoldable pub get_totp_secret : String → Files → Result (Option EncryptedTotpSecret)
get_totp_secret handle files = elim (get handle files.secrets) [
  | none ↦ ok none
  | some secret ↦
      if is_stored_factor secret handle
      then ok (some secret)
      else err "Invalid stored TOTP credential"
]

-- `saveTOTPSecret`
unfoldable pub save_totp_secret :
    Writing → String → EncryptedTotpSecret → Files → Result (Unit {0}) × Files
save_totp_secret w handle secret files =
    write_json_file w tt (record files { secrets = put handle secret files.secrets }) files

-- `deleteTOTPSecret`: a failed unlink answers false.
unfoldable pub delete_totp_secret : Writing → String → Files → Bool × Files
delete_totp_secret w handle files =
    if w.renamed && has handle files.secrets
    then (true, record files { secrets = remove handle files.secrets })
    else (false, files)

-- `getBackupCodes`
unfoldable pub get_backup_codes : String → Files → Result (Option BackupCodeSet)
get_backup_codes user_id files = elim (get user_id files.backup_codes) [
  | none ↦ ok none
  | some codes ↦
      if is_stored_backup_codes codes user_id
      then ok (some codes)
      else err "Invalid stored backup-code credential"
]

-- `saveBackupCodes`
unfoldable pub save_backup_codes :
    Writing → String → BackupCodeSet → Files → Result (Unit {0}) × Files
save_backup_codes w user_id codes files =
    write_json_file w tt (record files { backup_codes = put user_id codes files.backup_codes })
      files

-- `deleteBackupCodes`
unfoldable pub delete_backup_codes : Writing → String → Files → Bool × Files
delete_backup_codes w user_id files =
    if w.renamed && has user_id files.backup_codes
    then (true, record files { backup_codes = remove user_id files.backup_codes })
    else (false, files)
