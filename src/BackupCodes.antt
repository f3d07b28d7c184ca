-- ===== src/BackupCodes.antt =====
-- Backup codes: src/core/backup-codes/index.ts.
use Prim.Native.Char.{Char, code}
use Prim.Native.String
use Prim.Native.String.{char_at}
use tinyland_auth.Base.{
  ℕ, zero, suc, ◌+◌, ◌-◌, Bool, true, false, not, ◌&&◌, ◌||◌, String, List, [], ◌∷◌, ◌==◌, Option,
  none, some, if◌then◌else◌, ltb, leb, nat_eq, filter, length, map,
}
use tinyland_auth.Types.{Timestamp}
use tinyland_auth.Types.Secrets.{BackupCodeSet, EncryptedBackupCode}
pub mod Matching
pub mod Laws

-- `toUpperCase` of an ASCII character.
unfoldable pub upper_char : Char → Char
upper_char c =
    if leb 97 (code c) && leb (code c) 122
    then char_at "ABCDEFGHIJKLMNOPQRSTUVWXYZ" (code c - 97)
    else c

-- `[A-Z0-9]`
abbrev pub is_code_char : Char → Bool
is_code_char c = (leb 65 (code c) && leb (code c) 90) || (leb 48 (code c) && leb (code c) 57)

-- `code.toUpperCase().replace(/[^A-Z0-9]/g, '')`
unfoldable pub normalize_code : String → String
normalize_code String.[] = String.[]
normalize_code (String.◌∷◌ c s) =
    let rest = normalize_code s in
    if is_code_char (upper_char c) then String.◌∷◌ (upper_char c) rest else rest

-- `hashBackupCode`, over the SHA-256 digest of a text.
abbrev pub hash_backup_code : (String → String) → String → String
hash_backup_code digest code = digest (normalize_code code)

-- The map of `createBackupCodeSet`, with the ids that `randomBytes` gives.
unfoldable pub hashed_codes :
    (String → String) → (ℕ → String) → ℕ → List String → List EncryptedBackupCode
hashed_codes digest fresh_id n [] = []
hashed_codes digest fresh_id n (c ∷ cs) =
    record { id = fresh_id n; hash = hash_backup_code digest c; used = false; used_at = none }
    ∷ hashed_codes digest fresh_id (suc n) cs

-- `createBackupCodeSet`
unfoldable pub create_backup_code_set :
    (String → String) → (ℕ → String) → Timestamp → String → List String → BackupCodeSet
create_backup_code_set digest fresh_id now user_id codes = record {
  user_id = user_id;
  codes = hashed_codes digest fresh_id 0 codes;
  generated_at = now;
  last_used_at = none;
}

-- `!c.used`
abbrev pub is_unused : EncryptedBackupCode → Bool
is_unused c = not c.used

-- `c.hash === hashedCode && !c.used`
abbrev pub matches_hash : String → EncryptedBackupCode → Bool
matches_hash h c = c.hash == h && is_unused c

-- `findIndex`, `none` for its -1
unfoldable pub find_index : String → List EncryptedBackupCode → Option ℕ
find_index h [] = none
find_index h (c ∷ cs) =
    let rest = find_index h cs in
    if matches_hash h c then some 0 else elim rest [ none ↦ none | some n ↦ some (suc n) ]

-- `codes[i] = { ...codes[i], used: true, usedAt: now }`
unfoldable pub mark_used : Timestamp → ℕ → List EncryptedBackupCode → List EncryptedBackupCode
mark_used now n [] = []
mark_used now zero (c ∷ cs) = record c { used = true; used_at = some now } ∷ cs
mark_used now (suc n) (c ∷ cs) = c ∷ mark_used now n cs

-- `codes.filter(c => !c.used).length`
abbrev pub count_unused : List EncryptedBackupCode → ℕ
count_unused cs = length (filter is_unused cs)

-- The result of `verifyBackupCode`
pub record BackupVerification : Type 0 where
  pub valid : Bool
  pub code_set : BackupCodeSet
  pub codes_remaining : ℕ

-- What `verifyBackupCode` does with the index that it finds.
unfoldable pub use_code : Timestamp → BackupCodeSet → Option ℕ → BackupVerification
use_code now code_set none = record {
  valid = false;
  code_set = code_set;
  codes_remaining = count_unused code_set.codes;
}
use_code now code_set (some n) =
    let updated_codes = mark_used now n code_set.codes in
    record {
      valid = true;
      code_set = record code_set { codes = updated_codes; last_used_at = some now };
      codes_remaining = count_unused updated_codes;
    }

-- `verifyBackupCode`
unfoldable pub verify_backup_code :
    (String → String) → Timestamp → BackupCodeSet → String → BackupVerification
verify_backup_code digest now code_set code =
    use_code now code_set (find_index (hash_backup_code digest code) code_set.codes)

-- `getRemainingCodesCount`
unfoldable pub get_remaining_codes_count : Option BackupCodeSet → ℕ
get_remaining_codes_count none = 0
get_remaining_codes_count (some code_set) = count_unused code_set.codes

-- `hasUnusedCodes`
unfoldable pub has_unused_codes : Option BackupCodeSet → Bool
has_unused_codes code_set = ltb 0 (get_remaining_codes_count code_set)

-- `shouldRegenerateCodes`
unfoldable pub should_regenerate_codes : Option BackupCodeSet → ℕ → Bool
should_regenerate_codes code_set threshold = leb (get_remaining_codes_count code_set) threshold
