-- ===== src/Retirement/Material.antt =====
-- The digests of credentials that are to be retired: src/storage/totp-retirement-material.ts.
use tinyland_auth.Base.{
  ℕ, Bool, true, false, not, ◌||◌, String, List, [], ◌∷◌, ◌++◌, Option, none, some, Result, ok,
  ◌>>◌, throw_if, ltb, length, map, nat_eq, concat, is_empty, includes, if◌then◌else◌,
}
use tinyland_auth.Roles.{role_name}
use tinyland_auth.Types.{Timestamp, AdminUser}
use tinyland_auth.Types.Secrets.{EncryptedTotpSecret, EncryptedBackupCode, BackupCodeSet}
use tinyland_auth.Sessions.Policy.{has_nul, is_date}
use tinyland_auth.StepUp.Records.{is_hex64, text_length}

-- What JavaScript and its library give: SHA-256 in hexadecimal of the domain's prefix and a text, the
-- JSON text of a text and of a number, and the text of a date.
pub record Encoding : Type 0 where
  pub sha256 : String → String → String
  pub quote : String → String
  pub number : ℕ → String
  pub date : Timestamp → String

abbrev joined : List String → String
joined [] = ""
joined (s ∷ []) = s
joined (s ∷ t ∷ ts) = concat (s ∷ "," ∷ joined (t ∷ ts) ∷ [])

abbrev flag : Bool → String
flag true = "true"
flag false = "false"

-- `text`
unfoldable pub assert_text : String → Result (Unit {0})
assert_text s =
    throw_if (is_empty s || ltb 16384 (text_length s) || has_nul s) "Invalid retirement material"

-- `timestamp`
unfoldable pub assert_timestamp : Timestamp → Result (Unit {0})
assert_timestamp t = throw_if (not (is_date t)) "Invalid retirement material"

unfoldable pub assert_optional_timestamp : Option Timestamp → Result (Unit {0})
assert_optional_timestamp none = ok tt
assert_optional_timestamp (some t) = assert_timestamp t

-- `assertRetirementFactor`
unfoldable pub assert_retirement_factor : EncryptedTotpSecret → Result (Unit {0})
assert_retirement_factor v =
    assert_text v.user_id
    >> assert_text v.handle
    >> assert_text v.encrypted_secret
    >> assert_text v.iv
    >> assert_text v.auth_tag
    >> assert_text v.salt
    >> assert_timestamp v.created_at
    >> throw_if (not (nat_eq v.version 1)) "Invalid retirement material"
    >> assert_optional_timestamp v.last_used_at

-- The loop of `assertRetirementBackupCodes`, on the ids and hashes met so far.
unfoldable pub assert_codes :
    List String → List String → List EncryptedBackupCode → Result (Unit {0})
assert_codes ids hashes [] = ok tt
assert_codes ids hashes (c ∷ cs) =
    assert_text c.id
    >> throw_if (not (is_hex64 c.hash) || includes c.id ids || includes c.hash hashes)
        "Invalid retirement material"
    >> assert_optional_timestamp c.used_at
    >> assert_codes (c.id ∷ ids) (c.hash ∷ hashes) cs

-- `assertRetirementBackupCodes`
unfoldable pub assert_retirement_backup_codes : BackupCodeSet → Result (Unit {0})
assert_retirement_backup_codes v =
    assert_text v.user_id
    >> assert_timestamp v.generated_at
    >> assert_optional_timestamp v.last_used_at
    >> throw_if (ltb 256 (length v.codes)) "Invalid retirement material"
    >> assert_codes [] [] v.codes

module _ (js : Encoding) where
  -- An entry of an object in `encoded`; a key whose value is undefined is left out.
  abbrev present : String → String → List String
  present key value = concat (js.quote key ∷ ":" ∷ value ∷ []) ∷ []

  abbrev optional {ℓ} : {A : Type ℓ} → (A → String) → String → Option A → List String
  optional encode key none = []
  optional encode key (some value) = present key (encode value)

  abbrev nullable {ℓ} : {A : Type ℓ} → (A → String) → Option A → String
  nullable encode none = "null"
  nullable encode (some value) = encode value

  abbrev object : List String → String
  object entries = concat ("{" ∷ joined entries ∷ "}" ∷ [])

  abbrev array : List String → String
  array entries = concat ("[" ∷ joined entries ∷ "]" ∷ [])

  abbrev date_text : Timestamp → String
  date_text t = js.quote (js.date t)

  -- `encoded` on a secret, with or without the last use; the keys are in their order.
  unfoldable pub encoded_factor : Bool → EncryptedTotpSecret → String
  encoded_factor with_use v = object (
      present "authTag" (js.quote v.auth_tag)
      ++ present "backupCodesGenerated" (flag v.backup_codes_generated)
      ++ present "createdAt" (date_text v.created_at)
      ++ present "encryptedSecret" (js.quote v.encrypted_secret)
      ++ present "handle" (js.quote v.handle)
      ++ present "iv" (js.quote v.iv)
      ++ (if with_use
          then optional date_text "lastUsedAt" v.last_used_at
            ++ optional js.number "lastUsedTotpStep" v.last_used_totp_step
          else [])
      ++ present "salt" (js.quote v.salt)
      ++ present "userId" (js.quote v.user_id)
      ++ present "version" (js.number v.version))

  -- `encoded` on a backup code and on a set of them.
  unfoldable pub encoded_code : EncryptedBackupCode → String
  encoded_code c = object (
      present "hash" (js.quote c.hash)
      ++ present "id" (js.quote c.id)
      ++ present "used" (flag c.used)
      ++ optional date_text "usedAt" c.used_at)

  unfoldable pub encoded_codes : BackupCodeSet → String
  encoded_codes v = object (
      present "codes" (array (map encoded_code v.codes))
      ++ present "generatedAt" (date_text v.generated_at)
      ++ optional date_text "lastUsedAt" v.last_used_at
      ++ present "userId" (js.quote v.user_id))

  -- `totpRetirementFactorGeneration`
  unfoldable pub factor_generation : EncryptedTotpSecret → Result String
  factor_generation v =
      assert_retirement_factor v >> ok (js.sha256 "factor-generation" (encoded_factor false v))

  -- `totpRetirementFactorSnapshotDigest`
  unfoldable pub factor_snapshot_digest : EncryptedTotpSecret → Result String
  factor_snapshot_digest v =
      assert_retirement_factor v >> ok (js.sha256 "factor-snapshot" (encoded_factor true v))

  -- `totpRetirementRecoverySetDigest`
  unfoldable pub recovery_set_digest : Option BackupCodeSet → Result (Option String)
  recovery_set_digest none = ok none
  recovery_set_digest (some codes) =
      assert_retirement_backup_codes codes
      >> ok (some (js.sha256 "recovery-set" (encoded_codes codes)))

  -- `principalDigest` of file-totp-retirement.ts: an absent key counts as null.
  unfoldable pub principal_digest : AdminUser → String
  principal_digest u = js.sha256 "principal" (
      object (
        present "firstLogin" (nullable flag u.first_login)
        ++ present "githubId" (nullable js.number u.github_id)
        ++ present "githubLinkedAt" (nullable date_text u.github_linked_at)
        ++ present "githubLogin" (nullable js.quote u.github_login)
        ++ present "handle" (js.quote u.handle)
        ++ present "id" (js.quote u.id)
        ++ present "isActive" (flag u.is_active)
        ++ present "isLocked" (nullable flag u.is_locked)
        ++ present "needsOnboarding" (flag u.needs_onboarding)
        ++ present "passwordHash" (js.quote u.password_hash)
        ++ present "permissions" (nullable (λ ps. array (map js.quote ps)) u.permissions)
        ++ present "removedAt" (nullable date_text u.removed_at)
        ++ present "removedBy" (nullable js.quote u.removed_by)
        ++ present "role" (js.quote (role_name u.role))
        ++ present "totpEnabled" (flag u.totp_enabled)
        ++ present "totpSecretId" (nullable js.quote u.totp_secret_id)))
