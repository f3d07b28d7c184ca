-- ===== src/File/Expected.antt =====
-- The deletion of credentials whose digest is expected: `deleteTOTPSecretExpected`,
-- `deleteBackupCodesExpected` and `clearTotpFlagsExpected` of src/storage/file.ts.
use Prim.Native.Char.{code}
use tinyland_auth.Base.{
  ℕ, Bool, false, not, ◌&&◌, ◌||◌, String, List, [], ◌∷◌, ◌==◌, Option, none, some, Result, ok, err,
  ◌>>◌, ◌>>=◌, throw_if, filter, ltb, nat_eq, is_empty, is_some, if◌then◌else◌,
}
use tinyland_auth.Base.Assoc.{get, remove}
use tinyland_auth.Types.{AdminUser, at}
use tinyland_auth.Types.Secrets.{EncryptedTotpSecret, BackupCodeSet}
use tinyland_auth.StepUp.Records.{is_hex64, text_length, all_chars, in_range}
use tinyland_auth.Memory.{given}
use tinyland_auth.Retirement.Material.{Encoding, factor_snapshot_digest, recovery_set_digest}
use tinyland_auth.File.{Files, Writing, succeeds, when_ok}
use tinyland_auth.File.Users.{get_user, change_user}
use tinyland_auth.File.Factors.{is_stored_factor, is_stored_backup_codes}

-- `/^[A-Za-z0-9_-]+$/`
unfoldable pub is_component : String → Bool
is_component s =
    not (is_empty s)
    && all_chars
        (λ c.
          in_range 65 90 c
          || in_range 97 122 c
          || in_range 48 57 c
          || nat_eq (code c) 95
          || nat_eq (code c) 45)
        s

-- `retirementComponent`
unfoldable pub retirement_component : String → Result (Unit {0})
retirement_component s =
    throw_if (ltb 256 (text_length s) || not (is_component s)) "Invalid retirement identity"

-- What the rest of `deleteCredentialExpected` does with the file that it opened, if there is one:
-- an absent file is acknowledged by a synchronisation, another digest is refused.
unfoldable pub unlink_expected :
    {A : Type 0}
    → Writing
    → Option A
    → (A → Result String)
    → Option String
    → Files
    → Files
    → Result (Unit {0}) × Files
unlink_expected w none digest expected removed files =
    (throw_if (not w.synced) "Durable credential retirement unavailable", files)
unlink_expected w (some value) digest none removed files =
    (err "Durable credential retirement unavailable", files)
unlink_expected w (some value) digest (some expected) removed files = elim (digest value) [
  | err message ↦ (err "Durable credential retirement unavailable", files)
  | ok actual ↦
      if actual == expected
      then (
        throw_if (not (succeeds w)) "Durable credential retirement unavailable",
        if w.renamed then removed else files,
      )
      else (err "Durable credential retirement unavailable", files)
]

-- `expectedDigest !== null && !/^[a-f0-9]{64}$/.test(expectedDigest)`
abbrev pub is_malformed : Option String → Bool
is_malformed none = false
is_malformed (some expected) = not (is_hex64 expected)

module _ (js : Encoding) where
  -- The digest of a stored secret, which must be one of the handle.
  unfoldable pub stored_factor_digest : String → EncryptedTotpSecret → Result String
  stored_factor_digest handle v =
      throw_if (not (is_stored_factor v handle)) "Invalid retirement material"
      >> factor_snapshot_digest js v

  -- The digest of a stored set of codes, which must be one of the user.
  unfoldable pub stored_codes_digest : String → BackupCodeSet → Result String
  stored_codes_digest user_id v =
      throw_if (not (is_stored_backup_codes v user_id)) "Invalid retirement material"
      >> recovery_set_digest js (some v)
      >>= λ found. elim found [ none ↦ err "Invalid retirement material" | some digest ↦ ok digest ]

  -- `deleteTOTPSecretExpected`
  unfoldable pub delete_totp_secret_expected :
      Writing → String → String → Files → Result (Unit {0}) × Files
  delete_totp_secret_expected w handle expected files =
      when_ok
        (retirement_component handle
          >> throw_if (not (is_hex64 expected)) "Invalid retirement material")
        (λ _.
          unlink_expected w (get handle files.secrets) (stored_factor_digest handle) (some expected)
            (record files { secrets = remove handle files.secrets }) files)
        files

  -- `deleteBackupCodesExpected`
  unfoldable pub delete_backup_codes_expected :
      Writing → String → Option String → Files → Result (Unit {0}) × Files
  delete_backup_codes_expected w user_id expected files =
      when_ok
        (retirement_component user_id
          >> throw_if (is_malformed expected) "Invalid retirement material")
        (λ _.
          unlink_expected w (get user_id files.backup_codes) (stored_codes_digest user_id) expected
            (record files { backup_codes = remove user_id files.backup_codes }) files)
        files

-- `user.id === userId || user.handle === handle`
abbrev pub is_owner_match : String → String → AdminUser → Bool
is_owner_match user_id handle u = u.id == user_id || u.handle == handle

-- The one user that matches, who must match in both.
abbrev pub sole_owner : String → String → List AdminUser → Option AdminUser
sole_owner user_id handle [] = none
sole_owner user_id handle (u ∷ []) = if u.id == user_id && u.handle == handle then some u else none
sole_owner user_id handle (u ∷ v ∷ us) = none

-- `user.totpSecretId === handle`
abbrev pub has_secret_id : String → AdminUser → Bool
has_secret_id handle u = elim u.totp_secret_id [ none ↦ false | some id ↦ id == handle ]

-- The flags are those of the handle, or cleared.
abbrev pub flags_fit : String → AdminUser → Bool
flags_fit handle u =
    (u.totp_enabled && has_secret_id handle u)
    || (not u.totp_enabled && not (is_some (given u.totp_secret_id)))

abbrev pub flags_cleared : AdminUser → Bool
flags_cleared u = not u.totp_enabled && not (is_some (given u.totp_secret_id))

-- The test at the end of `clearTotpFlagsExpected`.
unfoldable pub assert_cleared : String → Option AdminUser → Result (Unit {0})
assert_cleared handle none = err "Retirement flags unavailable"
assert_cleared handle (some u) =
    throw_if (not (u.handle == handle) || not (flags_cleared u)) "Retirement flags unavailable"

-- The update and the test of `clearTotpFlagsExpected`, by what the update gave.
unfoldable pub confirm_cleared :
    String → String → Result AdminUser × Files → Result (Unit {0}) × Files
confirm_cleared user_id handle (err message, files) = (err message, files)
confirm_cleared user_id handle (ok user, files) =
    (assert_cleared handle (get_user user_id files), files)

unfoldable pub assert_owner : String → String → Files → Result (Unit {0})
assert_owner user_id handle files =
    elim (sole_owner user_id handle (filter (is_owner_match user_id handle) files.users)) [
      | none ↦ err "Retirement owner changed"
      | some u ↦ throw_if (not (flags_fit handle u)) "Retirement owner changed"
    ]

-- `clearTotpFlagsExpected`
unfoldable pub clear_totp_flags_expected :
    Writing → String → String → ℕ → Files → Result (Unit {0}) × Files
clear_totp_flags_expected w user_id handle now files =
    when_ok
      (retirement_component user_id
        >> retirement_component handle
        >> assert_owner user_id handle files)
      (λ _. confirm_cleared user_id handle (
        change_user w user_id
          (λ u. record u { totp_enabled = false; totp_secret_id = none; updated_at = at now })
          files))
      files
