-- ===== src/Retirement/Checks.antt =====
-- What the tests of `apply` say, part by part: src/storage/file-totp-retirement.ts.
use tinyland_auth.Base.{
  true, not, ◌≡◌, Option, ok, ◌>>◌, throw_if, refl, bind_inv, check_inv, throw_if-not,
}
use tinyland_auth.Types.{AdminUser}
use tinyland_auth.Types.Secrets.{EncryptedTotpSecret, BackupCodeSet}
use tinyland_auth.File.{Files}
use tinyland_auth.File.Factors.{get_totp_secret, get_backup_codes}
use tinyland_auth.File.Expected.{flags_fit}
use tinyland_auth.Retirement.Material.{Encoding}
use tinyland_auth.Retirement.Records.{Committed, message}
use tinyland_auth.Retirement.Apply.{owner, assert_same_factor, assert_same_codes, apply_checks}

module _ (js : Encoding) (v : Committed) where
  -- The tests of `apply` pass, with what they read.
  pub record Passes (files : Files) : Type 0 where
    pub user : AdminUser
    pub factor : Option EncryptedTotpSecret
    pub codes : Option BackupCodeSet
    pub owned : owner v.user_id v.handle files ≡ ok user
    pub flagged : flags_fit v.handle user ≡ true
    pub secret_read : get_totp_secret v.handle files ≡ ok factor
    pub codes_read : get_backup_codes v.user_id files ≡ ok codes
    pub same_factor : assert_same_factor js v factor ≡ ok tt
    pub same_codes : assert_same_codes js v codes ≡ ok tt

  pub checks_inv : (files : Files) → apply_checks js v files ≡ ok tt → Passes files
  unfolding apply_checks
  checks_inv files h =
      let (user, owned, more) = bind_inv (owner v.user_id v.handle files) _ tt h in
      let (factor, chain, rest) =
        bind_inv
          (throw_if (not (flags_fit v.handle user)) message >> get_totp_secret v.handle files) _ tt
          more in
      let (flags, read) =
        check_inv (throw_if (not (flags_fit v.handle user)) message)
          (get_totp_secret v.handle files) factor chain in
      let (codes, got, last) = bind_inv (get_backup_codes v.user_id files) _ tt rest in
      let (a, b) =
        check_inv (assert_same_factor js v factor) (assert_same_codes js v codes) tt last in
      record {
        user = user;
        factor = factor;
        codes = codes;
        owned = owned;
        flagged = throw_if-not (flags_fit v.handle user) message flags;
        secret_read = read;
        codes_read = got;
        same_factor = a;
        same_codes = b;
      }

  pub checks_intro : (files : Files) → Passes files → apply_checks js v files ≡ ok tt
  unfolding apply_checks
  checks_intro files p =
      rw (p.owned, p.flagged, p.secret_read, p.codes_read, p.same_factor, p.same_codes) refl
