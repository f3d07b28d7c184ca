-- ===== src/Retirement/Deletions.antt =====
-- The deletions of `apply` when their unlinks succeed: src/storage/file.ts, as
-- src/storage/file-totp-retirement.ts calls it.
use tinyland_auth.Base.{
  true, false, not, ◌||◌, String, ◌==◌, ◌≡◌, Option, none, some, Result, ok, ◌>>◌, throw_if, arith,
  refl, sym, subst, ap, inl, inr, Bool-cases, Option-cases, Result-cases, bind_inv, check_inv,
  throw_if-not, ◌∙◌,
}
use tinyland_auth.Base.Assoc.{get, remove, remove_absent}
use tinyland_auth.Types.Secrets.{EncryptedTotpSecret, BackupCodeSet}
use tinyland_auth.StepUp.Records.{is_hex64}
use tinyland_auth.File.{Files, Writing, succeeds, when_ok}
use tinyland_auth.File.Factors.{
  is_stored_factor, is_stored_backup_codes, get_totp_secret, get_backup_codes,
}
use tinyland_auth.File.Expected.{
  is_malformed, unlink_expected, retirement_component, stored_factor_digest, stored_codes_digest,
  delete_totp_secret_expected, delete_backup_codes_expected,
}
use tinyland_auth.Retirement.Material.{
  Encoding, assert_retirement_backup_codes, factor_generation, recovery_set_digest,
  factor_snapshot_digest,
}
use tinyland_auth.Retirement.Records.{Committed, message}
use tinyland_auth.Retirement.Apply.{assert_same_factor, assert_same_codes, same_optional}
use tinyland_auth.Retirement.Keeps.{IsRetirable}

module _ {A : Type 0} (w : Writing) (digest : A → Result String) (removed files : Files) where
  unlink_absent :
      (expected : Option String)
      → succeeds w ≡ true
      → unlink_expected w none digest expected removed files ≡ (ok tt, files)
  unfolding unlink_expected
  unlink_absent expected e = elim (Bool-cases w.synced) [
    | inl s ↦ rw s refl
    | inr s ↦ absurd (ground arith)
  ]

  unlink_found :
      (a : A) (actual expected : String)
      → digest a ≡ ok actual
      → (actual == expected) ≡ true
      → succeeds w ≡ true
      → unlink_expected w (some a) digest (some expected) removed files ≡ (ok tt, removed)
  unfolding unlink_expected
  unlink_found a actual expected d same e = elim (Bool-cases w.renamed) [
    | inl r ↦ elim (Bool-cases w.synced) [
      | inl s ↦ rw (d, unlink_expected, same, r, s) refl
      | inr s ↦ absurd (ground arith)
    ]
    | inr r ↦ absurd (ground arith)
  ]

module _ (js : Encoding) (v : Committed) where
  same_factor_inv :
      (x : EncryptedTotpSecret)
      → assert_same_factor js v (some x) ≡ ok tt
      → (d : String) × (factor_snapshot_digest js x ≡ ok d)
        × ((d == v.factor_snapshot_digest) ≡ true)
  unfolding assert_same_factor
  same_factor_inv x h =
      let (g, first, rest) =
        bind_inv
          (throw_if (not (x.user_id == v.user_id) || not (x.handle == v.handle)) message
            >> factor_generation js x)
          _ tt h in
      let (s, chain, last) =
        bind_inv (throw_if (not (g == v.factor_generation)) message >> factor_snapshot_digest js x)
          _ tt rest in
      (
        s,
        (check_inv _ (factor_snapshot_digest js x) s chain).1,
        throw_if-not (s == v.factor_snapshot_digest) message last,
      )

  same_codes_inv :
      (x : BackupCodeSet)
      → assert_same_codes js v (some x) ≡ ok tt
      → (d : Option String) × (recovery_set_digest js (some x) ≡ ok d)
        × (same_optional d v.recovery_set_digest ≡ true)
  unfolding assert_same_codes
  same_codes_inv x h =
      let (d, chain, last) =
        bind_inv
          (throw_if (not (x.user_id == v.user_id)) message >> recovery_set_digest js (some x)) _ tt
          h in
      (
        d,
        (check_inv _ (recovery_set_digest js (some x)) d chain).1,
        throw_if-not (same_optional d v.recovery_set_digest) message last,
      )

  no_digest : (x : BackupCodeSet) → recovery_set_digest js (some x) ≡ ok none → ⊥
  unfolding recovery_set_digest
  no_digest x h = elim (Result-cases (assert_retirement_backup_codes x)) [
    | inl (m, e) ↦ ground arith
    | inr (u, e) ↦ ground arith
  ]

  secret_read_inv :
      (files : Files) (x : EncryptedTotpSecret) (factor : Option EncryptedTotpSecret)
      → get v.handle files.secrets ≡ some x
      → get_totp_secret v.handle files ≡ ok factor
      → (is_stored_factor x v.handle ≡ true) × (factor ≡ some x)
  unfolding get_totp_secret
  secret_read_inv files x factor found h = elim (Bool-cases (is_stored_factor x v.handle)) [
    | inl e ↦ (e, ground arith)
    | inr e ↦ ground arith
  ]

  codes_read_inv :
      (files : Files) (x : BackupCodeSet) (codes : Option BackupCodeSet)
      → get v.user_id files.backup_codes ≡ some x
      → get_backup_codes v.user_id files ≡ ok codes
      → (is_stored_backup_codes x v.user_id ≡ true) × (codes ≡ some x)
  unfolding get_backup_codes
  codes_read_inv files x codes found h = elim (Bool-cases (is_stored_backup_codes x v.user_id)) [
    | inl e ↦ (e, ground arith)
    | inr e ↦ ground arith
  ]

  pub delete_secret_done :
      (w : Writing) (files : Files)
      → IsRetirable js v files
      → retirement_component v.handle ≡ ok tt
      → is_hex64 v.factor_snapshot_digest ≡ true
      → succeeds w ≡ true
      → delete_totp_secret_expected js w v.handle v.factor_snapshot_digest files
        ≡ (ok tt, record files { secrets = remove v.handle files.secrets })
  unfolding delete_totp_secret_expected when_ok stored_factor_digest
  delete_secret_done w files r named hex e = elim (Option-cases (get v.handle files.secrets)) [
    | inl gone ↦
        rw (named, delete_totp_secret_expected, hex, gone)
          (unlink_absent w (stored_factor_digest js v.handle)
              (record files { secrets = remove v.handle files.secrets }) files
              (some v.factor_snapshot_digest) e
            ∙ ap (λ l. (ok tt, record files { secrets = l }))
                (sym (remove_absent v.handle files.secrets gone)))
    | inr (x, found) ↦
        let (stored, same) = secret_read_inv files x r.passes.factor found r.passes.secret_read in
        let (d, read, matches) =
          same_factor_inv x
            (subst (λ o. assert_same_factor js v o ≡ ok tt) same r.passes.same_factor) in
        rw (named, delete_totp_secret_expected, hex, found)
          (unlink_found w (stored_factor_digest js v.handle)
            (record files { secrets = remove v.handle files.secrets }) files x d
            v.factor_snapshot_digest (rw (stored, stored_factor_digest) read) matches e)
  ]

  -- Codes with a digest that fits the committed one.
  codes_digest :
      (x : BackupCodeSet) (d e : Option String)
      → is_stored_backup_codes x v.user_id ≡ true
      → recovery_set_digest js (some x) ≡ ok d
      → same_optional d e ≡ true
      → (actual : String) × (expected : String) × (stored_codes_digest js v.user_id x ≡ ok actual)
        × (e ≡ some expected)
        × ((actual == expected) ≡ true)
  unfolding stored_codes_digest
  codes_digest x (some a) (some b) stored read same =
      (a, b, rw (stored, stored_codes_digest, read) refl, refl, same)
  codes_digest x (some a) none stored read same = ground arith
  codes_digest x none e stored read same = absurd (no_digest x read)

  pub delete_codes_done :
      (w : Writing) (files : Files)
      → IsRetirable js v files
      → retirement_component v.user_id ≡ ok tt
      → is_malformed v.recovery_set_digest ≡ false
      → succeeds w ≡ true
      → delete_backup_codes_expected js w v.user_id v.recovery_set_digest files
        ≡ (ok tt, record files { backup_codes = remove v.user_id files.backup_codes })
  unfolding delete_backup_codes_expected when_ok
  delete_codes_done w files r named hex e = elim (Option-cases (get v.user_id files.backup_codes)) [
    | inl gone ↦
        rw (named, delete_backup_codes_expected, hex, gone)
          (unlink_absent w (stored_codes_digest js v.user_id)
              (record files { backup_codes = remove v.user_id files.backup_codes }) files
              v.recovery_set_digest e
            ∙ ap (λ l. (ok tt, record files { backup_codes = l }))
                (sym (remove_absent v.user_id files.backup_codes gone)))
    | inr (x, found) ↦
        let (stored, same) = codes_read_inv files x r.passes.codes found r.passes.codes_read in
        let (d, read, fits) =
          same_codes_inv x
            (subst (λ o. assert_same_codes js v o ≡ ok tt) same r.passes.same_codes) in
        let (actual, expected, digest, committed_digest, matches) =
          codes_digest x d v.recovery_set_digest stored read fits in
        rw (named, delete_backup_codes_expected, hex, found, committed_digest)
          (unlink_found w (stored_codes_digest js v.user_id)
            (record files { backup_codes = remove v.user_id files.backup_codes }) files x actual
            expected digest matches e)
  ]
