-- ===== src/Retirement/Apply.antt =====
-- The projection of a committed retirement: `apply` of src/storage/file-totp-retirement.ts.
use tinyland_auth.Base.{
  ℕ, Bool, true, false, not, ◌||◌, String, [], ◌∷◌, ◌==◌, Option, none, some, Result, ok, err, ◌>>◌,
  ◌>>=◌, throw_if, filter, is_some,
}
use tinyland_auth.Types.{AdminUser, at}
use tinyland_auth.Types.Secrets.{EncryptedTotpSecret, BackupCodeSet}
use tinyland_auth.File.{Files, Writing, when_ok}
use tinyland_auth.File.Sessions.{delete_user_sessions, get_sessions_by_user}
use tinyland_auth.File.Factors.{get_totp_secret, get_backup_codes}
use tinyland_auth.File.Expected.{
  sole_owner, is_owner_match, flags_fit, flags_cleared, delete_totp_secret_expected,
  delete_backup_codes_expected, clear_totp_flags_expected,
}
use tinyland_auth.Journal.{Outcome, failed, done, recovery_required}
use tinyland_auth.Retirement.Material.{
  Encoding, factor_generation, factor_snapshot_digest, recovery_set_digest,
}
use tinyland_auth.Retirement.Records.{Committed, Receipt, applied, message, assert_receipt}
use tinyland_auth.Retirement.Store.{Custody, Sealing, write}

-- What becomes of the writes of one `apply`, in their order, and the times it reads.
pub record Writings : Type 0 where
  pub sessions : Writing
  pub secret : Writing
  pub codes : Writing
  pub flags : Writing
  pub journal : Writing
  pub cleared_at : ℕ
  pub applied_at : ℕ

-- A storage operation and the steps after it.
abbrev pub continued :
    {A B : Type 0} → Result A × Files → (Files → Result B × Files) → Result B × Files
continued (err m, files) rest = (err m, files)
continued (ok value, files) rest = rest files

-- `owner`
unfoldable pub owner : String → String → Files → Result AdminUser
owner user_id handle files =
    elim (sole_owner user_id handle (filter (is_owner_match user_id handle) files.users)) [
      | none ↦ err message
      | some u ↦ ok u
    ]

-- `(await storage.getSessionsByUser(userId)).length !== 0`
unfoldable pub assert_no_sessions : String → Files → Result (Unit {0})
assert_no_sessions user_id files = get_sessions_by_user user_id files >>= λ sessions.
    elim sessions [ [] ↦ ok tt | s ∷ ss ↦ err message ]

abbrev pub same_optional : Option String → Option String → Bool
same_optional none none = true
same_optional none (some b) = false
same_optional (some a) none = false
same_optional (some a) (some b) = a == b

-- The receipt of a record that was projected.
unfoldable pub receipt_of : ℕ → Committed → Receipt
receipt_of now v = record {
  operation_id = v.operation_id;
  user_id = v.user_id;
  handle = v.handle;
  factor_generation = v.factor_generation;
  committed_at = v.committed_at;
  applied_at = at now;
}

-- An answer of `write` in `apply`: any exception asks for a recovery.
abbrev pub answered : {A : Type 0} → A → Outcome (Unit {0}) × Custody → Outcome A × Custody
answered value (failed code m, s) = (failed recovery_required message, s)
answered value (done _, s) = (done value, s)

module _ (js : Encoding) where
  -- A secret that is still there is the one that was committed.
  unfoldable pub assert_same_factor : Committed → Option EncryptedTotpSecret → Result (Unit {0})
  assert_same_factor v none = ok tt
  assert_same_factor v (some factor) =
      throw_if (not (factor.user_id == v.user_id) || not (factor.handle == v.handle)) message
      >> factor_generation js factor
      >>= λ generation.
          throw_if (not (generation == v.factor_generation)) message
          >> factor_snapshot_digest js factor
          >>= λ snapshot. throw_if (not (snapshot == v.factor_snapshot_digest)) message

  -- Backup codes that are still there are those that were committed.
  unfoldable pub assert_same_codes : Committed → Option BackupCodeSet → Result (Unit {0})
  assert_same_codes v none = ok tt
  assert_same_codes v (some codes) =
      throw_if (not (codes.user_id == v.user_id)) message
      >> recovery_set_digest js (some codes)
      >>= λ digest. throw_if (not (same_optional digest v.recovery_set_digest)) message

  -- The tests before the first write.
  unfoldable pub apply_checks : Committed → Files → Result (Unit {0})
  apply_checks v files = owner v.user_id v.handle files >>= λ user.
      throw_if (not (flags_fit v.handle user)) message
      >> get_totp_secret v.handle files
      >>= λ factor. get_backup_codes v.user_id files >>= λ codes.
          assert_same_factor v factor >> assert_same_codes v codes

  -- The tests after the last write on the credentials.
  unfoldable pub assert_retired : Committed → Files → Result (Unit {0})
  assert_retired v files = get_totp_secret v.handle files >>= λ factor.
      get_backup_codes v.user_id files >>= λ codes.
      throw_if (is_some factor || is_some codes) message
      >> assert_no_sessions v.user_id files
      >> owner v.user_id v.handle files
      >>= λ user. throw_if (not (flags_cleared user)) message

  -- The sessions go first, then the secret, the codes and the flags.
  unfoldable pub retire_credentials : Writings → Committed → Files → Result (Unit {0}) × Files
  retire_credentials ws v files =
      when_ok (apply_checks v files)
        (λ _. continued (delete_user_sessions ws.sessions v.user_id files) (λ f.
          when_ok (assert_no_sessions v.user_id f)
            (λ _.
              continued
                (delete_totp_secret_expected js ws.secret v.handle v.factor_snapshot_digest f)
                (λ g.
                  continued
                    (delete_backup_codes_expected js ws.codes v.user_id v.recovery_set_digest g)
                    (λ h.
                      continued
                        (clear_totp_flags_expected ws.flags v.user_id v.handle ws.cleared_at h)
                        (λ k. (assert_retired v k, k)))))
            f))
        files

  module _ (keys : Sealing) where
    -- The end of `apply`: the record becomes applied.
    unfoldable pub record_applied :
        Writings → Committed → Custody → Result (Unit {0}) × Files → Outcome Receipt × Custody
    record_applied ws v s (err m, files) =
        (failed recovery_required message, record s { files = files })
    record_applied ws v s (ok _, files) = elim (assert_receipt (receipt_of ws.applied_at v)) [
      | failed code m ↦ (failed recovery_required message, record s { files = files })
      | done _ ↦ answered (receipt_of ws.applied_at v) (
          write keys ws.journal (applied v.authorization_digest (receipt_of ws.applied_at v))
            (record s { files = files }))
    ]

    -- `apply`
    unfoldable pub apply : Writings → Committed → Custody → Outcome Receipt × Custody
    apply ws v s = record_applied ws v s (retire_credentials ws v s.files)
