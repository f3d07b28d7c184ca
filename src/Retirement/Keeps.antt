-- ===== src/Retirement/Keeps.antt =====
-- What every step of `apply` leaves of a committed retirement, however its write goes:
-- src/storage/file-totp-retirement.ts.
use tinyland_auth.Base.{ℕ, true, false, List, [], ◌≡◌, none, ok, ◌>>=◌, refl, throw_if-not, eq_refl}
use tinyland_auth.Base.Assoc.{IsMap, get, remove, get-remove, remove-IsMap}
use tinyland_auth.Types.{AdminUser, Session, at}
use tinyland_auth.Sessions.Policy.{is_foreign, all_stored, assert_stored_sessions}
use tinyland_auth.File.{Files, Writing, change_first}
use tinyland_auth.File.Users.{change_user}
use tinyland_auth.File.Sessions.{
  mutate_sessions, keep_sessions, store_sessions, read_sessions, delete_user_sessions,
}
use tinyland_auth.File.Factors.{get_totp_secret, get_backup_codes}
use tinyland_auth.File.Expected.{
  delete_totp_secret_expected, delete_backup_codes_expected, clear_totp_flags_expected,
}
use tinyland_auth.Retirement.Material.{Encoding}
use tinyland_auth.Retirement.Records.{Committed}
use tinyland_auth.Retirement.Apply.{
  assert_no_sessions, assert_same_factor, assert_same_codes, Writings, owner, retire_credentials,
  apply_checks,
}
use tinyland_auth.Retirement.Checks.{Passes}
use tinyland_auth.Retirement.Owner.{has_id, owner_inv, owner_intro, change_owner}
use tinyland_auth.Retirement.Effects.{
  write_keeps, when_ok_keeps, continued_keeps, unlink_keeps, confirm_keeps, change_keeps,
}

-- The change of the flags.
abbrev pub cleared : ℕ → AdminUser → AdminUser
cleared now u = record u { totp_enabled = false; totp_secret_id = none; updated_at = at now }

module _ (js : Encoding) (v : Committed) where
  -- Files that `apply` can take up: its tests pass, the sessions are well formed, no file is there twice.
  pub record IsRetirable (files : Files) : Type 0 where
    pub passes : Passes js v files
    pub sessions_stored : all_stored [] files.sessions ≡ true
    pub secrets_map : IsMap files.secrets
    pub codes_map : IsMap files.backup_codes

  pub with_sessions :
      (sessions : List Session) (files : Files)
      → all_stored [] sessions ≡ true
      → IsRetirable files
      → IsRetirable (record files { sessions = sessions })
  unfolding get_totp_secret get_backup_codes owner
  with_sessions sessions files stored r =
      let p = r.passes in
      record {
        passes = record {
          user = p.user;
          factor = p.factor;
          codes = p.codes;
          owned = p.owned;
          flagged = p.flagged;
          secret_read = p.secret_read;
          codes_read = p.codes_read;
          same_factor = p.same_factor;
          same_codes = p.same_codes;
        };
        sessions_stored = stored;
        secrets_map = r.secrets_map;
        codes_map = r.codes_map;
      }

  pub without_secret :
      (files : Files)
      → IsRetirable files
      → IsRetirable (record files { secrets = remove v.handle files.secrets })
  unfolding get_totp_secret get_backup_codes owner assert_same_factor
  without_secret files r =
      let p = r.passes in
      record {
        passes = record {
          user = p.user;
          factor = none;
          codes = p.codes;
          owned = p.owned;
          flagged = p.flagged;
          secret_read =
              rw
                (
                  get-remove v.handle v.handle files.secrets r.secrets_map,
                  get_totp_secret,
                  eq_refl v.handle,
                )
                refl;
          codes_read = p.codes_read;
          same_factor = refl;
          same_codes = p.same_codes;
        };
        sessions_stored = r.sessions_stored;
        secrets_map = remove-IsMap v.handle files.secrets r.secrets_map;
        codes_map = r.codes_map;
      }

  pub without_codes :
      (files : Files)
      → IsRetirable files
      → IsRetirable (record files { backup_codes = remove v.user_id files.backup_codes })
  unfolding get_totp_secret get_backup_codes owner assert_same_codes
  without_codes files r =
      let p = r.passes in
      record {
        passes = record {
          user = p.user;
          factor = p.factor;
          codes = none;
          owned = p.owned;
          flagged = p.flagged;
          secret_read = p.secret_read;
          codes_read =
              rw
                (
                  get-remove v.user_id v.user_id files.backup_codes r.codes_map,
                  get_backup_codes,
                  eq_refl v.user_id,
                )
                refl;
          same_factor = p.same_factor;
          same_codes = refl;
        };
        sessions_stored = r.sessions_stored;
        secrets_map = r.secrets_map;
        codes_map = remove-IsMap v.user_id files.backup_codes r.codes_map;
      }

  pub with_cleared :
      (now : ℕ) (files : Files)
      → IsRetirable files
      → IsRetirable
          (record files { users = change_first (has_id v.user_id) (cleared now) files.users })
  unfolding get_totp_secret get_backup_codes tinyland_auth.Memory.given
  with_cleared now files r =
      let p = r.passes in
      let (one, same_id, same_handle) = owner_inv v.user_id v.handle files p.user p.owned in
      record {
        passes = record {
          user = cleared now p.user;
          factor = p.factor;
          codes = p.codes;
          owned =
              owner_intro v.user_id v.handle
                (record files { users = change_first (has_id v.user_id) (cleared now) files.users })
                (cleared now p.user)
                (change_owner v.user_id v.handle (cleared now) files.users p.user (λ x. refl) one
                  same_id)
                same_id same_handle;
          flagged = refl;
          secret_read = p.secret_read;
          codes_read = p.codes_read;
          same_factor = p.same_factor;
          same_codes = p.same_codes;
        };
        sessions_stored = r.sessions_stored;
        secrets_map = r.secrets_map;
        codes_map = r.codes_map;
      }

  -- The deletion of the sessions.
  sessions_step :
      (w : Writing) (files : Files)
      → IsRetirable files
      → IsRetirable (delete_user_sessions w v.user_id files).1
  unfolding delete_user_sessions mutate_sessions store_sessions assert_stored_sessions
  sessions_step w files r =
      when_ok_keeps IsRetirable
        (read_sessions files >>= λ sessions. ok (keep_sessions (is_foreign v.user_id) sessions)) _
        files r
        (λ next _. when_ok_keeps IsRetirable (assert_stored_sessions next.0) _ files r (λ _ stored.
          write_keeps IsRetirable w next.1 _ files r
            (with_sessions next.0 files (throw_if-not (all_stored [] next.0) _ stored) r)))

  secret_step :
      (w : Writing) (files : Files)
      → IsRetirable files
      → IsRetirable (delete_totp_secret_expected js w v.handle v.factor_snapshot_digest files).1
  unfolding delete_totp_secret_expected
  secret_step w files r = when_ok_keeps IsRetirable _ _ files r (λ _ _.
      unlink_keeps IsRetirable w (get v.handle files.secrets) _ _ _ files r
        (without_secret files r))

  codes_step :
      (w : Writing) (files : Files)
      → IsRetirable files
      → IsRetirable (delete_backup_codes_expected js w v.user_id v.recovery_set_digest files).1
  unfolding delete_backup_codes_expected
  codes_step w files r = when_ok_keeps IsRetirable _ _ files r (λ _ _.
      unlink_keeps IsRetirable w (get v.user_id files.backup_codes) _ _ _ files r
        (without_codes files r))

  flags_step :
      (w : Writing) (now : ℕ) (files : Files)
      → IsRetirable files
      → IsRetirable (clear_totp_flags_expected w v.user_id v.handle now files).1
  unfolding clear_totp_flags_expected
  flags_step w now files r = when_ok_keeps IsRetirable _ _ files r (λ _ _.
      confirm_keeps IsRetirable v.user_id v.handle (change_user w v.user_id (cleared now) files)
        (change_keeps IsRetirable w v.user_id (cleared now) files r (with_cleared now files r)))

  -- However the writes go, what `apply` leaves can be taken up again.
  pub retire_credentials-IsRetirable :
      (ws : Writings) (files : Files)
      → IsRetirable files
      → IsRetirable (retire_credentials js ws v files).1
  unfolding retire_credentials
  retire_credentials-IsRetirable ws files r =
      when_ok_keeps IsRetirable (apply_checks js v files) _ files r (λ _ _.
        continued_keeps IsRetirable (delete_user_sessions ws.sessions v.user_id files) _
          (sessions_step ws.sessions files r)
          (λ f q. when_ok_keeps IsRetirable (assert_no_sessions v.user_id f) _ f q (λ _ _.
            continued_keeps IsRetirable
              (delete_totp_secret_expected js ws.secret v.handle v.factor_snapshot_digest f) _
              (secret_step ws.secret f q)
              (λ g a.
                continued_keeps IsRetirable
                  (delete_backup_codes_expected js ws.codes v.user_id v.recovery_set_digest g) _
                  (codes_step ws.codes g a)
                  (λ h b.
                    continued_keeps IsRetirable
                      (clear_totp_flags_expected ws.flags v.user_id v.handle ws.cleared_at h) _
                      (flags_step ws.flags ws.cleared_at h b) (λ k c. c))))))
