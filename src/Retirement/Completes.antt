-- ===== src/Retirement/Completes.antt =====
-- `apply` of src/storage/file-totp-retirement.ts finishes what was committed.
use tinyland_auth.Base.{
  ℕ, true, false, List, [], ◌∷◌, ◌≡◌, Result, ok, err, filter, refl, sym, subst, inl, inr, eq_refl,
  ◌∙◌,
}
use tinyland_auth.Base.Assoc.{remove, put, get-remove}
use tinyland_auth.Types.{at, before}
use tinyland_auth.Sessions.Policy.{is_foreign}
use tinyland_auth.File.{Files, succeeds, when_ok, change_first}
use tinyland_auth.File.Factors.{get_totp_secret, get_backup_codes}
use tinyland_auth.Journal.{done, Outcome-cases}
use tinyland_auth.Retirement.Material.{Encoding}
use tinyland_auth.Retirement.Records.{
  Committed, committed, applied, assert_record, assert_receipt, operation_of,
}
use tinyland_auth.Retirement.Store.{Custody, Sealing, envelope, write}
use tinyland_auth.Retirement.Apply.{
  Writings, assert_retired, retire_credentials, receipt_of, record_applied, apply,
}
use tinyland_auth.Retirement.Checks.{checks_intro}
use tinyland_auth.Retirement.Owner.{has_id, owner_inv, owner_intro, change_owner}
use tinyland_auth.Retirement.Keeps.{
  retire_credentials-IsRetirable, IsRetirable, cleared, with_sessions, without_secret,
  without_codes,
}
use tinyland_auth.Retirement.Writes.{
  all_stored-filter, delete_user_sessions_done, assert_no_sessions_done, clear_flags_done,
}
use tinyland_auth.Retirement.Deletions.{delete_secret_done, delete_codes_done}
use tinyland_auth.Retirement.Valid.{
  IsSound, component_inv, digest_inv, malformed_inv, IsSound-inv, receipt_done, applied_record_done,
  journal_done, write_files, answered_files,
}

-- Every write succeeds.
pub record AllSucceed (ws : Writings) : Type 0 where
  pub sessions_written : succeeds ws.sessions ≡ true
  pub secret_unlinked : succeeds ws.secret ≡ true
  pub codes_unlinked : succeeds ws.codes ≡ true
  pub flags_written : succeeds ws.flags ≡ true
  pub journal_written : succeeds ws.journal ≡ true

-- The credentials after a retirement.
abbrev pub retired_files : Committed → ℕ → Files → Files
retired_files v now files = record files {
  sessions = filter (is_foreign v.user_id) files.sessions;
  secrets = remove v.handle files.secrets;
  backup_codes = remove v.user_id files.backup_codes;
  users = change_first (has_id v.user_id) (cleared now) files.users;
}

-- The journal after it.
abbrev pub retired_custody : Sealing → Writings → Committed → Custody → Custody
retired_custody keys ws v s =
    let r = applied v.authorization_digest (receipt_of ws.applied_at v) in
    record {
      files = retired_files v ws.cleared_at s.files;
      journal = put v.operation_id (envelope r (keys.mac "seal" (keys.json_record r))) s.journal;
    }

module _ (js : Encoding) (v : Committed) where
  assert_retired_done :
      (now : ℕ) (files : Files)
      → IsRetirable js v files
      → assert_retired js v (retired_files v now files) ≡ ok tt
  unfolding assert_retired get_totp_secret get_backup_codes tinyland_auth.Memory.given
  assert_retired_done now files r =
      let (one, same_id, same_handle) =
        owner_inv v.user_id v.handle files r.passes.user r.passes.owned in
      let kept =
        change_owner v.user_id v.handle (cleared now) files.users r.passes.user (λ x. refl) one
          same_id in
      rw
        (
          get-remove v.handle v.handle files.secrets r.secrets_map,
          assert_retired,
          get_totp_secret,
          eq_refl v.handle,
          get-remove v.user_id v.user_id files.backup_codes r.codes_map,
          get_backup_codes,
          eq_refl v.user_id,
          assert_no_sessions_done v.user_id files.sessions (retired_files v now files)
              r.sessions_stored,
          owner_intro v.user_id v.handle (retired_files v now files) (cleared now r.passes.user)
              kept same_id same_handle,
        )
        refl

  retire_credentials_done :
      (ws : Writings) (files : Files)
      → IsSound v
      → AllSucceed ws
      → IsRetirable js v files
      → retire_credentials js ws v files ≡ (ok tt, retired_files v ws.cleared_at files)
  unfolding retire_credentials when_ok
  retire_credentials_done ws files sound all r =
      let gone : Files = record files { sessions = filter (is_foreign v.user_id) files.sessions } in
      let secretless : Files = record gone { secrets = remove v.handle files.secrets } in
      let codeless : Files = record secretless {
        backup_codes = remove v.user_id files.backup_codes;
      } in
      let r1 =
        with_sessions js v gone.sessions files
          (all_stored-filter (is_foreign v.user_id) [] [] files.sessions (λ id d. d)
            r.sessions_stored)
          r in
      let r2 = without_secret js v gone r1 in
      let r3 = without_codes js v secretless r2 in
      let id_ok = component_inv v.user_id sound.user_named in
      let handle_ok = component_inv v.handle sound.handle_named in
      rw
        (
          checks_intro js v files r.passes,
          retire_credentials,
          delete_user_sessions_done ws.sessions v.user_id files r.sessions_stored
              all.sessions_written,
          assert_no_sessions_done v.user_id files.sessions files r.sessions_stored,
          delete_secret_done js v ws.secret gone r1 handle_ok
              (digest_inv v.factor_snapshot_digest sound.snapshot_digest) all.secret_unlinked,
          delete_codes_done js v ws.codes secretless r2 id_ok
              (malformed_inv v.recovery_set_digest sound.recovery_digest) all.codes_unlinked,
          clear_flags_done js v ws.flags ws.cleared_at codeless r3 id_ok handle_ok
              all.flags_written,
          assert_retired_done ws.cleared_at files r,
        )
        refl

  record_applied_files :
      (keys : Sealing) (ws : Writings) (s : Custody) (m : Result Unit × Files)
      → (record_applied js keys ws v s m).1.files ≡ m.1
  unfolding record_applied
  record_applied_files keys ws s (err e, files) = refl
  record_applied_files keys ws s (ok _, files) =
      elim (Outcome-cases (assert_receipt (receipt_of ws.applied_at v))) [
        | inl (code, m, e) ↦ rw (e, record_applied) refl
        | inr (u, e) ↦
            let r = applied v.authorization_digest (receipt_of ws.applied_at v) in
            rw (e, record_applied)
              (answered_files (receipt_of ws.applied_at v)
                  (write keys ws.journal r (record s { files = files }))
                ∙ write_files keys ws.journal r (record s { files = files }))
      ]

  pub apply_completes :
      (keys : Sealing) (ws : Writings) (s : Custody)
      → assert_record (committed v) ≡ done tt
      → before (at ws.applied_at) v.committed_at ≡ false
      → AllSucceed ws
      → IsRetirable js v s.files
      → apply js keys ws v s ≡ (done (receipt_of ws.applied_at v), retired_custody keys ws v s)
  unfolding apply record_applied operation_of receipt_of
  apply_completes keys ws s recorded later all r =
      rw (apply, retire_credentials_done ws s.files (IsSound-inv v recorded) all r)
        (rw (receipt_done v ws.applied_at (IsSound-inv v recorded) later, record_applied)
          (rw
            (journal_done keys ws.journal
              (applied v.authorization_digest (receipt_of ws.applied_at v))
              (record s { files = retired_files v ws.cleared_at s.files })
              (applied_record_done v ws.applied_at (IsSound-inv v recorded) later)
              all.journal_written)
            refl))

  pub apply-IsRetirable :
      (keys : Sealing) (ws : Writings) (s : Custody)
      → IsRetirable js v s.files
      → IsRetirable js v (apply js keys ws v s).1.files
  unfolding apply
  apply-IsRetirable keys ws s r =
      subst (IsRetirable js v)
        (sym (record_applied_files keys ws s (retire_credentials js ws v s.files)))
        (retire_credentials-IsRetirable js v ws s.files r)

  -- What attempts of `apply` leave, one after the other, each with its own failures.
  abbrev pub attempts : Sealing → List Writings → Custody → Custody
  attempts keys [] s = s
  attempts keys (ws ∷ more) s = attempts keys more (apply js keys ws v s).1

  pub attempts-IsRetirable :
      (keys : Sealing) (failures : List Writings) (s : Custody)
      → IsRetirable js v s.files
      → IsRetirable js v (attempts keys failures s).files
  attempts-IsRetirable keys [] s r = r
  attempts-IsRetirable keys (ws ∷ more) s r =
      attempts-IsRetirable keys more (apply js keys ws v s).1 (apply-IsRetirable keys ws s r)

  -- A committed record that can be projected becomes applied, and its credentials are gone, as soon
  -- as every write of one attempt succeeds, whatever attempts failed before and at whichever write.
  pub apply_after_attempts :
      (keys : Sealing) (failures : List Writings) (ws : Writings) (s : Custody)
      → assert_record (committed v) ≡ done tt
      → before (at ws.applied_at) v.committed_at ≡ false
      → AllSucceed ws
      → IsRetirable js v s.files
      → apply js keys ws v (attempts keys failures s)
        ≡ (done (receipt_of ws.applied_at v), retired_custody keys ws v (attempts keys failures s))
  apply_after_attempts keys failures ws s recorded later all r =
      apply_completes keys ws (attempts keys failures s) recorded later all
        (attempts-IsRetirable keys failures s r)
