-- ===== src/Retirement/Operations.antt =====
-- `retire`, `recover` and `readReceipt` of src/storage/file-totp-retirement.ts.
use tinyland_auth.Base.{
  ℕ, Bool, true, false, not, ◌&&◌, ◌||◌, String, List, [], ◌∷◌, ◌==◌, Option, none, some, ok, err,
  ltb, leb, length, is_some, if◌then◌else◌,
}
use tinyland_auth.Types.{AdminUser, Session, Timestamp, at, before, not_after}
use tinyland_auth.Types.Secrets.{EncryptedTotpSecret, BackupCodeSet}
use tinyland_auth.StepUp.Records.{is_reference}
use tinyland_auth.File.{Files, Writing}
use tinyland_auth.File.Sessions.{get_session}
use tinyland_auth.File.Factors.{get_totp_secret, get_backup_codes}
use tinyland_auth.File.Expected.{has_secret_id}
use tinyland_auth.Journal.{
  Outcome, failed, done, ◌then◌, ◌and_then◌, rethrown, checked, continued, invalid, unauthorized,
  conflict, recovery_required, thrown,
}
use tinyland_auth.Retirement.Material.{
  Encoding, factor_generation, factor_snapshot_digest, recovery_set_digest, principal_digest,
}
use tinyland_auth.Retirement.Records.{
  RetirementBinding, Committed, Receipt, RetirementRecord, committed, applied, Consumed, message,
  fail_if, assert_text, assert_component, assert_authorization,
}
use tinyland_auth.Retirement.Store.{Custody, Sealing, filenames, max_records, read, write}
use tinyland_auth.Retirement.Apply.{Writings, owner, apply, same_optional}

-- What `current` gives: the context for the caller and the secret.
pub record Current : Type 0 where
  pub user : AdminUser
  pub session : Session
  pub factor_generation : String
  pub recovery_set_digest : Option String
  pub factor : EncryptedTotpSecret

-- The answer of the caller's `authorize`, which may have changed the stored credentials.
pub data Decision (T : Type 0) : Type 0 where
  rejected : String → Decision T
  not_consumed : T → Decision T
  consumed : Consumed → Decision T

-- `TotpRetirementResult`
pub data RetirementResult (T : Type 0) : Type 0 where
  retired : Receipt → RetirementResult T
  kept : T → RetirementResult T

-- The user may retire a factor: active, onboarded, not locked, not removed, with the factor on.
unfoldable pub has_authority : String → AdminUser → Bool
has_authority handle u =
    u.is_active
    && not (elim u.is_locked [ none ↦ false | some b ↦ b ])
    && not u.needs_onboarding
    && not (elim u.first_login [ none ↦ false | some b ↦ b ])
    && not (is_some u.removed_at)
    && not (is_some u.removed_by)
    && u.totp_enabled
    && has_secret_id handle u

-- The tests of `current` on the secret and the codes.
unfoldable pub assert_own :
    RetirementBinding
    → Option EncryptedTotpSecret
    → Option BackupCodeSet
    → Outcome EncryptedTotpSecret
assert_own binding none codes = failed conflict message
assert_own binding (some factor) codes =
    fail_if
      (not (factor.user_id == binding.user_id)
        || not (factor.handle == binding.handle)
        || elim codes [ none ↦ false | some c ↦ not (c.user_id == binding.user_id) ])
      conflict
    then done factor

-- The session belongs to the user.
unfoldable pub is_session_of : RetirementBinding → Session → Bool
is_session_of binding s =
    s.id == binding.session_id && s.user_id == binding.user_id && elim s.user [
      | none ↦ true
      | some u ↦
          u.id == binding.user_id && not (elim u.needs_onboarding [ none ↦ false | some b ↦ b ])
    ]

-- The tests of `current` on the session, at a time.
unfoldable pub assert_session : RetirementBinding → ℕ → Option Session → Outcome Session
assert_session binding now none = failed unauthorized message
assert_session binding now (some s) =
    fail_if
      (not (is_session_of binding s)
        || not (not_after s.created_at (at now))
        || not (before (at now) s.expires))
      unauthorized
    then done s

module _ (js : Encoding) where
  -- `current`, where both of its readings of the clock give the same time; the session is read last.
  unfoldable pub current : RetirementBinding → ℕ → Files → Outcome Current
  current binding now files =
      (elim (owner binding.user_id binding.handle files) [
        | err m ↦ failed conflict message
        | ok u ↦ done u
      ])
      and_then λ user.
          fail_if (not (has_authority binding.handle user)) unauthorized
          then rethrown (get_totp_secret binding.handle files)
          and_then λ secret. rethrown (get_backup_codes binding.user_id files) and_then λ codes.
              assert_own binding secret codes and_then λ factor.
              rethrown (factor_generation js factor) and_then λ generation.
              rethrown (recovery_set_digest js codes) and_then λ recovery.
              rethrown (get_session binding.session_id files) and_then λ found.
              assert_session binding now found and_then λ session. done (record {
                user = user;
                session = session;
                factor_generation = generation;
                recovery_set_digest = recovery;
                factor = factor;
              })

  -- `(after ?? -1) < (before ?? -1)`
  abbrev pub step_went_back : Option ℕ → Option ℕ → Bool
  step_went_back first none = is_some first
  step_went_back none (some b) = false
  step_went_back (some a) (some b) = ltb b a

  -- `before && (!after || after < before)`
  abbrev pub use_went_back : Option Timestamp → Option Timestamp → Bool
  use_went_back none second = false
  use_went_back (some a) none = true
  use_went_back (some a) (some b) = before b a

  abbrev pub same_date : Timestamp → Timestamp → Bool
  same_date a b = js.date a == js.date b

  -- The authority did not change while the caller decided.
  unfoldable pub assert_unchanged : Current → Current → Outcome (Unit {0})
  assert_unchanged a b =
      fail_if
        (not (principal_digest js a.user == principal_digest js b.user)
          || not (same_date a.session.created_at b.session.created_at)
          || not (a.factor_generation == b.factor_generation)
          || not (same_optional a.recovery_set_digest b.recovery_set_digest)
          || step_went_back a.factor.last_used_totp_step b.factor.last_used_totp_step
          || use_went_back a.factor.last_used_at b.factor.last_used_at)
        conflict

  module _ (keys : Sealing) where
    -- What `recoverUnsafe` does with a record.
    unfoldable pub recover_record :
        Writings → Option RetirementRecord → Custody → Outcome (Unit {0}) × Custody
    recover_record ws none s = (failed recovery_required message, s)
    recover_record ws (some (applied digest receipt)) s = (done tt, s)
    recover_record ws (some (committed v)) s =
        continued (apply js keys ws v s) (λ receipt t. (done tt, t))

    -- The loop of `recoverUnsafe`; `run n` is how the writes of the `n`th name go.
    unfoldable pub recover_names :
        (ℕ → Writings) → List String → Custody → Outcome (Unit {0}) × Custody
    recover_names run [] s = (done tt, s)
    recover_names run (name ∷ names) s =
        continued
          (checked (read keys name s.journal) s
            (λ found. recover_record (run (length names)) found s))
          (λ _ t. recover_names run names t)

    -- `recoverUnsafe`, and so `recover`; whether `prepare` succeeds is an argument.
    unfoldable pub recover : Bool → (ℕ → Writings) → Custody → Outcome (Unit {0}) × Custody
    recover prepared run s =
        checked (fail_if (not prepared) recovery_required then filenames s.journal) s
          (λ names. recover_names run names s)

    -- `readReceipt`, after the recovery
    unfoldable pub receipt_of_user : String → String → Option RetirementRecord → Option Receipt
    receipt_of_user receipt_id user_id none = none
    receipt_of_user receipt_id user_id (some (committed v)) = none
    receipt_of_user receipt_id user_id (some (applied digest r)) =
        if r.user_id == user_id && digest == keys.mac "authorization" receipt_id
        then some r
        else none

    unfoldable pub read_receipt :
        Bool → (ℕ → Writings) → String → String → Custody → Outcome (Option Receipt) × Custody
    read_receipt prepared run receipt_id user_id s =
        checked (fail_if (not (is_reference receipt_id)) invalid then assert_component user_id) s
          (λ _. continued (recover prepared run s) (λ _ u. (
            read keys (keys.mac "operation" receipt_id) u.journal and_then λ found.
                done (receipt_of_user receipt_id user_id found),
            u,
          )))

    -- The record that `retire` commits.
    unfoldable pub committed_record :
        RetirementBinding → Consumed → Current → String → ℕ → Committed
    committed_record binding c now_current snapshot now = record {
      operation_id = keys.mac "operation" c.receipt_id;
      user_id = binding.user_id;
      handle = binding.handle;
      factor_generation = now_current.factor_generation;
      factor_snapshot_digest = snapshot;
      recovery_set_digest = now_current.recovery_set_digest;
      authorization_digest = keys.mac "authorization" c.receipt_id;
      factor_binding = c.factor_binding;
      committed_at = at now;
    }

    -- The tests of `retire` after the decision, and the record to commit. The times are those of
    -- `current`, of the test of the session's end and of the commitment.
    unfoldable pub commitment :
        RetirementBinding → Consumed → Current → (ℕ → ℕ) → Custody → Outcome Committed
    commitment binding c first clock s =
        assert_authorization c binding then current binding (clock 1) s.files and_then λ second.
        assert_unchanged first second
        then read keys (keys.mac "operation" c.receipt_id) s.journal
        and_then λ found.
            fail_if (is_some found) conflict then filenames s.journal and_then λ names.
            fail_if (leb max_records (length names)) recovery_required
            then fail_if (not_after second.session.expires (at (clock 2))) unauthorized
            then rethrown (factor_snapshot_digest js second.factor)
            and_then λ snapshot. done (committed_record binding c second snapshot (clock 3))

    -- The commitment is written, then projected.
    unfoldable pub commit_and_apply :
        {T : Type 0}
        → Writing
        → Writings
        → Committed
        → Custody
        → Outcome (RetirementResult T) × Custody
    commit_and_apply w ws v s =
        continued (write keys w (committed v) s)
          (λ _ t. continued (apply js keys ws v t) (λ receipt u. (done (retired receipt), u)))

    -- What `retire` does with the decision.
    unfoldable pub decide :
        {T : Type 0}
        → RetirementBinding
        → (ℕ → ℕ)
        → Writing
        → Writings
        → Current
        → Decision T × Files
        → Custody
        → Outcome (RetirementResult T) × Custody
    decide binding clock w ws first (rejected m, files) s =
        (failed thrown m, record s { files = files })
    decide binding clock w ws first (not_consumed value, files) s =
        (done (kept value), record s { files = files })
    decide binding clock w ws first (consumed c, files) s =
        let t : Custody = record s { files = files } in
        checked (commitment binding c first clock t) t (λ v. commit_and_apply w ws v t)

    -- `retire`
    unfoldable pub retire :
        {T : Type 0}
        → Bool
        → (ℕ → Writings)
        → (ℕ → ℕ)
        → Writing
        → Writings
        → RetirementBinding
        → (Current → Files → Decision T × Files)
        → Custody
        → Outcome (RetirementResult T) × Custody
    retire prepared run clock w ws binding authorize s =
        checked
          (assert_component binding.user_id
            then assert_component binding.handle
            then assert_text binding.session_id)
          s
          (λ _. continued (recover prepared run s) (λ _ u.
            checked (current binding (clock 0) u.files) u
              (λ first. decide binding clock w ws first (authorize first u.files) u)))
