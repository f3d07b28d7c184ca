-- ===== src/Tests/Retirement.antt =====
-- The theorems on retirement at concrete inputs: src/storage/file-totp-retirement.ts.
use tinyland_auth.Base.{
  ℕ, ◌+◌, Bool, true, false, String, List, [], ◌∷◌, ◌==◌, ◌≡◌, Option, none, some, ok,
  if◌then◌else◌, refl,
}
use tinyland_auth.Base.Assoc.{Assoc, IsMap, get, put, remove}
use tinyland_auth.Roles.{editor}
use tinyland_auth.Types.{AdminUser, Session, at}
use tinyland_auth.Types.Secrets.{EncryptedTotpSecret, BackupCodeSet}
use tinyland_auth.File.{Files, Writing}
use tinyland_auth.Journal.{Outcome, done}
use tinyland_auth.Memory.{given}
use tinyland_auth.Sessions.Policy.{all_stored, is_stored_session}
use tinyland_auth.StepUp.Records.{is_hex64, text_length, all_chars}
use tinyland_auth.File.Factors.{
  get_totp_secret, is_stored_factor, is_text, get_backup_codes, is_stored_backup_codes,
  all_codes_stored,
}
use tinyland_auth.File.Expected.{is_component}
use tinyland_auth.Retirement.Material
use tinyland_auth.Retirement.Material.{
  Encoding, factor_generation, factor_snapshot_digest, recovery_set_digest, encoded_code,
  encoded_codes, encoded_factor,
}
use tinyland_auth.Retirement.Records.{
  RetirementBinding, Consumed, Receipt, Committed, committed, assert_record, assert_component,
  assert_text, assert_stamp, assert_digest, assert_optional_digest,
}
use tinyland_auth.Retirement.Store.{Custody, Sealing, envelope, filenames, sort_names}
use tinyland_auth.Retirement.Apply.{
  apply_checks, owner, assert_same_factor, assert_same_codes, Writings, apply, receipt_of,
}
use tinyland_auth.Retirement.Checks.{checks_inv}
use tinyland_auth.Retirement.Keeps.{IsRetirable}
use tinyland_auth.Retirement.Completes.{attempts, retired_custody, apply_after_attempts}
use tinyland_auth.Retirement.Operations.{
  Current, Decision, consumed, RetirementResult, retired, current, recover, retire,
}
use tinyland_auth.Retirement.Authorized.{IsAuthorized, retire-IsAuthorized}
use tinyland_auth.Tests.Samples.{user_of}

abbrev hex : String
hex = "aaaaaaaaaaaaaaaaaaaaaaaaaaaaaaaaaaaaaaaaaaaaaaaaaaaaaaaaaaaaaaaa"

abbrev js : Encoding
js = record {
  sha256 = λ domain text. hex;
  quote = λ s. s;
  number = λ n. "1";
  date = λ t. "1970-01-01T00:00:00.000Z";
}

abbrev keys : Sealing
keys = record { mac = λ domain text. hex; json_record = λ r. "{}" }

abbrev ann : AdminUser
ann = record (user_of "u1" "ann" none editor none) {
  totp_enabled = true;
  totp_secret_id = some "ann";
}

abbrev bob : AdminUser
bob = user_of "u2" "bob" none editor none

abbrev session_of : String → String → Session
session_of id user_id = record {
  id = id;
  user_id = user_id;
  expires = at 1000;
  expires_at = at 1000;
  created_at = at 0;
  user = none;
  client_ip = "";
  client_ip_masked = none;
  user_agent = "";
  device_type = none;
  browser_fingerprint = none;
  geo_location = none;
  temp_totp_secret = none;
  temp_totp_expires_at = none;
}

abbrev secret : EncryptedTotpSecret
secret = record {
  user_id = "u1";
  handle = "ann";
  encrypted_secret = "s";
  iv = "i";
  auth_tag = "t";
  salt = "x";
  created_at = at 0;
  last_used_at = none;
  last_used_totp_step = none;
  backup_codes_generated = true;
  version = 1;
}

abbrev codes : BackupCodeSet
codes = record {
  user_id = "u1";
  codes = record { id = "1"; hash = hex; used = false; used_at = none } ∷ [];
  generated_at = at 0;
  last_used_at = none;
}

abbrev files : Files
files = record {
  users = bob ∷ ann ∷ [];
  sessions = session_of "s1" "u1" ∷ session_of "s2" "u2" ∷ session_of "s3" "u1" ∷ [];
  invites = [];
  audit_log = [];
  secrets = ("ann", secret) ∷ [];
  backup_codes = ("u1", codes) ∷ [];
}

abbrev v : Committed
v = record {
  operation_id = hex;
  user_id = "u1";
  handle = "ann";
  factor_generation = hex;
  factor_snapshot_digest = hex;
  recovery_set_digest = some hex;
  authorization_digest = hex;
  factor_binding = hex;
  committed_at = at 5;
}

abbrev custody : Custody
custody = record { files = files; journal = (hex, envelope (committed v) hex) ∷ [] }

abbrev works : Writing
works = record { renamed = true; synced = true }

abbrev breaks : Writing
breaks = record { renamed = false; synced = false }

abbrev working : Writings
working = record {
  sessions = works;
  secret = works;
  codes = works;
  flags = works;
  journal = works;
  cleared_at = 6;
  applied_at = 7;
}

-- The codes stay, although the secret is gone.
abbrev half : Writings
half = record working { codes = breaks }

files-IsRetirable : IsRetirable js v files
unfolding IsMap get all_stored is_stored_session apply_checks owner get_totp_secret is_stored_factor
    is_text get_backup_codes is_stored_backup_codes all_codes_stored is_hex64 text_length all_chars
    assert_same_factor factor_generation Material.assert_retirement_factor Material.assert_text
    Material.assert_timestamp Material.assert_optional_timestamp factor_snapshot_digest given
    assert_same_codes Material.assert_codes Material.assert_retirement_backup_codes encoded_code
    encoded_codes encoded_factor recovery_set_digest
files-IsRetirable = record {
  passes = checks_inv js v files refl;
  sessions_stored = refl;
  secrets_map = (refl, tt);
  codes_map = (refl, tt);
}

apply_after_attempts_example : apply js keys working v (attempts js v keys (half ∷ []) custody) ≡ (
  done (receipt_of 7 v),
  retired_custody keys working v (attempts js v keys (half ∷ []) custody),
)
unfolding assert_record assert_component assert_text assert_stamp assert_digest
    assert_optional_digest text_length is_component all_chars is_hex64
apply_after_attempts_example =
    apply_after_attempts js v keys (half ∷ []) working custody refl refl
      (record {
        sessions_written = refl;
        secret_unlinked = refl;
        codes_unlinked = refl;
        flags_written = refl;
        journal_written = refl;
      })
      files-IsRetirable

abbrev binding : RetirementBinding
binding = record { user_id = "u1"; handle = "ann"; session_id = "s1" }

abbrev allowed : Consumed
allowed = record {
  receipt_id = "RRRRRRRRRRRRRRRRRRRRRRRRRRRRRRRRRRRRRRRRRRR";
  actor_id = "u1";
  action = "factor.disable";
  resource_id = "u1";
  factor_binding = hex;
}

abbrev authorize : Current → Files → Decision Unit × Files
authorize first left = (consumed allowed, left)

abbrev ready : Custody
ready = record { files = files; journal = [] }

abbrev clock : ℕ → ℕ
clock n = 3 + n

abbrev result : Outcome (RetirementResult Unit) × Custody
result = retire js keys true (λ n. working) clock works working binding authorize ready

abbrev receipt : Receipt
receipt = record {
  operation_id = hex;
  user_id = "u1";
  handle = "ann";
  factor_generation = hex;
  committed_at = at 6;
  applied_at = at 7;
}

retires : result ≡ (done (retired receipt), result.1)
unfolding tinyland_auth.Retirement.Operations.has_authority
    tinyland_auth.Retirement.Operations.assert_own tinyland_auth.Retirement.Operations.is_session_of
    tinyland_auth.Retirement.Operations.assert_session tinyland_auth.Retirement.Operations.current
    tinyland_auth.Retirement.Operations.assert_unchanged
    tinyland_auth.Retirement.Operations.recover_names tinyland_auth.Retirement.Operations.recover
    tinyland_auth.Retirement.Operations.committed_record
    tinyland_auth.Retirement.Operations.commitment
    tinyland_auth.Retirement.Operations.commit_and_apply tinyland_auth.Retirement.Operations.decide
    tinyland_auth.Retirement.Operations.retire tinyland_auth.Retirement.Apply.owner
    tinyland_auth.Retirement.Apply.assert_no_sessions tinyland_auth.Retirement.Apply.receipt_of
    tinyland_auth.Retirement.Apply.assert_same_factor
    tinyland_auth.Retirement.Apply.assert_same_codes tinyland_auth.Retirement.Apply.apply_checks
    tinyland_auth.Retirement.Apply.assert_retired tinyland_auth.Retirement.Apply.retire_credentials
    tinyland_auth.Retirement.Apply.record_applied tinyland_auth.Retirement.Apply.apply
    tinyland_auth.Retirement.Store.sort_names tinyland_auth.Retirement.Store.filenames
    tinyland_auth.Retirement.Store.read tinyland_auth.Retirement.Store.write
    tinyland_auth.Retirement.Records.assert_text tinyland_auth.Retirement.Records.assert_component
    tinyland_auth.Retirement.Records.assert_digest
    tinyland_auth.Retirement.Records.assert_optional_digest
    tinyland_auth.Retirement.Records.assert_stamp tinyland_auth.Retirement.Records.assert_receipt
    tinyland_auth.Retirement.Records.assert_record
    tinyland_auth.Retirement.Records.assert_authorization
    tinyland_auth.Retirement.Material.assert_text tinyland_auth.Retirement.Material.assert_timestamp
    tinyland_auth.Retirement.Material.assert_optional_timestamp
    tinyland_auth.Retirement.Material.assert_retirement_factor
    tinyland_auth.Retirement.Material.assert_codes
    tinyland_auth.Retirement.Material.assert_retirement_backup_codes
    tinyland_auth.Retirement.Material.factor_generation
    tinyland_auth.Retirement.Material.factor_snapshot_digest
    tinyland_auth.Retirement.Material.recovery_set_digest
    tinyland_auth.Retirement.Material.principal_digest tinyland_auth.File.write_json_file
    tinyland_auth.File.when_ok tinyland_auth.File.Users.get_user
    tinyland_auth.File.Users.change_user tinyland_auth.File.Sessions.read_sessions
    tinyland_auth.File.Sessions.store_sessions tinyland_auth.File.Sessions.mutate_sessions
    tinyland_auth.File.Sessions.get_session tinyland_auth.File.Sessions.get_sessions_by_user
    tinyland_auth.File.Sessions.keep_sessions tinyland_auth.File.Sessions.delete_user_sessions
    tinyland_auth.File.Factors.is_text tinyland_auth.File.Factors.is_stored_factor
    tinyland_auth.File.Factors.all_codes_stored tinyland_auth.File.Factors.is_stored_backup_codes
    tinyland_auth.File.Factors.get_totp_secret tinyland_auth.File.Factors.get_backup_codes
    tinyland_auth.File.Expected.is_component tinyland_auth.File.Expected.retirement_component
    tinyland_auth.File.Expected.unlink_expected tinyland_auth.File.Expected.stored_factor_digest
    tinyland_auth.File.Expected.stored_codes_digest
    tinyland_auth.File.Expected.delete_totp_secret_expected
    tinyland_auth.File.Expected.delete_backup_codes_expected
    tinyland_auth.File.Expected.assert_cleared tinyland_auth.File.Expected.confirm_cleared
    tinyland_auth.File.Expected.assert_owner tinyland_auth.File.Expected.clear_totp_flags_expected
    tinyland_auth.Sessions.Policy.is_stored_session tinyland_auth.Sessions.Policy.all_stored
    tinyland_auth.Sessions.Policy.assert_stored_sessions tinyland_auth.StepUp.Records.text_length
    tinyland_auth.StepUp.Records.all_chars tinyland_auth.StepUp.Records.is_hex64
    tinyland_auth.StepUp.Records.is_reference tinyland_auth.Base.Assoc.get
    tinyland_auth.Base.Assoc.remove tinyland_auth.Memory.given
retires = refl

retire-IsAuthorized_example :
    IsAuthorized js keys binding true (λ n. working) 3 authorize receipt ready result.1
retire-IsAuthorized_example =
    retire-IsAuthorized js keys binding clock works working true (λ n. working) authorize ready
      result.1 receipt retires
