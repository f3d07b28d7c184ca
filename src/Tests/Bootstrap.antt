-- ===== src/Tests/Bootstrap.antt =====
-- The theorems on the bootstrap at concrete inputs: src/modules/bootstrap/index.ts.
use tinyland_auth.Base.{
  ℕ, ◌≤◌, Bool, true, false, String, List, [], ◌∷◌, ◌==◌, ◌≡◌, Option, none, some, Result, ok, refl,
  arith,
}
use tinyland_auth.Base.Int.{pos}
use tinyland_auth.Types.{at}
use tinyland_auth.Types.Secrets.{EncryptedTotpSecret}
use tinyland_auth.Authenticator.{OtpLibrary, AuthenticatorConfig, default_config, valid}
use tinyland_auth.Memory.{Memory, empty_memory}
use tinyland_auth.Memory.Users as MemoryUsers
use tinyland_auth.Bootstrap.{
  BootstrapServiceConfig, BootstrapRequest, BootstrapSetup, BootstrapState, BootstrapStorage,
  BootstrapVerificationRequest, BootstrapResponse, completed,
}
use tinyland_auth.Bootstrap.Service.{Circumstances, first_admin, safe_user, initiate, complete}
use tinyland_auth.Bootstrap.Once.{Attempt, run, completes_once}
use tinyland_auth.Bootstrap.Sound.{IsJustified, complete_sound}
use tinyland_auth.Bootstrap.Adapters.{memory_bootstrap, file_bootstrap, memory_bootstrap_laws}
use tinyland_auth.Bootstrap.Completes.{initiated_completes}
use tinyland_auth.Bootstrap.Durable.{durable, file_completion_laws}
use tinyland_auth.File.{Files, no_files}
use tinyland_auth.File.Users as FileUsers
use tinyland_auth.File.Factors.{is_text, is_stored_factor}

abbrev sealed : EncryptedTotpSecret
sealed = record {
  user_id = "pending";
  handle = "ann";
  encrypted_secret = "s";
  iv = "i";
  auth_tag = "t";
  salt = "x";
  created_at = at 0;
  last_used_at = none;
  last_used_totp_step = none;
  backup_codes_generated = true;
  version = 1;
}

abbrev config : BootstrapServiceConfig
config = record {
  app_name = "app";
  bcrypt_rounds = 12;
  generate_qr_code = λ handle secret issuer. ok "data:";
  encrypt_totp_secret = λ handle secret. ok sealed;
}

abbrev otp : OtpLibrary
otp = record { verify = λ r. ok (valid (pos 0)); verify_sync = λ r. ok (valid (pos 0)) }

abbrev seed : String
seed = "ABCDEFGHIJKLMNOPQRSTUVWXYZ234567"

abbrev codes : List String
codes = "AAAA-BBBB" ∷ []

abbrev request : BootstrapRequest
request = record { handle = "ann"; password = "pw"; display_name = "Ann"; email = none }

abbrev setup : BootstrapSetup
setup = record {
  state = record {
    handle = "ann";
    password_hash = "hash";
    display_name = "Ann";
    email = none;
    totp_secret = seed;
    backup_codes = codes;
    timestamp = 5;
    step = 1;
    profile = none;
  };
  qr_code_url = "data:";
  backup_codes = codes;
}

abbrev env : Circumstances
env = record {
  now_ms = 600005;
  epoch_seconds = none;
  now = 600005;
  user_id = "u1";
  code_id = λ n. "c";
  event_id = "e1";
}

abbrev verification : BootstrapVerificationRequest
verification = record { handle = "ann"; totp_code = "123456" }

abbrev attempt : Attempt
attempt = record { env = env; state = some setup.state; verification = verification }

abbrev after : Memory
after =
    (complete memory_bootstrap config otp default_config (λ s. s) env (some setup.state)
      verification empty_memory).1

initiates :
    initiate memory_bootstrap config
      (λ password rounds. ok "hash")
      seed
      codes
      5
      request
      empty_memory
    ≡ ok setup
unfolding tinyland_auth.Bootstrap.Service.hash_password
    tinyland_auth.Bootstrap.Service.is_bootstrap_handle tinyland_auth.Bootstrap.Service.get_status
    tinyland_auth.Bootstrap.Service.initiate tinyland_auth.Memory.Users.has_users
    tinyland_auth.Memory.empty_memory tinyland_auth.StepUp.Records.text_length
    tinyland_auth.StepUp.Records.all_chars
initiates = refl

completes :
    complete memory_bootstrap config otp default_config
      (λ s. s)
      env
      (some setup.state)
      verification
      empty_memory
    ≡ (
      ok (completed (safe_user (record (first_admin 600005 setup.state) { id = "u1" })) codes),
      after,
    )
unfolding tinyland_auth.Bootstrap.Service.is_totp_code tinyland_auth.Bootstrap.Service.verify_code
    tinyland_auth.Bootstrap.Service.create_first_admin tinyland_auth.Bootstrap.Service.response_of
    tinyland_auth.Bootstrap.Service.user_checks tinyland_auth.Bootstrap.Service.complete_checks
    tinyland_auth.Bootstrap.Service.complete tinyland_auth.Authenticator.is_space
    tinyland_auth.Authenticator.strip_spaces tinyland_auth.Authenticator.significant_length
    tinyland_auth.Authenticator.base32_byte_length
    tinyland_auth.Authenticator.assert_secret_meets_floor
    tinyland_auth.Authenticator.verify_authenticator_token tinyland_auth.Memory.Users.create_user
    tinyland_auth.Memory.Users.has_users tinyland_auth.Memory.Factors.get_totp_secret
    tinyland_auth.Memory.Factors.save_totp_secret tinyland_auth.Memory.empty_memory
    tinyland_auth.StepUp.Records.text_length tinyland_auth.StepUp.Records.all_chars
    tinyland_auth.Base.Assoc.get tinyland_auth.Base.Assoc.put tinyland_auth.Base.lower_char
    tinyland_auth.Base.to_lower
completes = refl

verifies :
    tinyland_auth.Bootstrap.Service.verify_code memory_bootstrap config otp default_config
      (λ s. s)
      none
      seed
      "123456"
    ≡ true
unfolding tinyland_auth.Bootstrap.Service.is_totp_code tinyland_auth.Bootstrap.Service.verify_code
    tinyland_auth.Authenticator.is_space tinyland_auth.Authenticator.strip_spaces
    tinyland_auth.Authenticator.significant_length tinyland_auth.Authenticator.base32_byte_length
    tinyland_auth.Authenticator.assert_secret_meets_floor
    tinyland_auth.Authenticator.verify_authenticator_token tinyland_auth.StepUp.Records.text_length
    tinyland_auth.StepUp.Records.all_chars
verifies = refl

completes_once_example :
    ((run memory_bootstrap config otp default_config
        (λ s. s)
        (attempt ∷ attempt ∷ [])
        empty_memory).0
      ≤ 1)
    × (ok (MemoryUsers.has_users empty_memory) ≡ ok true
        → run memory_bootstrap config otp default_config
            (λ s. s)
            (attempt ∷ attempt ∷ [])
            empty_memory
          ≡ (0, empty_memory))
completes_once_example =
    completes_once memory_bootstrap config otp default_config (λ s. s) memory_bootstrap_laws
      (attempt ∷ attempt ∷ []) empty_memory

complete_sound_example :
    IsJustified memory_bootstrap config otp default_config
      (λ s. s)
      env
      (some setup.state)
      verification
      empty_memory
      after
complete_sound_example =
    complete_sound memory_bootstrap config otp default_config (λ s. s) memory_bootstrap_laws env
      (some setup.state) verification empty_memory after
      (safe_user (record (first_admin 600005 setup.state) { id = "u1" })) codes completes

-- The same over files, where every write succeeds.
abbrev disk : BootstrapStorage Files
disk = file_bootstrap durable

initiates_on_disk :
    initiate disk config (λ password rounds. ok "hash") seed codes 5 request no_files ≡ ok setup
unfolding tinyland_auth.Bootstrap.Service.hash_password
    tinyland_auth.Bootstrap.Service.is_bootstrap_handle tinyland_auth.Bootstrap.Service.get_status
    tinyland_auth.Bootstrap.Service.initiate tinyland_auth.File.Users.has_users
    tinyland_auth.StepUp.Records.text_length tinyland_auth.StepUp.Records.all_chars
initiates_on_disk = refl

verifies_on_disk :
    tinyland_auth.Bootstrap.Service.verify_code disk config otp default_config
      (λ s. s)
      none
      seed
      "123456"
    ≡ true
unfolding tinyland_auth.Bootstrap.Service.is_totp_code tinyland_auth.Bootstrap.Service.verify_code
    tinyland_auth.Authenticator.is_space tinyland_auth.Authenticator.strip_spaces
    tinyland_auth.Authenticator.significant_length tinyland_auth.Authenticator.base32_byte_length
    tinyland_auth.Authenticator.assert_secret_meets_floor
    tinyland_auth.Authenticator.verify_authenticator_token tinyland_auth.StepUp.Records.text_length
    tinyland_auth.StepUp.Records.all_chars
verifies_on_disk = refl

sealed_fits : is_stored_factor sealed "ann" ≡ true
unfolding is_stored_factor is_text
sealed_fits = refl

initiated_completes_example :
    (t : Files) × (complete disk config otp default_config
        (λ s. s)
        env
        (some setup.state)
        verification
        no_files
      ≡ (
        ok (completed (safe_user (record (first_admin 600005 setup.state) { id = "u1" })) codes),
        t,
      ))
    × (FileUsers.get_user "u1" t ≡ some (record (first_admin 600005 setup.state) { id = "u1" }))
unfolding file_completion_laws FileUsers.has_users
initiated_completes_example =
    initiated_completes disk config otp default_config (λ s. s) file_completion_laws
      (λ password rounds. ok "hash") seed codes 5 request no_files no_files setup env "123456"
      sealed initiates_on_disk refl refl (omega arith) verifies_on_disk refl sealed_fits
