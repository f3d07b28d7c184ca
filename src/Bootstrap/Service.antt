-- ===== src/Bootstrap/Service.antt =====
-- The bootstrap service: src/modules/bootstrap/index.ts, and `hashPassword` of
-- src/core/security/password.ts.
use Prim.Native.Char.{Char, code}
use tinyland_auth.Base.{
  ℕ, ◌+◌, ◌*◌, Bool, true, false, not, ◌&&◌, ◌||◌, String, List, [], ◌∷◌, ◌==◌, Option, none, some,
  Result, ok, err, ◌>>◌, ◌>>=◌, throw_if, ltb, leb, nat_eq, length, is_empty, if◌then◌else◌,
}
use tinyland_auth.Roles.{super_admin}
use tinyland_auth.Types.{AdminUser, at}
use tinyland_auth.Types.Audit.{EventData, bootstrap_completed, info, text, number, flag}
use tinyland_auth.StepUp.Records.{text_length, all_chars, in_range}
use tinyland_auth.BackupCodes.{create_backup_code_set}
use tinyland_auth.Authenticator.{OtpLibrary, AuthenticatorConfig, verify_authenticator_token}
use tinyland_auth.Bootstrap.{
  BootstrapStorage, BootstrapServiceConfig, BootstrapRequest, BootstrapProfile, BootstrapState,
  BootstrapVerificationRequest, BootstrapStatus, BootstrapSetup, BootstrapResponse, refused,
  completed, followed, attempted,
}

-- `hashPassword`, over bcrypt's `hash` at a number of rounds
unfoldable pub hash_password : (String → ℕ → Result String) → String → ℕ → Result String
hash_password bcrypt password rounds =
    throw_if (ltb rounds 4 || ltb 31 rounds) "bcrypt rounds must be between 4 and 31"
    >> bcrypt password rounds

-- `[a-zA-Z]` and `[a-zA-Z0-9_-]`
abbrev is_letter : Char → Bool
is_letter c = in_range 65 90 c || in_range 97 122 c

abbrev is_handle_char : Char → Bool
is_handle_char c = is_letter c || in_range 48 57 c || nat_eq (code c) 95 || nat_eq (code c) 45

-- `/^[a-zA-Z][a-zA-Z0-9_-]{2,29}$/`
unfoldable pub is_bootstrap_handle : String → Bool
is_bootstrap_handle String.[] = false
is_bootstrap_handle (String.◌∷◌ c s) =
    is_letter c && leb 2 (text_length s) && leb (text_length s) 29 && all_chars is_handle_char s

-- `/^\d{6,8}$/`
unfoldable pub is_totp_code : String → Bool
is_totp_code s = leb 6 (text_length s) && leb (text_length s) 8 && all_chars (in_range 48 57) s

-- `updateProfile`
unfoldable pub update_profile : BootstrapState → BootstrapProfile → BootstrapState
update_profile state profile = record state { profile = some profile; step = 2 }

-- `isStateValid`; a timestamp of 0 counts as none.
unfoldable pub is_state_valid : ℕ → Option BootstrapState → ℕ → Bool
is_state_valid now none max_age = false
is_state_valid now (some state) max_age =
    not (nat_eq state.timestamp 0) && ltb now (state.timestamp + max_age)

-- `const maxAge`
abbrev pub max_age : ℕ
max_age = 10 * 60 * 1000

-- The password hash is deleted from the user of the response.
abbrev pub safe_user : AdminUser → AdminUser
safe_user user = record user { password_hash = "" }

abbrev profile_text : (BootstrapProfile → Option String) → Option BootstrapProfile → Option String
profile_text field none = none
profile_text field (some p) = field p

-- The user of `complete`, without its id.
unfoldable pub first_admin : ℕ → BootstrapState → AdminUser
first_admin now state = record {
  id = "";
  handle = state.handle;
  email = state.email;
  display_name = some state.display_name;
  password_hash = state.password_hash;
  totp_enabled = true;
  totp_secret_id = some state.handle;
  role = super_admin;
  permissions = none;
  is_active = true;
  is_locked = none;
  needs_onboarding = false;
  onboarding_step = 0;
  created_at = at now;
  updated_at = at now;
  bio = profile_text (λ p. p.bio) state.profile;
  avatar_url = profile_text (λ p. p.avatar_url) state.profile;
  pronouns = profile_text (λ p. p.pronouns) state.profile;
  first_login = none;
  removed_at = none;
  removed_by = none;
  github_id = none;
  github_login = none;
  github_linked_at = none;
}

-- The event of `complete`.
unfoldable pub completion_event : ℕ → AdminUser → ℕ → EventData
completion_event now user codes = record {
  timestamp = at now;
  event_type = bootstrap_completed;
  user_id = some user.id;
  target_user_id = none;
  handle = some user.handle;
  ip_address = none;
  user_agent = none;
  details =
      ("role", text "super_admin")
      ∷ ("totpEnabled", flag true)
      ∷ ("backupCodesGenerated", number codes)
      ∷ [];
  severity = info;
  source = "system";
}

-- What one `complete` reads besides its arguments: `nowMs`, the epoch for the code, none for the
-- system's clock, the time of the records, and the random ids.
pub record Circumstances : Type 0 where
  pub now_ms : ℕ
  pub epoch_seconds : Option ℕ
  pub now : ℕ
  pub user_id : String
  pub code_id : ℕ → String
  pub event_id : String

module _ {S : Type 0} (st : BootstrapStorage S) where
  -- `getStatus`
  unfoldable pub get_status : S → Result BootstrapStatus
  get_status s = st.has_users s >>= λ found.
      ok (record { needs_bootstrap = not found; has_users = found; system_configured = found })

  module _ (config : BootstrapServiceConfig) where
    -- `initiate`, with bcrypt, the random secret and backup codes, and the time
    unfoldable pub initiate :
        (String → ℕ → Result String)
        → String
        → List String
        → ℕ
        → BootstrapRequest
        → S
        → Result BootstrapSetup
    initiate bcrypt totp_secret backup_codes now request s = get_status s >>= λ status.
        throw_if (not status.needs_bootstrap) "Bootstrap not allowed: users already exist"
        >> throw_if (not (is_bootstrap_handle request.handle))
            "Handle must start with a letter, be 3-30 characters, and contain only letters, numbers, underscores, or hyphens"
        >> hash_password bcrypt request.password config.bcrypt_rounds
        >>= λ password_hash.
            config.generate_qr_code request.handle totp_secret config.app_name >>= λ qr_code_url.
            ok (record {
              state = record {
                handle = request.handle;
                password_hash = password_hash;
                display_name = request.display_name;
                email = request.email;
                totp_secret = totp_secret;
                backup_codes = backup_codes;
                timestamp = now;
                step = 1;
                profile = none;
              };
              qr_code_url = qr_code_url;
              backup_codes = backup_codes;
            })

    module _ (otp : OtpLibrary) (authenticator : AuthenticatorConfig)
        (sha256 : String → String) where
      -- `verifyCode`
      unfoldable pub verify_code : Option ℕ → String → String → Bool
      verify_code epoch_seconds secret totp_code =
          is_totp_code totp_code
          && elim (verify_authenticator_token otp authenticator secret totp_code epoch_seconds) [
            | err message ↦ false
            | ok valid ↦ valid
          ]

      -- The body of `try` in `complete`
      unfoldable pub create_first_admin : Circumstances → BootstrapState → S → Result AdminUser × S
      create_first_admin env state s =
          attempted (config.encrypt_totp_secret state.handle state.totp_secret) s (λ encrypted.
            followed (st.save_totp_secret state.handle encrypted s) (λ _ t.
              attempted
                (st.get_totp_secret state.handle t >>= λ saved. elim saved [
                  | none ↦ err "Failed to verify TOTP secret was saved"
                  | some secret ↦ ok tt
                ])
                t
                (λ _.
                  followed (st.create_user env.user_id env.now (first_admin env.now state) t)
                    (λ user u.
                      let code_set =
                        create_backup_code_set sha256 env.code_id (at env.now) "pending"
                          state.backup_codes in
                      followed
                        (st.save_backup_codes user.id (record code_set { user_id = user.id }) u)
                        (λ _ v.
                          followed
                            (st.log_audit_event env.event_id
                              (completion_event env.now user (length state.backup_codes)) v)
                            (λ _ w. (ok user, w)))))))

      -- The answer of `try` and `catch`
      unfoldable pub response_of :
          BootstrapState → Result AdminUser × S → Result BootstrapResponse × S
      response_of state (err message, s) = (ok (refused message), s)
      response_of state (ok user, s) = (ok (completed (safe_user user) state.backup_codes), s)

      -- The tests of `complete` on the stored users and the code.
      unfoldable pub user_checks :
          Circumstances → BootstrapState → BootstrapVerificationRequest → S → Result (Option String)
      user_checks env state verification s = st.has_users s >>= λ found.
          if found
          then ok (some "Bootstrap not allowed: users already exist")
          else if not (verify_code env.epoch_seconds state.totp_secret verification.totp_code)
          then ok (some "Invalid TOTP code. Please check your authenticator app.")
          else ok none

      -- The tests of `complete` before it writes: the message of the first that fails.
      unfoldable pub complete_checks :
          Circumstances → BootstrapState → BootstrapVerificationRequest → S → Result (Option String)
      complete_checks env state verification s =
          if is_empty state.handle || is_empty state.totp_secret
          then ok (some "Invalid bootstrap state")
          else if ltb (state.timestamp + max_age) env.now_ms
          then ok (some "Bootstrap session expired. Please start over.")
          else if not (state.handle == verification.handle)
          then ok (some "Handle mismatch")
          else user_checks env state verification s

      -- `complete`
      unfoldable pub complete :
          Circumstances
          → Option BootstrapState
          → BootstrapVerificationRequest
          → S
          → Result BootstrapResponse × S
      complete env none verification s = (ok (refused "Invalid bootstrap state"), s)
      complete env (some state) verification s =
          attempted (complete_checks env state verification s) s (λ problem. elim problem [
            | some message ↦ (ok (refused message), s)
            | none ↦ response_of state (create_first_admin env state s)
          ])
