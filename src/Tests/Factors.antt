-- ===== src/Tests/Factors.antt =====
-- The theorems on the second factors at concrete inputs: src/core/backup-codes/index.ts and src/core/totp/index.ts.
use tinyland_auth.Base.{
  ℕ, suc, ◌≤◌, true, false, String, List, [], ◌∷◌, ◌≡◌, ◌≢◌, none, some, Result, ok, inl, refl,
  arith, ◌==◌, if◌then◌else◌,
}
use tinyland_auth.Base.Int.{pos, le_int, shift}
use tinyland_auth.Types.{at}
use tinyland_auth.Types.Secrets.{BackupCodeSet}
use tinyland_auth.BackupCodes.{
  upper_char, normalize_code, hash_backup_code, hashed_codes, create_backup_code_set, find_index,
  verify_backup_code, use_code,
}
use tinyland_auth.BackupCodes.Matching.{count_hash}
use tinyland_auth.BackupCodes.Laws.{backup_code_single_use, created_codes_accepted}
use tinyland_auth.Authenticator.{
  default_config, OtpLibrary, OtpRequest, OtpAnswer, valid, invalid, base32_byte_length,
  significant_length, strip_spaces, is_space, min_secret_bytes, get_authenticator_step,
  get_authenticator_check_delta, assert_secret_meets_floor, otp_request,
}
use tinyland_auth.Totp.{TotpSecret, current_step, judge_delta, is_replay, verify_token_with_step}
use tinyland_auth.Totp.Replay.{Attempt, consumed_steps, attempt_step}

-- A digest that is the text itself.
abbrev digest : String → String
digest s = s

abbrev fresh_id : ℕ → String
fresh_id n = "id"

abbrev codes : List String
codes = "AB12-CD34" ∷ "EF56-0789" ∷ []

abbrev set : BackupCodeSet
set = create_backup_code_set digest fresh_id (at 0) "u1" codes

created_codes_accepted_example : (verify_backup_code digest (at 1) set "AB12-CD34").valid ≡ true
created_codes_accepted_example =
    created_codes_accepted digest fresh_id (at 0) (at 1) "u1" codes "AB12-CD34" (inl refl)

once : count_hash (hash_backup_code digest "ab12cd34") set.codes ≤ 1
unfolding create_backup_code_set hashed_codes normalize_code upper_char
once = omega arith

accepted : (verify_backup_code digest (at 1) set "ab12cd34").valid ≡ true
unfolding verify_backup_code use_code find_index create_backup_code_set hashed_codes normalize_code
    upper_char
accepted = refl

backup_code_single_use_example :
    let next = (verify_backup_code digest (at 1) set "ab12cd34").code_set in
    (normalize_code "AB12-CD34" ≡ normalize_code "ab12cd34"
      → (verify_backup_code digest (at 2) next "AB12-CD34").valid ≡ false)
    × (hash_backup_code digest "AB12-CD34" ≢ hash_backup_code digest "ab12cd34"
        → (verify_backup_code digest (at 2) next "AB12-CD34").valid
          ≡ (verify_backup_code digest (at 2) set "AB12-CD34").valid)
backup_code_single_use_example =
    backup_code_single_use digest (at 1) (at 2) set "ab12cd34" "AB12-CD34" once accepted

-- A library that takes the token 123456 for the current step and refuses all others.
abbrev check : OtpRequest → Result OtpAnswer
check r = if r.token == "123456" then ok (valid (pos 0)) else ok invalid

abbrev library : OtpLibrary
library = record { verify = check; verify_sync = check }

abbrev secret : TotpSecret
secret = record {
  handle = "ann";
  email = none;
  secret = "JBSWY3DPEHPK3PXPJBSWY3DPEHPK3PXP";
  qr_code_url = none;
  created_at = at 0;
  last_used = none;
}

abbrev attempt : Attempt
attempt = record { now = 300000; epoch = none; secret = some secret; token = "123 456" }

-- The second of two equal attempts consumes nothing.
consumes_once :
    consumed_steps library default_config (some (pos 5)) (attempt ∷ attempt ∷ []) ≡ pos 10 ∷ []
unfolding consumed_steps attempt_step verify_token_with_step judge_delta is_replay le_int shift
    current_step get_authenticator_step get_authenticator_check_delta assert_secret_meets_floor
    otp_request base32_byte_length significant_length strip_spaces is_space
consumes_once = refl

found :
    get_authenticator_check_delta library default_config "JBSWY3DPEHPK3PXPJBSWY3DPEHPK3PXP"
      (strip_spaces "123 456")
      none
    ≡ ok (some (pos 0))
unfolding get_authenticator_check_delta assert_secret_meets_floor otp_request base32_byte_length
    significant_length strip_spaces is_space
found = refl

old_step : le_int (shift (current_step library default_config 300000) (pos 0)) (pos 10) ≡ true
unfolding le_int shift current_step get_authenticator_step
old_step = refl

short : suc (base32_byte_length "JBSWY3DP====") ≤ min_secret_bytes
unfolding base32_byte_length significant_length strip_spaces is_space
short = omega arith
