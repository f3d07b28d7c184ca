-- ===== src/Authenticator.antt =====
-- The TOTP primitives over the RFC 6238 library: src/totp/otplib-compat.ts.
use Prim.Native.Char.{Char, code}
use tinyland_auth.Base.{
  ℕ, suc, ◌*◌, ◌/◌, ◌≤◌, ◌≡◌, Bool, true, false, ◌&&◌, ◌||◌, String, List, [], ◌∷◌, Option, none,
  some, Result, ok, ◌>>=◌, ◌>>◌, throw_if, if◌then◌else◌, leb, ltb, nat_eq, any, arith,
}
use tinyland_auth.Base.Int.{ℤ}

-- `MIN_SECRET_BYTES`
abbrev pub min_secret_bytes : ℕ
min_secret_bytes = 16

-- `AuthenticatorConfig`
pub record AuthenticatorConfig : Type 0 where
  pub step : ℕ
  pub window : ℕ
  pub digits : ℕ

-- The initial module configuration
abbrev pub default_config : AuthenticatorConfig
default_config = record { step = 30; window = 1; digits = 6 }

abbrev or_number : Option ℕ → ℕ → ℕ
or_number none old = old
or_number (some new) old = new

-- `configureAuthenticator`
unfoldable pub configure_authenticator :
    Option ℕ → Option ℕ → Option ℕ → AuthenticatorConfig → AuthenticatorConfig
configure_authenticator step window digits config = record {
  step = or_number step config.step;
  window = or_number window config.window;
  digits = or_number digits config.digits;
}

-- `\s` of a regular expression: the code units outside of two ranges.
abbrev pub space_codes : List ℕ
space_codes = 32 ∷ 160 ∷ 5760 ∷ 8232 ∷ 8233 ∷ 8239 ∷ 8287 ∷ 12288 ∷ 65279 ∷ []

unfoldable pub is_space : Char → Bool
is_space c =
    (leb 9 (code c) && leb (code c) 13)
    || (leb 8192 (code c) && leb (code c) 8202)
    || any (λ n. nat_eq (code c) n) space_codes

-- `text.replace(/\s/g, "")`
unfoldable pub strip_spaces : String → String
strip_spaces String.[] = String.[]
strip_spaces (String.◌∷◌ c s) =
    let rest = strip_spaces s in if is_space c then rest else String.◌∷◌ c rest

-- The loop of `base32ByteLength`: how long the text is without the `=` at its end.
unfoldable pub significant_length : String → ℕ
significant_length String.[] = 0
significant_length (String.◌∷◌ c s) =
    let rest = significant_length s in if nat_eq rest 0 && nat_eq (code c) 61 then 0 else suc rest

-- `base32ByteLength`
unfoldable pub base32_byte_length : String → ℕ
base32_byte_length secret = significant_length (strip_spaces secret) * 5 / 8

-- `assertSecretMeetsFloor`
unfoldable pub assert_secret_meets_floor : String → Result (Unit {0})
assert_secret_meets_floor secret =
    throw_if (ltb (base32_byte_length secret) min_secret_bytes)
      "TOTP secret is below the 16-byte (128-bit) security floor and can no longer be used; re-enroll this credential with a freshly generated secret."

-- What is passed to the library; `epoch` is `none` where the system's clock is to be read.
pub record OtpRequest : Type 0 where
  pub secret : String
  pub token : String
  pub digits : ℕ
  pub period : ℕ
  pub epoch_tolerance : ℕ
  pub epoch : Option ℕ

-- What the library answers: a token that matches does so some steps away from the current one.
pub data OtpAnswer : Type 0 where
  valid : ℤ → OtpAnswer
  invalid : OtpAnswer

-- The library's `verify` and `verifySync` at a moment; they may throw.
pub record OtpLibrary : Type 0 where
  pub verify : OtpRequest → Result OtpAnswer
  pub verify_sync : OtpRequest → Result OtpAnswer

-- `result.valid`
abbrev pub is_valid_answer : OtpAnswer → Bool
is_valid_answer (valid delta) = true
is_valid_answer invalid = false

-- `result.valid ? result.delta : null`
abbrev pub answer_delta : OtpAnswer → Option ℤ
answer_delta (valid delta) = some delta
answer_delta invalid = none

module _ (otp : OtpLibrary) (config : AuthenticatorConfig) where
  -- The options that both verifications pass on.
  unfoldable pub otp_request : String → String → Option ℕ → OtpRequest
  otp_request secret token epoch_seconds = record {
    secret = secret;
    token = token;
    digits = config.digits;
    period = config.step;
    epoch_tolerance = config.window * config.step;
    epoch = epoch_seconds;
  }

  -- `verifyAuthenticatorToken`
  unfoldable pub verify_authenticator_token : String → String → Option ℕ → Result Bool
  verify_authenticator_token secret token epoch_seconds =
      assert_secret_meets_floor secret
      >> (otp.verify (otp_request secret token epoch_seconds) >>= λ a. ok (is_valid_answer a))

  -- `getAuthenticatorCheckDelta`
  unfoldable pub get_authenticator_check_delta : String → String → Option ℕ → Result (Option ℤ)
  get_authenticator_check_delta secret token epoch_seconds =
      assert_secret_meets_floor secret
      >> (otp.verify_sync (otp_request secret token epoch_seconds) >>= λ a. ok (answer_delta a))

  -- `getAuthenticatorStep`
  unfoldable pub get_authenticator_step : ℕ
  get_authenticator_step = config.step

-- A secret below the floor of 16 bytes is refused by both verifications, whatever the library says.
pub short_secret_refused :
    (otp : OtpLibrary) (config : AuthenticatorConfig) (secret token : String)
    (epoch_seconds : Option ℕ)
    → suc (base32_byte_length secret) ≤ min_secret_bytes
    → ((b : Bool) → ¬ (verify_authenticator_token otp config secret token epoch_seconds ≡ ok b))
      × ((d : Option ℤ)
          → ¬ (get_authenticator_check_delta otp config secret token epoch_seconds ≡ ok d))
unfolding verify_authenticator_token get_authenticator_check_delta assert_secret_meets_floor
short_secret_refused otp config secret token epoch_seconds short =
    ((λ b h. ground arith), λ d h. ground arith)
