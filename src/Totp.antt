-- ===== src/Totp.antt =====
-- The TOTP service: src/core/totp/index.ts.
use Prim.Native.Char.{Char, code}
use Prim.Native.String
use tinyland_auth.Base.{
  ℕ, ◌/◌, Bool, true, false, ◌&&◌, ◌||◌, String, List, [], ◌∷◌, Option, none, some, Result, ok, err,
  ◌>>=◌, if◌then◌else◌, leb, nat_eq, any,
}
use tinyland_auth.Base.Int.{ℤ, shift, le_int}
use tinyland_auth.Authenticator.{
  AuthenticatorConfig, OtpLibrary, strip_spaces, verify_authenticator_token,
  get_authenticator_check_delta, get_authenticator_step,
}
use tinyland_auth.Types.{Timestamp}
pub mod Replay

-- `TOTPSecret`
pub record TotpSecret : Type 0 where
  pub handle : String
  pub email : Option String
  pub secret : String
  pub qr_code_url : Option String
  pub created_at : Timestamp
  pub last_used : Option Timestamp

abbrev pub dummy_secret : String
dummy_secret = "JBSWY3DPEHPK3PXPJBSWY3DPEHPK3PXP"

-- The answer of `verifyTokenWithStep`
pub record StepVerification : Type 0 where
  pub valid : Bool
  pub step : Option ℤ

abbrev pub refused : StepVerification
refused = record { valid = false; step = none }

module _ (otp : OtpLibrary) (config : AuthenticatorConfig) where
  -- `currentStepFor`, at the time in milliseconds
  unfoldable pub current_step : ℕ → ℕ
  current_step now = now / 1000 / get_authenticator_step otp config

  -- `step <= lastUsedStep`, where there is a last step
  unfoldable pub is_replay : ℤ → Option ℤ → Bool
  is_replay step none = false
  is_replay step (some last) = le_int step last

  -- What `verifyTokenWithStep` makes of the delta that the library finds.
  unfoldable pub judge_delta : ℕ → Option ℤ → Option ℤ → StepVerification
  judge_delta now last_used_step none = refused
  judge_delta now last_used_step (some delta) =
      let step = shift (current_step now) delta in
      if is_replay step last_used_step then refused else record { valid = true; step = some step }

  -- `verifyTokenWithStep`, at the time in milliseconds; the epoch is that of a test clock, if any.
  unfoldable pub verify_token_with_step :
      ℕ → Option ℕ → Option TotpSecret → String → Option ℤ → Result StepVerification
  verify_token_with_step now epoch none token last_used_step =
      get_authenticator_check_delta otp config dummy_secret (strip_spaces token) epoch >>= λ _.
      ok refused
  verify_token_with_step now epoch (some secret) token last_used_step =
      get_authenticator_check_delta otp config secret.secret (strip_spaces token) epoch >>= λ delta.
      ok (judge_delta now last_used_step delta)

  -- `verifyToken`
  unfoldable pub verify_token : Option ℕ → Option TotpSecret → String → Result Bool
  verify_token epoch none token =
      verify_authenticator_token otp config dummy_secret (strip_spaces token) epoch >>= λ _.
      ok false
  verify_token epoch (some secret) token =
      verify_authenticator_token otp config secret.secret (strip_spaces token) epoch
