-- ===== src/Totp/Replay.antt =====
-- A consumed time step is never accepted again: src/core/totp/index.ts.
use tinyland_auth.Base.{ℕ, true, String, List, [], ◌∷◌, ◌≡◌, Option, none, some, Result, ok, err}
use tinyland_auth.Base.Int.{ℤ, lt_int}
use tinyland_auth.Authenticator.{AuthenticatorConfig, OtpLibrary}
use tinyland_auth.Totp.{TotpSecret, StepVerification, verify_token_with_step}

-- One call of `verifyTokenWithStep`, without the last step.
pub record Attempt : Type 0 where
  pub now : ℕ
  pub epoch : Option ℕ
  pub secret : Option TotpSecret
  pub token : String

-- A step comes after the last one, if there is one.
abbrev pub After : Option ℤ → ℤ → Type 0
After none step = Unit
After (some last) step = lt_int last step ≡ true

abbrev pub AllAfter : Option ℤ → List ℤ → Type 0
AllAfter last [] = Unit
AllAfter last (s ∷ ss) = After last s × AllAfter last ss

-- Each step is later than all before it.
abbrev pub IsIncreasing : List ℤ → Type 0
IsIncreasing [] = Unit
IsIncreasing (s ∷ ss) = AllAfter (some s) ss × IsIncreasing ss

-- `step` of an answer that did not throw.
abbrev pub step_of : Result StepVerification → Option ℤ
step_of (err e) = none
step_of (ok r) = r.step

module _ (otp : OtpLibrary) (config : AuthenticatorConfig) where
  -- The step that an attempt consumes: none when the call throws or refuses.
  unfoldable pub attempt_step : Option ℤ → Attempt → Option ℤ
  attempt_step last a =
      step_of (verify_token_with_step otp config a.now a.epoch a.secret a.token last)

  -- The steps that a sequence of attempts consumes when the caller keeps the step of each attempt
  -- that succeeds and passes it on to the next.
  unfoldable pub consumed_steps : Option ℤ → List Attempt → List ℤ
  consumed_steps last [] = []
  consumed_steps last (a ∷ rest) = elim (attempt_step last a) [
    | none ↦ consumed_steps last rest
    | some step ↦ step ∷ consumed_steps (some step) rest
  ]
