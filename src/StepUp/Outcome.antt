-- ===== src/StepUp/Outcome.antt =====
-- What an operation of the step-up store gives: a value or an `ActionStepUpError`.
use tinyland_auth.Base.{Bool, true, false, String}

-- The codes of `ActionStepUpError`
pub data ErrorCode : Type 0 where
  invalid : ErrorCode
  expired : ErrorCode
  unauthorized : ErrorCode
  conflict : ErrorCode
  unavailable : ErrorCode

pub data Outcome (A : Type 0) : Type 0 where
  failed : ErrorCode → String → Outcome A
  done : A → Outcome A

-- `if (test) throw new ActionStepUpError(code, message)`
abbrev pub refuse_if : Bool → ErrorCode → String → Outcome Unit
refuse_if true code message = failed code message
refuse_if false code message = done tt

infixl 5 ◌then◌
-- A check and the rest of the method.
abbrev pub ◌then◌ : {A : Type 0} → Outcome Unit → Outcome A → Outcome A
failed code message then rest = failed code message
done _ then rest = rest
