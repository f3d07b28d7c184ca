-- ===== src/Journal.antt =====
-- What the operations on a journal give: a value or a coded error, as in
-- src/storage/file-totp-retirement.ts and src/storage/file-bootstrap.ts.
use tinyland_auth.Base.{String, Result, ok, err, ◌≡◌, refl, arith, inl, inr, ◌⊎◌}

-- The codes of `TotpRetirementError` and `BootstrapJournalError`; `thrown` is any other exception,
-- of a caller's function or of the storage.
pub data Code : Type 0 where
  invalid : Code
  unauthorized : Code
  expired : Code
  conflict : Code
  recovery_required : Code
  thrown : Code

pub data Outcome (A : Type 0) : Type 0 where
  failed : Code → String → Outcome A
  done : A → Outcome A

infixl 5 ◌then◌ ◌and_then◌
-- A check and the rest of a method.
abbrev pub ◌then◌ : {A : Type 0} → Outcome (Unit {0}) → Outcome A → Outcome A
failed code message then rest = failed code message
done _ then rest = rest

-- A value and the rest of a method.
abbrev pub ◌and_then◌ : {A B : Type 0} → Outcome A → (A → Outcome B) → Outcome B
failed code message and_then rest = failed code message
done value and_then rest = rest value

-- A call that throws a plain error.
abbrev pub rethrown : {A : Type 0} → Result A → Outcome A
rethrown (err message) = failed thrown message
rethrown (ok value) = done value

-- A step that may change the state, also when it fails, and the steps after it.
abbrev pub continued : {A B S : Type 0} → Outcome A × S → (A → S → Outcome B × S) → Outcome B × S
continued (failed code message, s) rest = (failed code message, s)
continued (done value, s) rest = rest value s

-- A check of the state before the steps after it.
abbrev pub checked : {A B S : Type 0} → Outcome A → S → (A → Outcome B × S) → Outcome B × S
checked (failed code message) s rest = (failed code message, s)
checked (done value) s rest = rest value

-- A method that is done has passed its check, and its rest is done.
pub then_inv :
    {A : Type 0} (c : Outcome (Unit {0})) (m : Outcome A) (a : A)
    → (c then m) ≡ done a
    → (c ≡ done tt) × (m ≡ done a)
then_inv (failed code message) m a h = ground arith
then_inv (done _) m a h = (refl, h)

pub Outcome-cases :
    {A : Type 0} (o : Outcome A)
    → ((code : Code) × (message : String) × (o ≡ failed code message)) ⊎ ((a : A) × (o ≡ done a))
Outcome-cases (failed code message) = inl (code, message, refl)
Outcome-cases (done a) = inr (a, refl)
