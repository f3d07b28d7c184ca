-- ===== src/Base/Results.antt =====
-- A call that may throw: `throw new Error(message)` is `err message`.
use Prim.Native.String.{String}
use mathlib.Core.Bool.{Bool, true, false, not}
use mathlib.Core.Path.{◌≡◌, refl}
use mathlib.Core.Logic.{◌⊎◌, inl, inr}
use native.Mathlib.Omega.{arith}

pub data Result {ℓ} (A : Type ℓ) : Type ℓ where
  err : String → Result A
  ok : A → Result A

-- `if (test) throw new Error(message)`
abbrev pub throw_if : Bool → String → Result (Unit {0})
throw_if true message = err message
throw_if false message = ok tt

infixl 5 ◌>>◌ ◌>>=◌
-- A statement and the rest of the method.
abbrev pub ◌>>◌ {ℓ} : {A : Type ℓ} → Result (Unit {0}) → Result A → Result A
err message >> rest = err message
ok _ >> rest = rest

-- A call whose value the rest of the method uses.
abbrev pub ◌>>=◌ {ℓ κ} : {A : Type ℓ} {B : Type κ} → Result A → (A → Result B) → Result B
err message >>= rest = err message
ok value >>= rest = rest value

pub Result-cases :
    {A : Type 0} (m : Result A) → ((e : String) × (m ≡ err e)) ⊎ ((a : A) × (m ≡ ok a))
Result-cases (err e) = inl (e, refl)
Result-cases (ok a) = inr (a, refl)

pub bind_inv :
    {A B : Type 0} (m : Result A) (f : A → Result B) (b : B)
    → (m >>= f) ≡ ok b
    → (a : A) × (m ≡ ok a) × (f a ≡ ok b)
bind_inv (ok a) f b h = (a, refl, h)
bind_inv (err e) f b h = ground arith

pub check_inv :
    {A : Type 0} (c : Result (Unit {0})) (m : Result A) (a : A)
    → (c >> m) ≡ ok a
    → (c ≡ ok tt) × (m ≡ ok a)
check_inv (ok _) m a h = (refl, h)
check_inv (err e) m a h = ground arith

pub throw_if-not : (b : Bool) (m : String) → throw_if (not b) m ≡ ok tt → b ≡ true
throw_if-not true m h = refl
throw_if-not false m h = ground arith

pub throw_if_inv : (b : Bool) (m : String) → throw_if b m ≡ ok tt → b ≡ false
throw_if_inv false m h = refl
throw_if_inv true m h = ground arith
