-- ===== src/Base/Int.antt =====
-- The integers over the native numbers, as far as time steps need them.
use tinyland_auth.Base.Tests.{ltb, leb, if◌then◌else◌}
use Prim.Native.Nat.{ℕ, suc, ◌+◌, ◌-◌}
use mathlib.Core.Bool.{Bool, true, false}
use mathlib.Core.Path.{◌≡◌}
use native.Mathlib.Omega.{arith}

-- `negsuc n` is -(n + 1).
pub data ℤ : Type 0 where
  pos : ℕ → ℤ
  negsuc : ℕ → ℤ

-- A natural number plus an integer.
unfoldable pub shift : ℕ → ℤ → ℤ
shift n (pos k) = pos (n + k)
shift n (negsuc k) = if ltb k n then pos (n - suc k) else negsuc (k - n)

unfoldable pub le_int : ℤ → ℤ → Bool
le_int (pos a) (pos b) = leb a b
le_int (pos a) (negsuc b) = false
le_int (negsuc a) (pos b) = true
le_int (negsuc a) (negsuc b) = leb b a

-- `a < b`
abbrev pub lt_int : ℤ → ℤ → Bool
lt_int a b = if le_int b a then false else true

pub le_int_trans : (a b c : ℤ) → le_int a b ≡ true → le_int b c ≡ true → le_int a c ≡ true
unfolding le_int
le_int_trans a b c h k = ground arith

pub lt_int_irrefl : (a : ℤ) → lt_int a a ≡ false
unfolding le_int
lt_int_irrefl a = ground arith

pub lt_int_trans : (a b c : ℤ) → lt_int a b ≡ true → lt_int b c ≡ true → lt_int a c ≡ true
unfolding le_int
lt_int_trans a b c h k = ground arith
