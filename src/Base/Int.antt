-- ===== src/Base/Int.antt =====
-- Go's `int`, as far as the source uses it: identifiers and counts that are compared and printed.
-- The values that occur are far from the bounds of 64 bits, so they are not wrapped.
use Prim.Native.Nat.{ℕ}
use mathlib.Core.Path.{◌≡◌}
use mathlib.Core.Logic.{◌↔◌}
use mathlib.Core.Bool.{Bool, true, false}
use native.Mathlib.Omega.{arith}
use qnapexporter.Base.Tests.{◌==◌, leb}

-- `negsuc n` is -(n + 1).
pub data ℤ : Type 0 where
  pos : ℕ → ℤ
  negsuc : ℕ → ℤ

abbrev pub minus_one : ℤ
minus_one = negsuc 0

abbrev pub int_eq : ℤ → ℤ → Bool
int_eq (pos a) (pos b) = a == b
int_eq (negsuc a) (negsuc b) = a == b
int_eq _ _ = false

abbrev pub int_leb : ℤ → ℤ → Bool
int_leb (pos a) (pos b) = leb a b
int_leb (pos a) (negsuc b) = false
int_leb (negsuc a) (pos b) = true
int_leb (negsuc a) (negsuc b) = leb b a

pub int_eq_iff : (a b : ℤ) → (int_eq a b ≡ true) ↔ (a ≡ b)
int_eq_iff (pos a) (pos b) = ground arith
int_eq_iff (pos a) (negsuc b) = ground arith
int_eq_iff (negsuc a) (pos b) = ground arith
int_eq_iff (negsuc a) (negsuc b) = ground arith
