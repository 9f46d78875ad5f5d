-- ===== src/Base/Word.antt =====
-- The conversions between C's `long`, `int` and pointers.
use Prim.Native.Nat.{ℕ, ◌-◌, ◌%◌, ◌^◌}
use mathlib.Core.Path.{◌≡◌}
use native.Mathlib.Omega.{arith}
use so_oscilloscopio.Base.Tests.{ltb, if◌then◌else◌}
use so_oscilloscopio.Base.Int.{ℤ, pos, negsuc, ◌≤ℤ◌}

-- `(int) x`: the low 32 bits, read as two's complement.
unfoldable pub to_int : ℤ → ℤ
to_int (pos n) = let m = n % 2 ^ 32 in if ltb m (2 ^ 31) then pos m else negsuc (2 ^ 32 - 1 - m)
to_int (negsuc n) = let m = n % 2 ^ 32 in if ltb m (2 ^ 31) then negsuc m else pos (2 ^ 32 - 1 - m)

-- `(T*) x` of a 64-bit `long`.
unfoldable pub to_ptr : ℤ → ℕ
to_ptr (pos n) = n % 2 ^ 64
to_ptr (negsuc n) = 2 ^ 64 - 1 - n % 2 ^ 64

-- An `int` lies between -2^31 and 2^31 - 1.
abbrev pub IsInt : ℤ → Type 0
IsInt x = (negsuc (2 ^ 31 - 1) ≤ℤ x) × (x ≤ℤ pos (2 ^ 31 - 1))

pub to_int-IsInt : (x : ℤ) → IsInt (to_int x)
unfolding to_int
to_int-IsInt (pos n) = ground arith
to_int-IsInt (negsuc n) = ground arith

pub to_int-of_IsInt : (x : ℤ) → IsInt x → to_int x ≡ x
unfolding to_int
to_int-of_IsInt (pos n) h = ground arith
to_int-of_IsInt (negsuc n) h = ground arith
