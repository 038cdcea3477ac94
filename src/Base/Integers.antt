-- ===== src/Base/Integers.antt =====
-- The integers over the native numbers, and how strconv.Itoa prints one.
use Prim.Native.Nat.{ℕ, suc}
use mathlib.Core.Bool.{Bool, false}
use mathlib.Core.List.{◌∷◌}
use buildfab.Base.Tests.{◌==◌}
use buildfab.Base.Text.{Str}
use buildfab.Base.Strings.{itoa}

pub data ℤ : Type 0 where
  pos : ℕ → ℤ
  negsuc : ℕ → ℤ

unfoldable pub is_zero : ℤ → Bool
is_zero (pos n) = n == 0
is_zero (negsuc n) = false

unfoldable pub itoa_int : ℤ → Str
itoa_int (pos n) = itoa n
itoa_int (negsuc n) = b'-' ∷ itoa (suc n)
