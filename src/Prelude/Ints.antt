-- ===== src/Prelude/Ints.antt =====
-- Integers over the native numbers, and the 32-bit ones of the program.
use Prim.Native.Nat.{ℕ, suc, ◌+◌, ◌-◌, ◌^◌, min, max}
use mathlib.Core.Bool.{Bool}
use netmux.Prelude.Tests.{ltb, leb, if◌then◌else◌}
use netmux.Prelude.Panics.{Run, done, panic}

-- `negsuc n` is -(n + 1).
pub data ℤ : Type 0 where
  pos : ℕ → ℤ
  negsuc : ℕ → ℤ

-- The difference of two naturals.
abbrev pub sub : ℕ → ℕ → ℤ
sub a b = if leb b a then pos (a - b) else negsuc (b - a - 1)

infixl 6 ◌+ℤ◌
abbrev pub ◌+ℤ◌ : ℤ → ℤ → ℤ
pos a +ℤ pos b = pos (a + b)
pos a +ℤ negsuc b = sub a (suc b)
negsuc a +ℤ pos b = sub b (suc a)
negsuc a +ℤ negsuc b = negsuc (suc (a + b))

-- `u as i32` of a `u32`
abbrev pub i32 : ℕ → ℤ
i32 u = if ltb u (2 ^ 31) then pos u else negsuc (2 ^ 32 - u - 1)

abbrev pub fits_i32 : ℤ → Bool
fits_i32 (pos n) = ltb n (2 ^ 31)
fits_i32 (negsuc n) = ltb n (2 ^ 31)

-- `a + b` of two `i32`, which panics when it overflows, as a build with overflow checks does.
unfoldable pub add_i32 : ℤ → ℤ → Run ℤ
add_i32 a b = let c = a +ℤ b in if fits_i32 c then done c else panic

-- `x.clamp(lo, hi) as u32` with natural bounds.
abbrev pub clamp : ℤ → ℕ → ℕ → ℕ
clamp (pos n) lo hi = min hi (max lo n)
clamp (negsuc n) lo hi = lo
