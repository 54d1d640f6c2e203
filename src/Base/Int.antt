-- ===== src/Base/Int.antt =====
-- Signed integers over the native numbers, and the 32-bit words that stand for them.
use Prim.Native.Nat.{ℕ, suc, ◌-◌, ◌^◌, ◌<◌}
use mathlib.Core.Path.{◌≡◌}
use native.Mathlib.Omega.{arith}
use bpf_program.Base.Tests.{ltb, if◌then◌else◌}

-- `negsuc n` is -(n + 1).
pub data ℤ : Type 0 where
  pos : ℕ → ℤ
  negsuc : ℕ → ℤ

-- `static_cast<i32>` of a 32-bit word.
abbrev pub to_i32 : ℕ → ℤ
to_i32 w = if ltb w (2 ^ 31) then pos w else negsuc (2 ^ 32 - w - 1)

-- The word that stands for an integer.
abbrev pub of_i32 : ℤ → ℕ
of_i32 (pos n) = n
of_i32 (negsuc n) = 2 ^ 32 - suc n

abbrev pub IsI32 : ℤ → Type 0
IsI32 (pos n) = n < 2 ^ 31
IsI32 (negsuc n) = n < 2 ^ 31

pub to_i32-of_i32 : (z : ℤ) → IsI32 z → to_i32 (of_i32 z) ≡ z
to_i32-of_i32 (pos n) h = ground arith
to_i32-of_i32 (negsuc n) h = ground arith

pub to_i32-IsI32 : (w : ℕ) → w < 2 ^ 32 → IsI32 (to_i32 w)
to_i32-IsI32 w h = ground arith

pub of_i32-lt : (z : ℤ) → IsI32 z → of_i32 z < 2 ^ 32
of_i32-lt (pos n) h = omega arith
of_i32-lt (negsuc n) h = omega arith
