-- ===== src/Prelude/Int.antt =====
-- The C type `int`: signed integers, and the reading of a 32-bit word as one.
use librestserver.Prelude.Tests.{ltb, leb, ◌==◌, if◌then◌else◌}
use Prim.Native.Nat.{ℕ, suc, ◌+◌, ◌-◌, ◌%◌, ◌^◌}
use mathlib.Core.Path.{◌≡◌}
use mathlib.Core.Logic.{◌↔◌}
use mathlib.Core.Bool.{Bool, true, false}
use native.Mathlib.Omega.{arith}

-- `negsuc n` is -(n + 1).
pub data ℤ : Type 0 where
  pos : ℕ → ℤ
  negsuc : ℕ → ℤ

-- a - b, as an integer.
abbrev pub sub_ℕ : ℕ → ℕ → ℤ
sub_ℕ a b = if leb b a then pos (a - b) else negsuc (b - a - 1)

abbrev pub is_zero : ℤ → Bool
is_zero (pos n) = n == 0
is_zero (negsuc n) = false

abbrev pub is_positive : ℤ → Bool
is_positive (pos n) = ltb 0 n
is_positive (negsuc n) = false

abbrev pub ltb_ℤ : ℤ → ℤ → Bool
ltb_ℤ (pos a) (pos b) = ltb a b
ltb_ℤ (pos a) (negsuc b) = false
ltb_ℤ (negsuc a) (pos b) = true
ltb_ℤ (negsuc a) (negsuc b) = ltb b a

-- `(int)w` keeps the low 32 bits of `w`, in two's complement.
abbrev pub to_int : ℕ → ℤ
to_int w = let low = w % 2 ^ 32 in if ltb low (2 ^ 31) then pos low else negsuc (2 ^ 32 - low - 1)

-- The conversion of an `int` to an unsigned type of `bits` bits.
abbrev pub to_unsigned : ℕ → ℤ → ℕ
to_unsigned bits (pos n) = n % 2 ^ bits
to_unsigned bits (negsuc n) = (2 ^ bits - suc n % 2 ^ bits) % 2 ^ bits

pub is_zero-sub_ℕ : (a b : ℕ) → (is_zero (sub_ℕ a b) ≡ true) ↔ (a ≡ b)
is_zero-sub_ℕ a b = ground arith

abbrev pub add_ℕ : ℤ → ℕ → ℤ
add_ℕ (pos a) n = pos (a + n)
add_ℕ (negsuc a) n = sub_ℕ n (suc a)

abbrev pub take_ℕ : ℤ → ℕ → ℤ
take_ℕ (pos a) n = sub_ℕ a n
take_ℕ (negsuc a) n = negsuc (a + n)
