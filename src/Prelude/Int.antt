-- ===== src/Prelude/Int.antt =====
-- Go's int and int64: integers over the native numbers, and the wrap-around to 64 bits.
use Prim.Native.Nat.{ℕ, zero, suc, ◌+◌, ◌-◌, ◌*◌, ◌%◌, ◌<◌}
use mathlib.Core.Path.{◌≡◌}
use mathlib.Core.Logic.{◌↔◌}
use mathlib.Core.Bool.{Bool, true, false}
use native.Mathlib.Omega.{arith}
use event_streaming_and_audi.Prelude.Tests.{ltb, leb, nat_beq, if◌then◌else◌}

-- `negsuc n` is -(n + 1).
pub data ℤ : Type 0 where
  pos : ℕ → ℤ
  negsuc : ℕ → ℤ

-- Less-or-equal and less-than as Boolean tests.
abbrev pub leb_ℤ : ℤ → ℤ → Bool
leb_ℤ (pos a) (pos b) = leb a b
leb_ℤ (pos a) (negsuc b) = false
leb_ℤ (negsuc a) (pos b) = true
leb_ℤ (negsuc a) (negsuc b) = leb b a

abbrev pub ltb_ℤ : ℤ → ℤ → Bool
ltb_ℤ (pos a) (pos b) = ltb a b
ltb_ℤ (pos a) (negsuc b) = false
ltb_ℤ (negsuc a) (pos b) = true
ltb_ℤ (negsuc a) (negsuc b) = ltb b a

abbrev pub int_beq : ℤ → ℤ → Bool
int_beq (pos a) (pos b) = nat_beq a b
int_beq (pos a) (negsuc b) = false
int_beq (negsuc a) (pos b) = false
int_beq (negsuc a) (negsuc b) = nat_beq a b

pub int_beq_iff : (a b : ℤ) → (int_beq a b ≡ true) ↔ (a ≡ b)
int_beq_iff a b = ground arith

-- The bounds of int64; `two63` is 2^63.
abbrev pub two63 : ℕ
two63 = 9223372036854775808

abbrev pub two64 : ℕ
two64 = 18446744073709551616

-- The int64 with the bit pattern `n % 2^64`.
abbrev pub of_bits : ℕ → ℤ
of_bits n = if ltb n two63 then pos n else negsuc (two64 - n - 1)

-- int64(x): the integer reduced modulo 2^64 into -2^63 .. 2^63 - 1.
unfoldable pub wrap64 : ℤ → ℤ
wrap64 (pos n) = of_bits (n % two64)
wrap64 (negsuc n) = of_bits (two64 - 1 - n % two64)

-- x + 1 on integers, and on int64, where the largest value wraps to the least.
abbrev pub succ_ℤ : ℤ → ℤ
succ_ℤ (pos n) = pos (n + 1)
succ_ℤ (negsuc zero) = pos 0
succ_ℤ (negsuc (suc n)) = negsuc n

unfoldable pub int64_succ : ℤ → ℤ
unfolding wrap64
int64_succ x = wrap64 (succ_ℤ x)

-- x * k on integers, for a constant k.
abbrev pub scale : ℤ → ℕ → ℤ
scale (pos n) k = pos (n * k)
scale (negsuc n) k = if nat_beq k 0 then pos 0 else negsuc ((n + 1) * k - 1)

unfoldable pub int64_scale : ℤ → ℕ → ℤ
unfolding wrap64
int64_scale x k = wrap64 (scale x k)

abbrev pub IsInt64 : ℤ → Type 0
IsInt64 (pos n) = n < two63
IsInt64 (negsuc n) = n < two63

pub wrap64-IsInt64 : (x : ℤ) → IsInt64 (wrap64 x)
unfolding wrap64
wrap64-IsInt64 (pos n) = ground arith
wrap64-IsInt64 (negsuc n) = ground arith

pub wrap64_of_IsInt64 : (x : ℤ) → IsInt64 x → wrap64 x ≡ x
unfolding wrap64
wrap64_of_IsInt64 (pos n) h = ground arith
wrap64_of_IsInt64 (negsuc n) h = ground arith

pub int64_succ-pos : (n : ℕ) → n + 1 < two63 → int64_succ (pos n) ≡ pos (n + 1)
unfolding int64_succ
int64_succ-pos n h = ground arith

-- a - b, as an integer.
abbrev sub_ℕ : ℕ → ℕ → ℤ
sub_ℕ a b = if leb b a then pos (a - b) else negsuc (b - a - 1)

infixl 65 ◌+ℤ◌
abbrev pub ◌+ℤ◌ : ℤ → ℤ → ℤ
pos a +ℤ pos b = pos (a + b)
pos a +ℤ negsuc b = sub_ℕ a (b + 1)
negsuc a +ℤ pos b = sub_ℕ b (a + 1)
negsuc a +ℤ negsuc b = negsuc (a + b + 1)
