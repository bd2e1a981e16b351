-- ===== src/Base/Int.antt =====
-- Signed integers over the native numbers, under the library's names. Sums and orders go through the
-- two parts of an integer, which are numbers.
use Prim.Native.Nat.{ℕ, suc, ◌+◌, ◌-◌, ◌*◌, ◌≤◌, ◌/◌, ◌%◌, ◌^◌}
use mathlib.Core.Path.{◌≡◌}
use mathlib.Core.Bool.{Bool}
use native.Mathlib.Omega.{arith}
use hyper_l.Base.Tests.{ltb, leb, if◌then◌else◌}

-- `negsuc n` is -(n + 1).
pub data ℤ : Type 0 where
  pos : ℕ → ℤ
  negsuc : ℕ → ℤ

abbrev pub pos_part : ℤ → ℕ
pos_part (pos n) = n
pos_part (negsuc n) = 0

abbrev pub neg_part : ℤ → ℕ
neg_part (pos n) = 0
neg_part (negsuc n) = suc n

-- a - b, as an integer.
abbrev pub sub_ℕ : ℕ → ℕ → ℤ
sub_ℕ a b = if leb b a then pos (a - b) else negsuc (b - a - 1)

infixl 65 ◌+ℤ◌ ◌-ℤ◌
infix 50 ◌≤ℤ◌
unfoldable pub ◌+ℤ◌ : ℤ → ℤ → ℤ
a +ℤ b = sub_ℕ (pos_part a + pos_part b) (neg_part a + neg_part b)

unfoldable pub ◌-ℤ◌ : ℤ → ℤ → ℤ
a -ℤ b = sub_ℕ (pos_part a + neg_part b) (neg_part a + pos_part b)

abbrev pub ◌≤ℤ◌ : ℤ → ℤ → Type 0
a ≤ℤ b = pos_part a + neg_part b ≤ pos_part b + neg_part a

abbrev pub ltb_ℤ : ℤ → ℤ → Bool
ltb_ℤ a b = ltb (pos_part a + neg_part b) (pos_part b + neg_part a)

abbrev pub leb_ℤ : ℤ → ℤ → Bool
leb_ℤ a b = leb (pos_part a + neg_part b) (pos_part b + neg_part a)

-- Go's division by a positive constant truncates towards zero.
abbrev pub quot_ℤ : ℤ → ℕ → ℤ
quot_ℤ (pos n) k = pos (n / k)
quot_ℤ (negsuc n) k = sub_ℕ 0 (suc n / k)

-- Conversion of an int64 to uint64 keeps the bit pattern.
abbrev pub uint64_of : ℤ → ℕ
uint64_of (pos n) = n % 2 ^ 64
uint64_of (negsuc n) = (2 ^ 64 - suc n % 2 ^ 64) % 2 ^ 64

-- Conversion of a uint64 to int64: the number that the bit pattern stands for.
abbrev pub signed64 : ℕ → ℤ
signed64 w = if ltb w (2 ^ 63) then pos w else negsuc (2 ^ 64 - w - 1)

-- int64 sums, differences and products, which wrap around.
abbrev pub plus64 : ℤ → ℤ → ℤ
plus64 a b = signed64 ((uint64_of a + uint64_of b) % 2 ^ 64)

abbrev pub minus64 : ℤ → ℤ → ℤ
minus64 a b = signed64 ((uint64_of a + (2 ^ 64 - uint64_of b)) % 2 ^ 64)

abbrev pub times64 : ℤ → ℤ → ℤ
times64 a b = signed64 (
    uint64_of (
      sub_ℕ (pos_part a * pos_part b + neg_part a * neg_part b)
        (pos_part a * neg_part b + neg_part a * pos_part b)))

pub +ℤ_parts :
    (a b : ℤ)
    → pos_part (a +ℤ b) + neg_part a + neg_part b ≡ neg_part (a +ℤ b) + pos_part a + pos_part b
unfolding ◌+ℤ◌
+ℤ_parts a b = ground arith

pub -ℤ_parts :
    (a b : ℤ)
    → pos_part (a -ℤ b) + neg_part a + pos_part b ≡ neg_part (a -ℤ b) + pos_part a + neg_part b
unfolding ◌-ℤ◌
-ℤ_parts a b = ground arith

pub eq_of_parts : (a b : ℤ) → pos_part a + neg_part b ≡ pos_part b + neg_part a → a ≡ b
eq_of_parts a b h = ground arith

pub ruleset int_laws = (arith, +ℤ_parts, -ℤ_parts, eq_of_parts)
