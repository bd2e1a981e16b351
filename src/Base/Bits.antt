-- ===== src/Base/Bits.antt =====
-- `&` and `^` on unsigned integers: the law of the lowest digit, masks of low bits, and the usual test for a
-- power of two, `c & (c - 1) == 0`.
use Prim.Native.Nat.{
  ℕ, zero, suc, ◌+◌, ◌-◌, ◌*◌, ◌/◌, ◌%◌, ◌^◌, ◌≤◌, ◌<◌, min, bit_and, digits, bit_and-bitwise,
  bit_xor, bit_xor-bitwise, differ,
}
use mathlib.Core.Path.{◌≡◌, refl, sym, ap, ◌∙◌}
use mathlib.Core.Logic.{◌↔◌}
use native.Mathlib.Nat.{
  pow-suc, one-le-pow, mul-add-mod_self_right, mod-eq_of_lt, mod-lt, div-add-mod', mod_self,
}
use native.Mathlib.Decide.{ℕ_discrete}
use native.Mathlib.Omega.{arith}

-- The recursion that `bit_and` stands for, on fuel; enough fuel gives one result.
abbrev and_on : ℕ → ℕ → ℕ → ℕ
and_on fuel x y = digits (λ _. 0) min fuel x y

and_on-fuel : (f g x y : ℕ) → x ≤ f → x ≤ g → and_on f x y ≡ and_on g x y
and_on-fuel zero zero x y p q = refl
and_on-fuel zero (suc g) zero y p q = refl
and_on-fuel (suc f) zero zero y p q = refl
and_on-fuel (suc f) (suc g) zero y p q = refl
and_on-fuel zero g (suc x) y p q = absurd (omega arith)
and_on-fuel (suc f) zero (suc x) y p q = absurd (omega arith)
and_on-fuel (suc f) (suc g) (suc x) y p q =
    let half = suc x / 2 in omega (arith, and_on-fuel f g half (y / 2) (omega arith) (omega arith))

pub bit_and-digit : (x y : ℕ) → bit_and x y ≡ 2 * bit_and (x / 2) (y / 2) + min (x % 2) (y % 2)
bit_and-digit zero y = omega (arith, bit_and-bitwise 0 y, bit_and-bitwise 0 (y / 2))
bit_and-digit (suc x) y =
    let half = suc x / 2 in
    let rest = and_on-fuel x half half (y / 2) (omega arith) (omega arith) in
    omega (arith, rest, bit_and-bitwise half (y / 2), bit_and-bitwise (suc x) y)

zero_of_below : (f a : ℕ) → a ≤ f → bit_and a 0 ≡ 0
zero_of_below f zero h = refl
zero_of_below zero (suc a) h = absurd (omega arith)
zero_of_below (suc f) (suc a) h =
    omega (arith, bit_and-digit (suc a) 0, zero_of_below f (suc a / 2) (omega arith))

self_of_below : (f a : ℕ) → a ≤ f → bit_and a a ≡ a
self_of_below f zero h = refl
self_of_below zero (suc a) h = absurd (omega arith)
self_of_below (suc f) (suc a) h =
    omega (arith, bit_and-digit (suc a) (suc a), self_of_below f (suc a / 2) (omega arith))

mod-double : (a m : ℕ) → 0 < m → a % (m * 2) ≡ 2 * (a / 2 % m) + a % 2
mod-double a m h =
    ap (λ n. n % (m * 2)) split
    ∙ mul-add-mod_self_right (a / 2 / m) (m * 2) (2 * (a / 2 % m) + a % 2)
    ∙ mod-eq_of_lt (omega (arith, mod-lt (a / 2) h))
  where
    split : a ≡ a / 2 / m * (m * 2) + (2 * (a / 2 % m) + a % 2)
    split = omega (arith, div-add-mod' (a / 2) m)

-- A mask of `k` low bits is the remainder by `2 ^ k`.
pub bit_and_low_mask : (k a : ℕ) → bit_and a (2 ^ k - 1) ≡ a % 2 ^ k
bit_and_low_mask zero a = omega (arith, zero_of_below a a (omega arith))
bit_and_low_mask (suc k) a =
    rw (pow-suc 2 k, mod-double a (2 ^ k) (one-le-pow k 2 (omega arith)), bit_and-digit, halved)
      (omega (arith, bit_and_low_mask k (a / 2), one-le-pow k 2 (omega arith)))
  where
    halved : (2 ^ k * 2 - 1) / 2 ≡ 2 ^ k - 1
    halved = omega (arith, one-le-pow k 2 (omega arith))

-- A positive number that shares no bit with its predecessor is a power of two.
power_of_below : (f c : ℕ) → c ≤ f → 0 < c → bit_and c (c - 1) ≡ 0 → (k : ℕ) × (c ≡ 2 ^ k)
power_of_below zero c h p e = absurd (omega arith)
power_of_below (suc f) c h p e = elim (ℕ_discrete (c % 2) 0) [
  | yes even ↦
      let same : (c - 1) / 2 ≡ c / 2 - 1 = omega arith in
      let (k, q) =
        power_of_below f (c / 2) (omega arith) (omega arith)
          (ap (λ d. bit_and (c / 2) d) (sym same) ∙ omega (arith, e, bit_and-digit c (c - 1))) in
      (suc k, omega (arith, pow-suc 2 k, q))
  | no odd ↦
      let same : (c - 1) / 2 ≡ c / 2 = omega arith in
      (
        0,
        omega (
          arith,
          bit_and-digit c (c - 1),
          ap (λ d. bit_and (c / 2) d) same,
          self_of_below (c / 2) (c / 2) (omega arith),
        ),
      )
]

-- The test for a power of two is exact.
pub power_of_two_iff : (c : ℕ) → 0 < c → (bit_and c (c - 1) ≡ 0) ↔ ((k : ℕ) × (c ≡ 2 ^ k))
power_of_two_iff c p =
    (power_of_below c c (omega arith) p, λ (k, e). rw (e, bit_and_low_mask k (2 ^ k), mod_self))

differ-le : (x y : ℕ) → x ≤ 1 → y ≤ 1 → differ x y ≤ 1
differ-le zero y p q = q
differ-le (suc x) zero p q = p
differ-le (suc x) (suc y) p q = differ-le x y (omega arith) (omega arith)

xor_on-lt : (k fuel x y : ℕ) → x < 2 ^ k → y < 2 ^ k → digits (λ b. b) differ fuel x y < 2 ^ k
xor_on-lt k zero x y p q = q
xor_on-lt k (suc fuel) zero y p q = q
xor_on-lt zero (suc fuel) (suc x) y p q = absurd (omega (arith, p))
xor_on-lt (suc k) (suc fuel) (suc x) y p q = omega (
  arith,
  pow-suc 2 k,
  xor_on-lt k fuel (suc x / 2) (y / 2) (omega (arith, pow-suc 2 k)) (omega (arith, pow-suc 2 k)),
  differ-le (suc x % 2) (y % 2) (omega arith) (omega arith),
)

-- `^` of two numbers stays within their digits.
pub bit_xor-lt : (k x y : ℕ) → x < 2 ^ k → y < 2 ^ k → bit_xor x y < 2 ^ k
bit_xor-lt k x y p q = rw (bit_xor-bitwise x y) (xor_on-lt k x x y p q)
