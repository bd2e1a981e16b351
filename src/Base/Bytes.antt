-- ===== src/Base/Bytes.antt =====
-- Bytes, little-endian integers (encoding/binary), slices and hexadecimal text (encoding/hex). A Go
-- string that the program walks is the list of its bytes.
use Prim.Native.Nat.{ℕ, zero, suc, ◌+◌, ◌-◌, ◌*◌, ◌/◌, ◌%◌, ◌<◌}
use mathlib.Core.Path.{◌≡◌, refl, ap, ap₂}
use mathlib.Core.Logic.{◌↔◌}
use mathlib.Core.Bool.{Bool, true, false, ◌&&◌}
use mathlib.Core.Option.{Option, none, some}
use mathlib.Core.List.{List, [], ◌∷◌}
use native.Mathlib.Omega.{arith}
use hyper_l.Base.Tests.{ltb, leb, ◌==◌, if◌then◌else◌}
use hyper_l.Base.Lists.{length, take, drop, All}

abbrev pub Bytes : Type 0
Bytes = List ℕ

abbrev pub IsByte : ℕ → Type 0
IsByte b = b < 256

-- `bytes.Equal`, and `==` on arrays of bytes.
abbrev pub bytes_eq : Bytes → Bytes → Bool
bytes_eq [] [] = true
bytes_eq [] (y ∷ ys) = false
bytes_eq (x ∷ xs) [] = false
bytes_eq (x ∷ xs) (y ∷ ys) = x == y && bytes_eq xs ys

pub bytes_eq→eq : (xs ys : Bytes) → bytes_eq xs ys ≡ true → xs ≡ ys
bytes_eq→eq [] [] h = refl
bytes_eq→eq [] (y ∷ ys) h = cc
bytes_eq→eq (x ∷ xs) [] h = cc
bytes_eq→eq (x ∷ xs) (y ∷ ys) h = ground (arith, bytes_eq→eq xs ys)

pub bytes_eq_refl : (xs : Bytes) → bytes_eq xs xs ≡ true
bytes_eq_refl [] = refl
bytes_eq_refl (x ∷ xs) = ground (arith, bytes_eq_refl xs)

pub bytes_eq_iff : (xs ys : Bytes) → (bytes_eq xs ys ≡ true) ↔ (xs ≡ ys)
bytes_eq_iff xs ys = (bytes_eq→eq xs ys, λ e. rw e (bytes_eq_refl ys))

-- `xs[lo:hi]`
abbrev pub slice : ℕ → ℕ → Bytes → Bytes
slice lo hi xs = take (hi - lo) (drop lo xs)

-- `PutUint16` and `PutUint32` write the low bytes of a number, the lowest first.
abbrev pub le_bytes : ℕ → ℕ → Bytes
le_bytes zero n = []
le_bytes (suc w) n = (n % 256) ∷ le_bytes w (n / 256)

-- `Uint16` and `Uint32` read all the bytes of a slice.
abbrev pub le_value : Bytes → ℕ
le_value [] = 0
le_value (b ∷ bs) = b + 256 * le_value bs

pub length-le_bytes : (w n : ℕ) → length (le_bytes w n) ≡ w
length-le_bytes zero n = refl
length-le_bytes (suc w) n = ap suc (length-le_bytes w (n / 256))

pub le_bytes-IsByte : (w n : ℕ) → All IsByte (le_bytes w n)
le_bytes-IsByte zero n = tt
le_bytes-IsByte (suc w) n = (omega arith, le_bytes-IsByte w (n / 256))

pub le_bytes-le_value : (xs : Bytes) → All IsByte xs → le_bytes (length xs) (le_value xs) ≡ xs
le_bytes-le_value [] h = refl
le_bytes-le_value (x ∷ xs) (hx, hs) =
    ap₂ ◌∷◌ (omega arith) (rw (quotient) (le_bytes-le_value xs hs))
  where
    quotient : (x + 256 * le_value xs) / 256 ≡ le_value xs
    quotient = omega arith

-- One digit of `hex.EncodeToString`, in ASCII.
abbrev pub hex_digit : ℕ → ℕ
hex_digit d = if ltb d 10 then d + b'0' else d - 10 + b'a'

abbrev pub hex_encode : Bytes → Bytes
hex_encode [] = []
hex_encode (b ∷ bs) = hex_digit (b / 16) ∷ hex_digit (b % 16) ∷ hex_encode bs

-- One digit of `hex.DecodeString`, which takes both cases.
abbrev pub hex_value : ℕ → Option ℕ
hex_value c =
    if leb b'0' c && leb c b'9'
    then some (c - b'0')
    else if leb b'a' c && leb c b'f'
    then some (c - b'a' + 10)
    else if leb b'A' c && leb c b'F'
    then some (c - b'A' + 10)
    else none

abbrev pub join_digits : Option ℕ → Option ℕ → Option Bytes → Option Bytes
join_digits (some hi) (some lo) (some bs) = some ((hi * 16 + lo) ∷ bs)
join_digits none lo bs = none
join_digits (some hi) none bs = none
join_digits (some hi) (some lo) none = none

-- `none` is an error: a character that is no digit, or an odd length.
unfoldable pub hex_decode : Bytes → Option Bytes
hex_decode [] = some []
hex_decode (c ∷ []) = none
hex_decode (c ∷ d ∷ cs) = join_digits (hex_value c) (hex_value d) (hex_decode cs)

hex_value-hex_digit : (d : ℕ) → d < 16 → hex_value (hex_digit d) ≡ some d
hex_value-hex_digit d h = ground arith

pub hex_decode-hex_encode : (bs : Bytes) → All IsByte bs → hex_decode (hex_encode bs) ≡ some bs
unfolding hex_decode
hex_decode-hex_encode [] h = refl
hex_decode-hex_encode (b ∷ bs) (hb, hs) =
    rw
      (
        hex_value-hex_digit (b / 16) (omega arith),
        hex_value-hex_digit (b % 16) (omega arith),
        hex_decode-hex_encode bs hs,
      )
      (ap (λ k. some (k ∷ bs)) (omega arith))
