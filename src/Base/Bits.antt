-- ===== src/Base/Bits.antt =====
-- Masks as arithmetic: `&` with the low four bits, and with a single bit.
use Prim.Native.Nat.{
  ℕ, zero, suc, ◌+◌, ◌*◌, ◌/◌, ◌%◌, ◌^◌, ◌≤◌, min, bit_and, digits, bit_and-bitwise,
}
use mathlib.Core.Path.{◌≡◌, refl, ◌∙◌, sym}
use native.Mathlib.Omega.{arith}
use native.Mathlib.Nat.{le_refl}

abbrev and_from : ℕ → ℕ → ℕ → ℕ
and_from = digits (λ y. zero) min

and_from-zero : (fuel b : ℕ) → and_from fuel zero b ≡ zero
and_from-zero zero b = refl
and_from-zero (suc fuel) b = refl

-- Fuel above the first operand changes nothing.
and_from_agree : (p q a b : ℕ) → a ≤ p → a ≤ q → and_from p a b ≡ and_from q a b
and_from_agree p q zero b hp hq = and_from-zero p b ∙ sym (and_from-zero q b)
and_from_agree zero q (suc a) b hp hq = absurd (omega arith)
and_from_agree (suc p) zero (suc a) b hp hq = absurd (omega arith)
and_from_agree (suc p) (suc q) (suc a) b hp hq =
    omega (arith, and_from_agree p q (suc a / 2) (b / 2) (omega arith) (omega arith))

-- `&` on any fuel that is enough.
bit_and-and_from : (fuel a b : ℕ) → a ≤ fuel → bit_and a b ≡ and_from fuel a b
bit_and-and_from fuel a b h = bit_and-bitwise a b ∙ and_from_agree a fuel a b (le_refl a) h

-- The lowest digit of `&`.
bit_and_low : (a b : ℕ) → bit_and a b ≡ bit_and (a / 2) (b / 2) * 2 + min (a % 2) (b % 2)
bit_and_low zero b = omega (arith, bit_and-and_from 0 0 b, bit_and-and_from 0 0 (b / 2))
bit_and_low (suc a) b =
    let whole = bit_and-and_from (suc a) (suc a) b (le_refl (suc a)) in
    let upper = bit_and-and_from a (suc a / 2) (b / 2) (omega arith) in omega (arith, whole, upper)

and_from-none : (fuel a : ℕ) → and_from fuel a 0 ≡ 0
and_from-none zero a = refl
and_from-none (suc fuel) zero = refl
and_from-none (suc fuel) (suc a) = omega (arith, and_from-none fuel (suc a / 2))

bit_and-zero : (a : ℕ) → bit_and a 0 ≡ 0
bit_and-zero a = bit_and-and_from a a 0 (le_refl a) ∙ and_from-none a a

pub bit_and-one : (a : ℕ) → bit_and a 1 ≡ a % 2
bit_and-one a = omega (arith, bit_and_low a 1, bit_and-zero (a / 2))

pub bit_and_nibble : (a : ℕ) → bit_and a 0x0F ≡ a % 16
bit_and_nibble a = omega (
  arith,
  bit_and_low a 15,
  bit_and_low (a / 2) 7,
  bit_and_low (a / 2 / 2) 3,
  bit_and-one (a / 2 / 2 / 2),
)

-- One more place to the left.
bit_and_double : (a m : ℕ) → bit_and a (m * 2) ≡ bit_and (a / 2) m * 2
bit_and_double a m =
    let half : m * 2 / 2 ≡ m = omega arith in bit_and_low a (m * 2) ∙ rw half (omega arith)

-- Bit `k` of a number.
abbrev pub bit : ℕ → ℕ → ℕ
bit k a = a / 2 ^ k % 2

pub bit_and_bit4 : (a : ℕ) → bit_and a 0x10 ≡ bit 4 a * 16
bit_and_bit4 a = omega (
  arith,
  bit_and_double a 8,
  bit_and_double (a / 2) 4,
  bit_and_double (a / 2 / 2) 2,
  bit_and_double (a / 2 / 2 / 2) 1,
  bit_and-one (a / 2 / 2 / 2 / 2),
)

pub bit_and_bit5 : (a : ℕ) → bit_and a 0x20 ≡ bit 5 a * 32
bit_and_bit5 a = omega (arith, bit_and_double a 16, bit_and_bit4 (a / 2))

pub bit_and_bit7 : (a : ℕ) → bit_and a 0x80 ≡ bit 7 a * 128
bit_and_bit7 a =
    omega (arith, bit_and_double a 64, bit_and_double (a / 2) 32, bit_and_bit5 (a / 2 / 2))
