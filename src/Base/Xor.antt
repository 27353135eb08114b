-- ===== src/Base/Xor.antt =====
-- `^` of two numbers, digit by digit.
use Prim.Native.Nat.{
  ℕ, zero, suc, ◌+◌, ◌*◌, ◌/◌, ◌%◌, ◌≤◌, ◌<◌, digits, differ, bit_xor, bit_xor-bitwise,
}
use mathlib.Core.Path.{◌≡◌, refl, ◌∙◌}
use native.Mathlib.Omega.{arith}
use native.Mathlib.Nat.{le_refl}

abbrev xor_from : ℕ → ℕ → ℕ → ℕ
xor_from = digits (λ b. b) differ

xor_from-zero : (fuel b : ℕ) → xor_from fuel zero b ≡ b
xor_from-zero zero b = refl
xor_from-zero (suc fuel) b = refl

-- Fuel above the first operand changes nothing.
xor_from_agree : (p q a b : ℕ) → a ≤ p → a ≤ q → xor_from p a b ≡ xor_from q a b
xor_from_agree p q zero b hp hq = omega (arith, xor_from-zero p b, xor_from-zero q b)
xor_from_agree zero q (suc a) b hp hq = absurd (omega arith)
xor_from_agree (suc p) zero (suc a) b hp hq = absurd (omega arith)
xor_from_agree (suc p) (suc q) (suc a) b hp hq =
    omega (arith, xor_from_agree p q (suc a / 2) (b / 2) (omega arith) (omega arith))

bit_xor-xor_from : (fuel a b : ℕ) → a ≤ fuel → bit_xor a b ≡ xor_from fuel a b
bit_xor-xor_from fuel a b h = bit_xor-bitwise a b ∙ xor_from_agree a fuel a b (le_refl a) h

differ-digits : (x y : ℕ) → x < 2 → y < 2 → differ x y ≡ (x + y) % 2
differ-digits zero y h k = omega arith
differ-digits (suc x) zero h k = omega arith
differ-digits (suc zero) (suc zero) h k = refl
differ-digits (suc (suc x)) (suc y) h k = absurd (omega arith)
differ-digits (suc zero) (suc (suc y)) h k = absurd (omega arith)

-- The lowest digit of `^` is that of the sum.
bit_xor_low : (a b : ℕ) → bit_xor a b ≡ bit_xor (a / 2) (b / 2) * 2 + (a + b) % 2
bit_xor_low zero b = omega (arith, bit_xor-xor_from 0 0 b, bit_xor-xor_from 0 0 (b / 2))
bit_xor_low (suc a) b =
    let whole = bit_xor-xor_from (suc a) (suc a) b (le_refl (suc a)) in
    let upper = bit_xor-xor_from a (suc a / 2) (b / 2) (omega arith) in
    let low = differ-digits (suc a % 2) (b % 2) (omega arith) (omega arith) in
    omega (arith, whole, upper, low)

bit_xor-half : (a b : ℕ) → bit_xor a b / 2 ≡ bit_xor (a / 2) (b / 2)
bit_xor-half a b = omega (arith, bit_xor_low a b)

-- The other operand again: from the left and from the right.
bit_xor_cancel_fuel :
    (n a b : ℕ) → a + b ≤ n → (bit_xor b (bit_xor a b) ≡ a) × (bit_xor (bit_xor a b) a ≡ b)
bit_xor_cancel_fuel zero zero zero h = (refl, refl)
bit_xor_cancel_fuel zero zero (suc b) h = absurd (omega arith)
bit_xor_cancel_fuel zero (suc a) b h = absurd (omega arith)
bit_xor_cancel_fuel (suc n) a b h =
    let half = bit_xor-half a b in
    let (left, right) = bit_xor_cancel_fuel n (a / 2) (b / 2) (omega arith) in
    let left_half : bit_xor (b / 2) (bit_xor a b / 2) ≡ a / 2 = rw half left in
    let right_half : bit_xor (bit_xor a b / 2) (a / 2) ≡ b / 2 = rw half right in
    (
      omega (arith, bit_xor_low b (bit_xor a b), bit_xor_low a b, left_half),
      omega (arith, bit_xor_low (bit_xor a b) a, bit_xor_low a b, right_half),
    )

pub bit_xor_cancel : (a b : ℕ) → (bit_xor b (bit_xor a b) ≡ a) × (bit_xor (bit_xor a b) a ≡ b)
bit_xor_cancel a b = bit_xor_cancel_fuel (a + b) a b (le_refl (a + b))
