-- ===== src/System/Format.antt =====
-- The conversions of `snprintf` that the binding uses. `%s` is the string; `%d` and `%u` of a number
-- that is not negative are its decimal digits, at most twenty of them here.
use wifiap_binding.Base.{
  ℕ, zero, suc, ◌+◌, ◌-◌, ◌*◌, ◌/◌, ◌%◌, ◌^◌, ◌≤◌, ◌<◌, ◌≡◌, refl, [], ◌∷◌, ◌++◌, length, ltb,
  if◌then◌else◌, arith, take, Bool-cases, inl, inr, length-append,
}
use wifiap_binding.Base.Bytes.{Bytes}
use native.Mathlib.Nat.{pow-suc}

unfoldable pub digits : ℕ → ℕ → Bytes
digits zero n = []
digits (suc fuel) n =
    let high = digits fuel (n / 10) in
    if ltb n 10 then (b'0' + n) ∷ [] else high ++ (b'0' + n % 10) ∷ []

unfoldable pub decimal : ℕ → Bytes
unfolding digits
decimal = digits 20

-- `snprintf(buffer, size, …)`: the bytes before the terminator that it stores.
unfoldable pub snprintf : ℕ → Bytes → Bytes
snprintf size text = take (size - 1) text

unfoldable pub value_from : ℕ → Bytes → ℕ
value_from acc [] = acc
value_from acc (c ∷ s) = value_from (acc * 10 + (c - b'0')) s

-- The number that decimal digits stand for.
unfoldable pub value : Bytes → ℕ
value = value_from 0

value_from-snoc :
    (acc : ℕ) (s : Bytes) (c : ℕ)
    → value_from acc (s ++ c ∷ []) ≡ value_from acc s * 10 + (c - b'0')
unfolding value_from
value_from-snoc acc [] c = refl
value_from-snoc acc (d ∷ s) c = value_from-snoc (acc * 10 + (d - b'0')) s c

value-digits : (fuel n : ℕ) → n < 10 ^ fuel → value (digits fuel n) ≡ n
unfolding digits value value_from
value-digits zero n h = omega arith
value-digits (suc fuel) n h = elim (Bool-cases (ltb n 10)) [
  | inl small ↦ rw small (omega arith)
  | inr large ↦ rw large (
      rw (value_from-snoc 0 (digits fuel (n / 10)) (b'0' + n % 10))
        (omega (arith, value-digits fuel (n / 10) (omega (arith, pow-suc 10 fuel)))))
]

pub value-decimal : (n : ℕ) → n < 2 ^ 64 → value (decimal n) ≡ n
unfolding decimal
value-decimal n h = value-digits 20 n (omega arith)

length-digits : (fuel n : ℕ) → length (digits fuel n) ≤ fuel
unfolding digits
length-digits zero n = omega arith
length-digits (suc fuel) n = elim (Bool-cases (ltb n 10)) [
  | inl small ↦ rw small (omega arith)
  | inr large ↦ rw large (
      omega (
        arith,
        length-append (digits fuel (n / 10)) ((b'0' + n % 10) ∷ []),
        length-digits fuel (n / 10),
      ))
]

pub length-decimal : (n : ℕ) → length (decimal n) ≤ 20
unfolding decimal
length-decimal n = length-digits 20 n

take_all : (n : ℕ) (s : Bytes) → length s ≤ n → take n s ≡ s
take_all zero [] h = refl
take_all zero (c ∷ s) h = absurd (omega arith)
take_all (suc n) [] h = refl
take_all (suc n) (c ∷ s) h = rw (take_all n s (omega arith))

-- A text that fits is stored whole.
pub snprintf_fits : (size : ℕ) (text : Bytes) → length text < size → snprintf size text ≡ text
unfolding snprintf
snprintf_fits size text h = take_all (size - 1) text (omega arith)
