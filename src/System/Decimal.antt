-- ===== src/System/Decimal.antt =====
-- `strtoul` reads what `%u` has printed.
use wifiap_binding.Base.{
  ℕ, zero, suc, ◌+◌, ◌-◌, ◌*◌, ◌/◌, ◌%◌, ◌^◌, ◌<◌, ◌≡◌, refl, ap, ◌∙◌, true, false, [], ◌∷◌, ◌++◌,
  ltb, All, inl, inr, some, ◌==◌, arith, Bool-cases,
}
use wifiap_binding.Base.Bytes.{Bytes}
use wifiap_binding.System.Format.{digits, decimal, value_from, value, value-decimal}
use wifiap_binding.System.Scan.{
  plus, is_digit, is_space, read_digits, starts_number, read_magnitude, read_number, unsigned_long,
  strtoul,
}

abbrev AreDigits : Bytes → Type 0
AreDigits = All (λ c. is_digit c ≡ true)

AreDigits-snoc : (s : Bytes) (c : ℕ) → AreDigits s → is_digit c ≡ true → AreDigits (s ++ c ∷ [])
AreDigits-snoc [] c h d = (d, tt)
AreDigits-snoc (e ∷ s) c (h, rest) d = (h, AreDigits-snoc s c rest d)

digits-AreDigits : (fuel n : ℕ) → AreDigits (digits fuel n)
unfolding digits is_digit
digits-AreDigits zero n = tt
digits-AreDigits (suc fuel) n = elim (Bool-cases (ltb n 10)) [
  | inl small ↦ rw small (ground arith, tt)
  | inr large ↦
      rw large (AreDigits-snoc _ (b'0' + n % 10) (digits-AreDigits fuel (n / 10)) (ground arith))
]

starts-snoc :
    (s : Bytes) (c : ℕ) → AreDigits s → is_digit c ≡ true → starts_number (s ++ c ∷ []) ≡ true
unfolding starts_number
starts-snoc [] c h d = d
starts-snoc (e ∷ s) c (h, rest) d = h

starts_number-digits : (fuel n : ℕ) → starts_number (digits (suc fuel) n) ≡ true
unfolding digits is_digit starts_number
starts_number-digits fuel n = elim (Bool-cases (ltb n 10)) [
  | inl small ↦ rw small (ground arith)
  | inr large ↦
      rw large (starts-snoc _ (b'0' + n % 10) (digits-AreDigits fuel (n / 10)) (ground arith))
]

read_digits-value : (acc : ℕ) (s : Bytes) → AreDigits s → read_digits acc s ≡ (value_from acc s, [])
unfolding read_digits value_from
read_digits-value acc [] h = refl
read_digits-value acc (c ∷ s) (d, h) = rw d (read_digits-value (acc * 10 + (c - b'0')) s h)

-- A text of digits has no white space and no sign before them.
read_number-digits :
    (s : Bytes) → AreDigits s → starts_number s ≡ true → read_number s ≡ some (plus (value s), [])
unfolding read_number read_magnitude starts_number value value_from is_digit is_space
read_number-digits [] h starts = absurd cc
read_number-digits (c ∷ s) h starts =
    let plain : is_space c ≡ false = ground arith in
    let no_minus : (c == b'-') ≡ false = ground arith in
    let no_plus : (c == b'+') ≡ false = ground arith in
    rw plain
      (rw no_minus (rw no_plus (rw starts (rw (read_digits-value (0 + (c - b'0')) s h.1) refl))))

decimal-AreDigits : (n : ℕ) → AreDigits (decimal n)
unfolding decimal
decimal-AreDigits n = digits-AreDigits 20 n

starts_number-decimal : (n : ℕ) → starts_number (decimal n) ≡ true
unfolding decimal
starts_number-decimal n = starts_number-digits 19 n

unsigned_long-fits : (n : ℕ) → n < 2 ^ 64 → unsigned_long (plus n) ≡ n
unfolding unsigned_long
unsigned_long-fits n h = ground arith

strtoul-read :
    (s : Bytes) (n : ℕ)
    → read_number s ≡ some (plus n, [])
    → strtoul s ≡ (unsigned_long (plus n), [])
unfolding strtoul
strtoul-read s n h = rw (strtoul, h) refl

-- The number that was printed is read back, and the whole text with it.
pub strtoul-decimal : (n : ℕ) → n < 2 ^ 64 → strtoul (decimal n) ≡ (n, [])
strtoul-decimal n h =
    let read = read_number-digits (decimal n) (decimal-AreDigits n) (starts_number-decimal n) in
    strtoul-read (decimal n) (value (decimal n)) read
    ∙ ap (λ v. (v, [])) (rw (value-decimal n h) (unsigned_long-fits n h))
