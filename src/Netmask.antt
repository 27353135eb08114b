-- ===== src/Netmask.antt =====
-- `toCidr` of src/lib/wifi-ap-utilities.c, with the part of `sscanf` that it uses.
use wifiap_binding.Base.{
  ℕ, zero, suc, ◌+◌, ◌-◌, ◌^◌, ◌<◌, ◌≡◌, refl, ◌++◌, Bool, true, false, Option, none, some, List,
  [], ◌∷◌, Outcome, done, fault, uninitialized_read, ◌==◌, leb, if◌then◌else◌, passes_below,
  passes_below→test, arith, ==_iff, ap,
}
use wifiap_binding.Base.Bytes.{Bytes, codes}
use wifiap_binding.System.Format.{decimal}
use wifiap_binding.System.Scan.{Number, plus, minus, read_number}

-- A `.` of the format, before the next conversion.
read_dot : Bytes → Option Bytes
read_dot [] = none
read_dot (c ∷ s) = if c == b'.' then some s else none

unset : ℕ → List (Option Number)
unset zero = []
unset (suc n) = none ∷ unset n

-- The conversions `%d.%d.…` that are left: the variables that `sscanf` sets, `none` for one that it
-- does not reach. A number is kept whole: it is the `int` of the source if it fits in 32 bits.
scan_numbers : ℕ → Bytes → List (Option Number)
unfolding unset read_number read_dot
scan_numbers zero s = []
scan_numbers (suc n) s = elim (read_number s) [
  | none ↦ unset (suc n)
  | some (v, rest) ↦
      some v ∷ elim (read_dot rest) [ none ↦ unset n | some rest' ↦ scan_numbers n rest' ]
]

-- The `switch` on one byte: the bits that it adds, `none` for `default`.
unfoldable pub mask_bits : Number → Option ℕ
mask_bits (minus n) = none
mask_bits (plus n) =
    if n == 0x80
    then some 1
    else if n == 0xC0
    then some 2
    else if n == 0xE0
    then some 3
    else if n == 0xF0
    then some 4
    else if n == 0xF8
    then some 5
    else if n == 0xFC
    then some 6
    else if n == 0xFE
    then some 7
    else if n == 0xFF
    then some 8
    else none

-- The loop over the four numbers.
unfoldable pub cidr_from : ℕ → List (Option Number) → Outcome ℕ
unfolding mask_bits
cidr_from netmask_cidr [] = done netmask_cidr
cidr_from netmask_cidr (none ∷ rest) = fault uninitialized_read
cidr_from netmask_cidr (some v ∷ rest) = elim (mask_bits v) [
  | none ↦ done netmask_cidr
  | some bits ↦ cidr_from (netmask_cidr + bits) rest
]

unfoldable pub to_cidr : Bytes → Outcome ℕ
unfolding scan_numbers cidr_from
to_cidr ip_address = cidr_from 0 (scan_numbers 4 ip_address)

-- The byte of a mask of `n` leading ones that has `skip` bits before it.
unfoldable octet : ℕ → ℕ → ℕ
octet skip n = if leb n skip then 0 else if leb (skip + 8) n then 255 else 256 - 2 ^ (skip + 8 - n)

-- The mask of `n` leading ones, in dotted form.
unfoldable pub mask_text : ℕ → Bytes
unfolding octet decimal
mask_text n =
    decimal (octet 0 n)
    ++ codes "."
    ++ decimal (octet 8 n)
    ++ codes "."
    ++ decimal (octet 16 n)
    ++ codes "."
    ++ decimal (octet 24 n)

is_done : Outcome ℕ → ℕ → Bool
is_done (done m) n = m == n
is_done (fault e) n = false

is_done→eq : (o : Outcome ℕ) (n : ℕ) → is_done o n ≡ true → o ≡ done n
unfolding is_done
is_done→eq (done m) n h = ap done ((==_iff m n).0 h)
is_done→eq (fault e) n h = absurd (ground arith)

mask_table : passes_below (λ n. is_done (to_cidr (mask_text n)) n) 33 ≡ true
unfolding passes_below is_done to_cidr mask_text
mask_table = refl

-- `toCidr` of the dotted form of every mask of leading ones is the number of these ones.
pub to_cidr-mask_text : (n : ℕ) → n < 33 → to_cidr (mask_text n) ≡ done n
to_cidr-mask_text n h =
    is_done→eq _ n (passes_below→test (λ m. is_done (to_cidr (mask_text m)) m) 33 n h mask_table)
