-- ===== src/System/Scan.antt =====
-- What `sscanf` and `strtoul` read: white space, a sign, decimal digits.
use wifiap_binding.Base.{
  ℕ, ◌+◌, ◌-◌, ◌*◌, ◌%◌, Bool, false, ◌&&◌, ◌||◌, Option, none, some, [], ◌∷◌, ◌==◌, leb, ltb,
  if◌then◌else◌,
}
use wifiap_binding.Base.Bytes.{Bytes}

-- A number that was read, with its sign.
pub data Number : Type 0 where
  plus : ℕ → Number
  minus : ℕ → Number

unfoldable pub is_digit : ℕ → Bool
is_digit c = leb b'0' c && leb c b'9'

-- The digits at the start of the input, read after the value `acc`, and the rest.
unfoldable pub read_digits : ℕ → Bytes → ℕ × Bytes
read_digits acc [] = (acc, [])
read_digits acc (c ∷ s) =
    let rest = read_digits (acc * 10 + (c - b'0')) s in if is_digit c then rest else (acc, c ∷ s)

unfoldable pub starts_number : Bytes → Bool
starts_number [] = false
starts_number (c ∷ s) = is_digit c

unfoldable pub read_magnitude : (ℕ → Number) → Bytes → Option (Number × Bytes)
unfolding is_digit read_digits starts_number
read_magnitude sign s =
    let (n, rest) = read_digits 0 s in if starts_number s then some (sign n, rest) else none

-- White space of the C locale.
unfoldable pub is_space : ℕ → Bool
is_space c = c == b' ' || (leb 9 c && leb c 13)

-- `%d`: white space, a sign, digits.
unfoldable pub read_number : Bytes → Option (Number × Bytes)
unfolding read_magnitude is_space
read_number [] = none
read_number (c ∷ s) =
    let skipped = read_number s in
    if is_space c
    then skipped
    else if c == b'-'
    then read_magnitude minus s
    else if c == b'+'
    then read_magnitude plus s
    else read_magnitude plus (c ∷ s)

-- The largest `unsigned long`.
abbrev pub ulong_max : ℕ
ulong_max = 0xFFFFFFFFFFFFFFFF

-- The value that `strtoul` gives to a number: too large a one saturates, a minus sign wraps round.
unfoldable pub unsigned_long : Number → ℕ
unsigned_long (plus n) = if ltb ulong_max n then ulong_max else n
unsigned_long (minus n) =
    if ltb ulong_max n then ulong_max else (ulong_max + 1 - n) % (ulong_max + 1)

-- `strtoul(str, &end, 10)`, and the string at `end`: where no number stands, that is `str`.
unfoldable pub strtoul : Bytes → ℕ × Bytes
unfolding read_number unsigned_long
strtoul str = elim (read_number str) [ none ↦ (0, str) | some (v, rest) ↦ (unsigned_long v, rest) ]
