-- ===== src/Utf8.antt =====
-- The UTF-8 copying routines of src/lib/wifi-ap-utilities.c.
-- A source is the memory that the pointer sees, `[]` where the object ends, so a read past the end
-- is a fault; a destination is a buffer, and a write outside it is one too.
pub mod Copy
pub mod Ascii
pub mod Append
pub mod Characters
pub mod Malformed
use Prim.Native.Nat.{bit_and}
use wifiap_binding.Base.{
  ℕ, zero, suc, ◌+◌, ◌-◌, ◌++◌, List, [], ◌∷◌, Outcome, done, fault, read_out_of_bounds,
  write_out_of_bounds, ◌>>=◌, ◌==◌, leb, if◌then◌else◌, length, take, drop,
}
use wifiap_binding.Base.Bytes.{Bytes, c_str}

-- Bytes of the character that starts with the byte; 0 if no character starts with it.
unfoldable pub num_bytes_in_char : ℕ → ℕ
num_bytes_in_char first_byte =
    if bit_and first_byte 0x80 == 0x00
    then 1
    else if bit_and first_byte 0xE0 == 0xC0
    then 2
    else if bit_and first_byte 0xF0 == 0xE0
    then 3
    else if bit_and first_byte 0xF8 == 0xF0
    then 4
    else 0

-- `dest[i] = v`
pub store : Bytes → ℕ → ℕ → Outcome Bytes
store [] i v = fault write_out_of_bounds
store (x ∷ b) zero v = done (v ∷ b)
store (x ∷ b) (suc i) v = store b i v >>= λ b'. done (x ∷ b')

-- The return values 0 and -1, by the names of the routine's comment.
pub data CopyStatus : Type 0 where
  le_ok le_overflow : CopyStatus

pub record Copied : Type 0 where
  pub status : CopyStatus
  pub dest : Bytes
  pub num_bytes : ℕ

-- `dest[i] = '\0'`, and the report of what was copied.
pub finish : CopyStatus → Bytes → ℕ → Outcome Copied
finish status dest i =
    store dest i 0 >>= λ dest'. done (record { status = status; dest = dest'; num_bytes = i })

-- Both loops of `utf8_Copy` in one: `pending` is the `charLength` that the inner loop has left, and
-- at 0 the outer loop looks at the next byte. The first byte of a character is copied at once.
unfoldable pub copy_from : ℕ → Bytes → ℕ → ℕ → Bytes → Outcome Copied
unfolding finish
copy_from dest_size [] pending i dest = fault read_out_of_bounds
copy_from dest_size (c ∷ src) (suc pending) i dest =
    store dest i c >>= λ dest'. copy_from dest_size src pending (i + 1) dest'
copy_from dest_size (c ∷ src) zero i dest =
    let char_length = num_bytes_in_char c in
    let rest =
      store dest i c >>= λ dest'. copy_from dest_size src (char_length - 1) (i + 1) dest' in
    if c == 0
    then finish le_ok dest i
    else if char_length == 0
    then (store dest 0 0 >>= λ dest'. done (record { status = le_ok; dest = dest'; num_bytes = 0 }))
    else if leb dest_size (char_length + i)
    then finish le_overflow dest i
    else rest

-- `utf8_Copy(dest, src, dest_size, &num_bytes)`
unfoldable pub copy : Bytes → Bytes → ℕ → Outcome Copied
unfolding copy_from
copy dest src dest_size = copy_from dest_size src 0 0 dest

-- `utf8_Append(dest, src, dest_size, &dest_len)`: the copy goes to the terminator of `dest`.
unfoldable pub append : Bytes → Bytes → ℕ → Outcome Copied
unfolding copy
append dest src dest_size =
    let dest_str_size = length (c_str dest) in
    copy (drop dest_str_size dest) src (dest_size - dest_str_size) >>= λ r.
    done (record r {
      dest = take dest_str_size dest ++ r.dest;
      num_bytes = r.num_bytes + dest_str_size;
    })
