-- ===== src/Data/Calls/Buffers.antt =====
-- `set_buffer` and `set_string_copy`: every branch, and the strings that they leave behind.
use wifiap_binding.Base.{
  ℕ, ◌+◌, ◌≤◌, ◌<◌, ◌≡◌, ◌≢◌, ◌⊎◌, refl, inl, inr, Option, none, some, [], ◌∷◌, length, arith, ltb,
  Bool-cases, Option-cases,
}
use wifiap_binding.Base.Bytes.{Bytes, IsCString, IsBuffer, c_str, c_str-memcpy, memcpy-IsBuffer}
use wifiap_binding.Data.Types.{Status, no_error, error_invalid, error_too_small, error_too_large}
use wifiap_binding.Data.Setters.{set_string_copy, set_buffer}
use wifiap_binding.Data.Calls.Defs.{IsArgument}

-- What a call with this argument, these bounds and this old content may come to.
abbrev pub BufferIsSet : ℕ → ℕ → Bytes → Option Bytes → Status × Bytes → Type 0
BufferIsSet minlen maxlen dest none r = (r.0 ≡ error_invalid) × (r.1 ≡ dest)
BufferIsSet minlen maxlen dest (some src) r =
    ((minlen ≤ length src) × (length src ≤ maxlen) × (r.0 ≡ no_error) × (c_str r.1 ≡ src))
    ⊎ ((length src < minlen) × (r.0 ≡ error_too_small) × (r.1 ≡ dest))
    ⊎ ((minlen ≤ length src) × (maxlen < length src) × (r.0 ≡ error_too_large) × (r.1 ≡ dest))

-- `set_buffer` stores the string exactly if its length lies between the two bounds; a NULL, a
-- shorter and a longer string are refused with the error code of the case, and leave the buffer.
pub set_buffer_cases :
    (dest : Bytes) (src : Option Bytes) (minlen maxlen : ℕ)
    → IsArgument src
    → BufferIsSet minlen maxlen dest src (set_buffer dest src minlen maxlen)
unfolding set_buffer
set_buffer_cases dest none minlen maxlen h = (refl, refl)
set_buffer_cases dest (some src) minlen maxlen h = ground (arith, c_str-memcpy dest src h)

pub set_buffer-IsBuffer :
    (dest : Bytes) (src : Option Bytes) (minlen maxlen : ℕ)
    → IsArgument src
    → IsBuffer (maxlen + 1) dest
    → IsBuffer (maxlen + 1) (set_buffer dest src minlen maxlen).1
unfolding set_buffer
set_buffer-IsBuffer dest none minlen maxlen h b = b
set_buffer-IsBuffer dest (some src) minlen maxlen h b =
    elim (Bool-cases (ltb (length src) minlen)) [
      | inl short ↦ rw short b
      | inr enough ↦ rw enough (elim (Bool-cases (ltb maxlen (length src))) [
        | inl long ↦ rw long b
        | inr fits ↦ rw fits (memcpy-IsBuffer (maxlen + 1) dest src h b.size (ground arith))
      ])
    ]

-- A `char *` field: NULL, or a C string that is not empty.
abbrev pub IsName : Option Bytes → Type 0
IsName none = Unit
IsName (some s) = (s ≢ []) × IsCString s

-- What the C library promises of `strdup`: a copy, or nothing.
abbrev pub Copies : (Bytes → Option Bytes) → Type 0
Copies strdup = (s t : Bytes) → strdup s ≡ some t → t ≡ s

pub set_string_copy-IsName :
    (strdup : Bytes → Option Bytes) (dest src : Option Bytes)
    → Copies strdup
    → IsArgument src
    → IsName dest
    → IsName (set_string_copy strdup dest src).1
unfolding set_string_copy
set_string_copy-IsName strdup dest none law h n = n
set_string_copy-IsName strdup dest (some []) law h n = n
set_string_copy-IsName strdup dest (some (c ∷ src)) law h n =
    elim (Option-cases (strdup (c ∷ src))) [
      | inl empty ↦ rw empty n
      | inr (t, e) ↦ rw e (rw (law _ t e) (λ p. cc, h))
    ]
