-- ===== src/Base/Bytes.antt =====
-- C strings and buffers as lists of bytes. A string argument is the list of the bytes before its
-- terminator; a buffer is the list of all its bytes, so an overflow would show as a longer list.
use Prim.Native.Char.{code}
use Prim.Native.String.{String}
use Prim.Native.Nat.{ℕ, ◌+◌, ◌≤◌, ◌<◌}
use mathlib.Core.Path.{◌≡◌, refl, ap, ◌∙◌}
use mathlib.Core.Logic.{◌≢◌, inl, inr}
use mathlib.Core.Bool.{Bool, true, false, ◌&&◌}
use mathlib.Core.List.{List, [], ◌∷◌, ◌++◌, append_assoc}
use native.Mathlib.Omega.{arith}
use wifiap_binding.Base.Tests.{◌==◌, if◌then◌else◌, Bool-cases}
use wifiap_binding.Base.Lists.{
  length, drop, take, All, replicate, length-append, length-drop, length-replicate,
}

abbrev pub Bytes : Type 0
Bytes = List ℕ

-- The code points of a text: its bytes, if it is ASCII.
abbrev pub codes : String → Bytes
codes String.[] = []
codes (String.◌∷◌ c s) = code c ∷ codes s

-- A byte string that a `char *` can stand for: no terminator inside.
abbrev pub IsCString : Bytes → Type 0
IsCString = All (λ c. c ≢ 0)

-- `strcmp(s, t) == 0`
unfoldable pub same_bytes : Bytes → Bytes → Bool
same_bytes [] [] = true
same_bytes [] (d ∷ t) = false
same_bytes (c ∷ s) [] = false
same_bytes (c ∷ s) (d ∷ t) = c == d && same_bytes s t

-- The memory of a C string, with its terminator.
abbrev pub terminated : Bytes → Bytes
terminated s = s ++ 0 ∷ []

-- The C string at the start of a buffer: the bytes before the first terminator.
unfoldable pub c_str : Bytes → Bytes
c_str [] = []
c_str (c ∷ b) = let rest = c_str b in if c == 0 then [] else c ∷ rest

-- A zeroed `char` array.
unfoldable pub zeroed : ℕ → Bytes
zeroed n = replicate n 0

pub length-zeroed : (n : ℕ) → length (zeroed n) ≡ n
unfolding zeroed
length-zeroed n = length-replicate n 0

-- `memcpy(dest, src, length src)`
unfoldable pub memcpy : Bytes → Bytes → Bytes
memcpy dest src = src ++ drop (length src) dest

-- A `char` array of `n` bytes that holds a terminated string.
pub record IsBuffer (n : ℕ) (b : Bytes) : Type 0 where
  pub size : length b ≡ n
  pub has_terminator : length (c_str b) < n

pub c_str-terminated : (s rest : Bytes) → IsCString s → c_str (s ++ 0 ∷ rest) ≡ s
unfolding c_str
c_str-terminated [] rest h = refl
c_str-terminated (c ∷ s) rest h = ground (arith, c_str-terminated s rest h.1)

pub length-memcpy : (d src : Bytes) → length src ≤ length d → length (memcpy d src) ≡ length d
unfolding memcpy
length-memcpy d src h =
    omega (arith, length-append src (drop (length src) d), length-drop (length src) d)

pub c_str-memcpy : (d s : Bytes) → IsCString s → c_str (memcpy d (terminated s)) ≡ s
unfolding memcpy
c_str-memcpy d s h =
    rw (append_assoc s (0 ∷ []) (drop (length (terminated s)) d)) (c_str-terminated s _ h)

pub length-terminated : (s : Bytes) → length (terminated s) ≡ length s + 1
length-terminated s = length-append s (0 ∷ [])

-- A terminated string that fits, written to the start of an array.
pub memcpy-IsBuffer :
    (n : ℕ) (d s : Bytes)
    → IsCString s
    → length d ≡ n
    → length s < n
    → IsBuffer n (memcpy d (terminated s))
memcpy-IsBuffer n d s h e lt = record {
  size = length-memcpy d (terminated s) (omega (arith, length-terminated s)) ∙ e;
  has_terminator = rw (c_str-memcpy d s h) lt;
}

pub IsCString-append : (s t : Bytes) → IsCString s → IsCString t → IsCString (s ++ t)
IsCString-append [] t hs ht = ht
IsCString-append (c ∷ s) t hs ht = (hs.0, IsCString-append s t hs.1 ht)

-- What a buffer holds is a C string.
pub c_str-IsCString : (b : Bytes) → IsCString (c_str b)
unfolding c_str
c_str-IsCString [] = tt
c_str-IsCString (c ∷ b) = elim (Bool-cases (c == 0)) [
  | inl nul ↦ rw nul tt
  | inr char ↦ rw char (ground arith, c_str-IsCString b)
]

-- Text written over the terminator of a string extends it.
pub c_str-take : (b x : Bytes) → c_str (take (length (c_str b)) b ++ x) ≡ c_str b ++ c_str x
unfolding c_str
c_str-take [] x = refl
c_str-take (c ∷ b) x = elim (Bool-cases (c == 0)) [
  | inl nul ↦ rw nul refl
  | inr char ↦ rw char (rw char (ap (λ t. c ∷ t) (c_str-take b x)))
]
