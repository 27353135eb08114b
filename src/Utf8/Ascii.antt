-- ===== src/Utf8/Ascii.antt =====
-- ASCII text is a string of one-byte characters.
use wifiap_binding.Base.{
  ◌<◌, ◌≡◌, refl, List, [], ◌∷◌, ap, ◌==◌, arith, All, ◌≢◌, passes_below, passes_below→test, ==_iff,
  length, true, Bool, ◌&&◌, ltb,
}
use wifiap_binding.Base.Bytes.{Bytes, IsCString, terminated}
use wifiap_binding.Utf8.{num_bytes_in_char, copy, le_ok}
use wifiap_binding.Utf8.Characters.{IsCharacter, join, copied, copy-join_fits}

abbrev pub IsAscii : Bytes → Type 0
IsAscii = All (λ c. (c ≢ 0) × (c < 128))

-- One character for each byte.
abbrev pub letters : Bytes → List Bytes
letters [] = []
letters (c ∷ s) = (c ∷ []) ∷ letters s

pub join-letters : (s : Bytes) → join (letters s) ≡ s
join-letters [] = refl
join-letters (c ∷ s) = ap (λ t. c ∷ t) (join-letters s)

ascii_table : passes_below (λ c. num_bytes_in_char c == 1) 128 ≡ true
unfolding passes_below num_bytes_in_char
ascii_table = refl

pub letters-IsCharacter : (s : Bytes) → IsAscii s → All IsCharacter (letters s)
letters-IsCharacter [] h = tt
letters-IsCharacter (c ∷ s) h = (
  (h.0.0, (==_iff _ 1).0 (passes_below→test _ 128 c h.0.1 ascii_table)),
  letters-IsCharacter s h.1,
)

pub IsAscii-IsCString : (s : Bytes) → IsAscii s → IsCString s
IsAscii-IsCString [] h = tt
IsAscii-IsCString (c ∷ s) h = (h.0.0, IsAscii-IsCString s h.1)

-- The test of `IsAscii`, to run on texts.
unfoldable pub ascii : Bytes → Bool
ascii [] = true
ascii (c ∷ s) = (ltb 0 c && ltb c 128) && ascii s

pub ascii-IsAscii : (s : Bytes) → ascii s ≡ true → IsAscii s
unfolding ascii
ascii-IsAscii [] h = tt
ascii-IsAscii (c ∷ s) h = ((ground arith, ground arith), ascii-IsAscii s (ground arith))

-- ASCII text that fits is copied whole.
pub copy-ascii :
    (d s : Bytes)
    → IsAscii s
    → length s < length d
    → copy d (terminated s) (length d) ≡ copied le_ok d s
copy-ascii d s h lt =
    rw (join-letters s) at
      (copy-join_fits d (letters s) (letters-IsCharacter s h) (rw (join-letters s) lt))
