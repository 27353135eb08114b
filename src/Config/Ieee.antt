-- ===== src/Config/Ieee.antt =====
-- The IEEE section of hostapd.conf: the buffer is large enough, whatever the mask.
use mathlib.Core.List.{append_assoc, append-nil}
use Prim.Native.Nat.{bit_and}
use wifiap_binding.Base.{
  ℕ, ◌+◌, ◌≤◌, ◌<◌, ◌≡◌, ◌⊎◌, inl, inr, refl, ◌++◌, Bool, true, false, List, [], ◌∷◌, done, ◌∙◌,
  if◌then◌else◌, length, arith, All, length-append,
}
use wifiap_binding.Base.Bytes.{
  Bytes, codes, c_str, terminated, memcpy, c_str-memcpy, length-memcpy, length-terminated, zeroed,
  length-zeroed,
}
use wifiap_binding.Utf8
use wifiap_binding.Utf8.{le_ok, Copied}
use wifiap_binding.Utf8.Characters.{copied}
use wifiap_binding.Utf8.Ascii.{
  IsAscii, copy-ascii, IsAscii-IsCString, ascii, ascii-IsAscii, letters, join-letters,
  letters-IsCharacter,
}
use wifiap_binding.Utf8.Append.{append-join}
use wifiap_binding.Config.{hw_mode_line, ieee_flags, append_flags, ieee_section}
use wifiap_binding.Data.Types.{hardware_mode_mask}

-- The lines whose flags are set.
unfoldable pub chosen : List (Bool × Bytes) → Bytes
chosen [] = []
chosen ((flag, line) ∷ flags) = (if flag then line else []) ++ chosen flags

abbrev total : List (Bool × Bytes) → ℕ
total [] = 0
total ((flag, line) ∷ flags) = length line + total flags

abbrev AreAscii : List (Bool × Bytes) → Type 0
AreAscii = All (λ p. IsAscii p.1)

-- A buffer of the size of `tmpConfig` that holds the text.
record Holds (buffer text : Bytes) : Type 0 where
  size : length buffer ≡ 1024
  holds : c_str buffer ≡ text

-- Appending to such a buffer.
append-ascii :
    (b t s : Bytes)
    → Holds b t
    → IsAscii s
    → length t + length s < 1024
    → (r : Copied) × (Utf8.append b (terminated s) 1024 ≡ done r) × Holds r.dest (t ++ s)
append-ascii b t s h a lt =
    let (r, runs, _, text, _, size) =
      append-join b (letters s) (letters-IsCharacter s a)
        (rw (join-letters s) (IsAscii-IsCString s a)) (rw (join-letters s, h.size, h.holds) lt) in
    (
      r,
      rw (join-letters s, h.size) at runs,
      record { size = size ∙ h.size; holds = rw (join-letters s, h.holds) at text },
    )

append_flags-chosen :
    (flags : List (Bool × Bytes)) (b t : Bytes)
    → Holds b t
    → AreAscii flags
    → length t + total flags < 1024
    → (b' : Bytes) × (append_flags flags b ≡ done b') × Holds b' (t ++ chosen flags)
unfolding append_flags chosen
append_flags-chosen [] b t h a lt = (b, refl, rw (append-nil t) h)
append_flags-chosen ((false, line) ∷ flags) b t h a lt =
    append_flags-chosen flags b t h a.1 (omega arith)
append_flags-chosen ((true, line) ∷ flags) b t h a lt =
    let (r, runs, holds) = append-ascii b t line h a.0 (omega arith) in
    let (b', rest, holds') =
      append_flags-chosen flags r.dest (t ++ line) holds a.1
        (omega (arith, length-append t line)) in
    (b', rw runs rest, rw (append_assoc t line (chosen flags)) at holds')

-- The four lines that the `switch` chooses from.
hw_mode_line-cases :
    (mode : ℕ)
    → (hw_mode_line mode ≡ codes "hw_mode=a\n")
      ⊎ (hw_mode_line mode ≡ codes "hw_mode=b\n")
      ⊎ (hw_mode_line mode ≡ codes "hw_mode=g\n")
      ⊎ (hw_mode_line mode ≡ codes "hw_mode=ad\n")
unfolding hw_mode_line
hw_mode_line-cases mode = ground arith

abbrev IsShort : Bytes → Type 0
IsShort s = IsAscii s × (length s ≤ 20)

hw_mode_line-IsShort : (mode : ℕ) → IsShort (hw_mode_line mode)
unfolding ascii
hw_mode_line-IsShort mode = elim (hw_mode_line-cases mode) [
  | inl a ↦ rw a (ascii-IsAscii (codes "hw_mode=a\n") refl, omega arith)
  | inr (inl b) ↦ rw b (ascii-IsAscii (codes "hw_mode=b\n") refl, omega arith)
  | inr (inr (inl g)) ↦ rw g (ascii-IsAscii (codes "hw_mode=g\n") refl, omega arith)
  | inr (inr (inr ad)) ↦ rw ad (ascii-IsAscii (codes "hw_mode=ad\n") refl, omega arith)
]

ieee_flags-AreAscii : (mask : ℕ) → AreAscii (ieee_flags mask)
unfolding ieee_flags ascii
ieee_flags-AreAscii mask = (
  ascii-IsAscii (codes "ieee80211d=1\n") refl,
  (
    ascii-IsAscii (codes "ieee80211h=1\n") refl,
    (
      ascii-IsAscii (codes "ieee80211n=1\n") refl,
      (
        ascii-IsAscii (codes "ieee80211ac=1\n") refl,
        (
          ascii-IsAscii (codes "ieee80211ax=1\n") refl,
          (ascii-IsAscii (codes "ieee80211w=1\n") refl, tt),
        ),
      ),
    ),
  ),
)

total-ieee_flags : (mask : ℕ) → total (ieee_flags mask) ≤ 100
unfolding ieee_flags
total-ieee_flags mask = omega arith

copy_line :
    (d line : Bytes)
    → length d ≡ 1024
    → IsShort line
    → Utf8.copy d (terminated line) 1024 ≡ copied le_ok d line
copy_line d line e h = rw e at (copy-ascii d line h.0 (omega arith))

copied-Holds :
    (d line : Bytes) → length d ≡ 1024 → IsShort line → Holds (memcpy d (terminated line)) line
copied-Holds d line e h = record {
  size = length-memcpy d (terminated line) (omega (arith, length-terminated line)) ∙ e;
  holds = c_str-memcpy d line (IsAscii-IsCString line h.0);
}

-- For every mask the buffer is large enough: the section is the line of the hardware mode and then
-- the line of each flag that the mask has, in the order of the code.
pub ieee_section_lem :
    (mask : ℕ)
    → ieee_section mask
      ≡ done (hw_mode_line (bit_and mask hardware_mode_mask) ++ chosen (ieee_flags mask))
unfolding ieee_section
ieee_section_lem mask =
    let line = hw_mode_line (bit_and mask hardware_mode_mask) in
    let short = hw_mode_line-IsShort (bit_and mask hardware_mode_mask) in
    let size = length-zeroed 1024 in
    let (b, runs, holds) =
      append_flags-chosen (ieee_flags mask) (memcpy (zeroed 1024) (terminated line)) line
        (copied-Holds (zeroed 1024) line size short) (ieee_flags-AreAscii mask)
        (omega (arith, total-ieee_flags mask)) in
    rw (copy_line (zeroed 1024) line size short, runs, holds.holds)
