-- ===== src/Utf8/Characters.antt =====
-- What `utf8_Copy` does on a string of whole characters, against a description by characters.
use mathlib.Core.List.{append_assoc, append-nil}
use native.Mathlib.Decide.{dec_le}
use mathlib.Core.Path.{ap₂}
use wifiap_binding.Base.{
  ℕ, suc, ◌+◌, ◌-◌, ◌≤◌, ◌<◌, ◌≡◌, refl, ◌++◌, List, [], ◌∷◌, Outcome, done, ap, ◌==◌, leb,
  if◌then◌else◌, length, arith, All, length-append, ◌≢◌, false, ◌∙◌, sym,
}
use wifiap_binding.Base.Bytes.{Bytes, terminated, memcpy}
use wifiap_binding.Utf8.{
  num_bytes_in_char, store, CopyStatus, le_ok, le_overflow, Copied, finish, copy_from, copy,
}

-- A character: its first byte is no terminator and announces its length.
abbrev pub IsCharacter : Bytes → Type 0
IsCharacter [] = ⊥
IsCharacter (c ∷ tail) = (c ≢ 0) × (num_bytes_in_char c ≡ suc (length tail))

-- The bytes of a list of characters.
abbrev pub join : List Bytes → Bytes
join [] = []
join (ch ∷ chars) = ch ++ join chars

-- The characters, from the first on, that fit into so many bytes.
pub fitting : ℕ → List Bytes → List Bytes
fitting room [] = []
fitting room (ch ∷ chars) =
    let rest = fitting (room - length ch) chars in if leb (length ch) room then ch ∷ rest else []

pub store-memcpy :
    (d pre : Bytes) (v : ℕ)
    → length pre < length d
    → store (memcpy d pre) (length pre) v ≡ done (memcpy d (pre ++ v ∷ []))
unfolding store memcpy
store-memcpy [] pre v h = absurd (omega arith)
store-memcpy (x ∷ d) [] v h = refl
store-memcpy (x ∷ d) (p ∷ pre) v h = rw (store-memcpy d pre v (omega arith))

pub length-snoc : (pre : Bytes) (v : ℕ) → length (pre ++ v ∷ []) ≡ length pre + 1
length-snoc pre v = length-append pre (v ∷ [])

-- One round of the inner loop, while the copied prefix stays inside the buffer.
copy_from_pending :
    (n : ℕ) (d src pre : Bytes) (c k : ℕ)
    → length pre < length d
    → copy_from n (c ∷ src) (suc k) (length pre) (memcpy d pre)
      ≡ copy_from n src k (length (pre ++ c ∷ [])) (memcpy d (pre ++ c ∷ []))
unfolding copy_from
copy_from_pending n d src pre c k h = rw (store-memcpy d pre c h, length-snoc pre c)

copy_from-tail :
    (n : ℕ) (d src tail pre : Bytes)
    → length pre + length tail ≤ length d
    → copy_from n (tail ++ src) (length tail) (length pre) (memcpy d pre)
      ≡ copy_from n src 0 (length (pre ++ tail)) (memcpy d (pre ++ tail))
copy_from-tail n d src [] pre h = rw (append-nil pre)
copy_from-tail n d src (c ∷ tail) pre h =
    copy_from_pending n d (tail ++ src) pre c (length tail) (omega arith)
    ∙ copy_from-tail n d src tail (pre ++ c ∷ []) (omega (arith, length-snoc pre c))
    ∙ rw (append_assoc pre (c ∷ []) tail)

finish-memcpy :
    (status : CopyStatus) (d pre : Bytes)
    → length pre < length d
    → finish status (memcpy d pre) (length pre)
      ≡ done (record { status = status; dest = memcpy d (terminated pre); num_bytes = length pre })
unfolding finish
finish-memcpy status d pre h = rw (store-memcpy d pre 0 h)

-- The first byte of a character that leaves room for the terminator.
copy_from_first :
    (d src pre : Bytes) (c : ℕ) (tail : Bytes)
    → IsCharacter (c ∷ tail)
    → length pre + suc (length tail) < length d
    → copy_from (length d) (c ∷ src) 0 (length pre) (memcpy d pre)
      ≡ copy_from (length d) src (length tail) (length (pre ++ c ∷ [])) (memcpy d (pre ++ c ∷ []))
unfolding copy_from
copy_from_first d src pre c tail (nonzero, len) h =
    let start : (c == 0) ≡ false = ground arith in
    let valid : (suc (length tail) == 0) ≡ false = ground arith in
    let room : leb (length d) (suc (length tail) + length pre) ≡ false = ground arith in
    let left : suc (length tail) - 1 ≡ length tail = omega arith in
    rw (len, start, valid, room, left, store-memcpy d pre c (omega arith), length-snoc pre c)

-- A whole character is copied, if it leaves room for the terminator.
pub copy_from_character :
    (d src pre : Bytes) (c : ℕ) (tail : Bytes)
    → IsCharacter (c ∷ tail)
    → length pre + suc (length tail) < length d
    → copy_from (length d) (c ∷ tail ++ src) 0 (length pre) (memcpy d pre)
      ≡ copy_from (length d) src 0 (length (pre ++ c ∷ tail)) (memcpy d (pre ++ c ∷ tail))
copy_from_character d src pre c tail ch h =
    copy_from_first d (tail ++ src) pre c tail ch h
    ∙ copy_from-tail (length d) d src tail (pre ++ c ∷ []) (omega (arith, length-snoc pre c))
    ∙ rw (append_assoc pre (c ∷ []) tail)

copy_from_full :
    (d src pre : Bytes) (c : ℕ) (tail : Bytes)
    → IsCharacter (c ∷ tail)
    → length pre < length d
    → length d ≤ length pre + suc (length tail)
    → copy_from (length d) (c ∷ src) 0 (length pre) (memcpy d pre)
      ≡ done (record {
        status = le_overflow;
        dest = memcpy d (terminated pre);
        num_bytes = length pre;
      })
unfolding copy_from
copy_from_full d src pre c tail ch lt h = ground (arith, finish-memcpy le_overflow d pre lt)

abbrev pub status_for : ℕ → List Bytes → CopyStatus
status_for room chars = if leb (length (join chars)) room then le_ok else le_overflow

-- The outcome of a copy that leaves this text in the buffer.
abbrev pub copied : CopyStatus → Bytes → Bytes → Outcome Copied
copied status d text =
    done (record { status = status; dest = memcpy d (terminated text); num_bytes = length text })

fitting-none :
    (room : ℕ) (ch : Bytes) (chars : List Bytes) → room < length ch → fitting room (ch ∷ chars) ≡ []
unfolding fitting
fitting-none room ch chars h = ground arith

fitting-some :
    (room : ℕ) (ch : Bytes) (chars : List Bytes)
    → length ch ≤ room
    → fitting room (ch ∷ chars) ≡ ch ∷ fitting (room - length ch) chars
unfolding fitting
fitting-some room ch chars h = ground arith

fitting-nil : (room : ℕ) → fitting room [] ≡ []
unfolding fitting
fitting-nil room = refl

copy_from_nul : (n i : ℕ) (src dest : Bytes) → copy_from n (0 ∷ src) 0 i dest ≡ finish le_ok dest i
unfolding copy_from
copy_from_nul n i src dest = refl

-- From any point between two characters, with `room` bytes left before the last one.
copy_from-join :
    (d pre : Bytes) (room : ℕ) (chars : List Bytes)
    → All IsCharacter chars
    → length pre + room + 1 ≡ length d
    → copy_from (length d) (terminated (join chars)) 0 (length pre) (memcpy d pre)
      ≡ copied (status_for room chars) d (pre ++ join (fitting room chars))
copy_from-join d pre room [] h e =
    copy_from_nul (length d) (length pre) [] (memcpy d pre)
    ∙ finish-memcpy le_ok d pre (omega arith)
    ∙ ap₂ (λ st t. copied st d t) (ground arith) (rw fitting-nil (sym (append-nil pre)))
copy_from-join d pre room ([] ∷ chars) h e = absurd h.0
copy_from-join d pre room ((c ∷ tail) ∷ chars) h e = elim (dec_le (suc (length tail)) room) [
  | yes fits ↦ rw (append_assoc (c ∷ tail) (join chars) (0 ∷ [])) (
      copy_from_character d (terminated (join chars)) pre c tail h.0 (omega arith)
      ∙ copy_from-join d (pre ++ c ∷ tail) (room - suc (length tail)) chars h.1
          (omega (arith, length-append pre (c ∷ tail)))
      ∙ ap₂ (λ st t. copied st d t) (ground (arith, length-append (c ∷ tail) (join chars)))
          (rw (fitting-some room (c ∷ tail) chars fits) (append_assoc pre (c ∷ tail) _)))
  | no full ↦
      copy_from_full d _ pre c tail h.0 (omega arith) (omega arith)
      ∙ ap₂ (λ st t. copied st d t) (ground (arith, length-append (c ∷ tail) (join chars)))
          (rw (fitting-none room (c ∷ tail) chars (omega arith)) (sym (append-nil pre)))
]

-- Where every character announces its length rightly, `utf8_Copy` into a buffer of the stated size
-- leaves the longest run of whole characters that fits with a terminator, reports its length, keeps
-- the rest of the buffer, and returns 0 exactly if that run is the whole string.
pub copy-join :
    (d : Bytes) (chars : List Bytes)
    → All IsCharacter chars
    → 0 < length d
    → copy d (terminated (join chars)) (length d)
      ≡ copied (status_for (length d - 1) chars) d (join (fitting (length d - 1) chars))
unfolding copy memcpy
copy-join d chars h pos = copy_from-join d [] (length d - 1) chars h (omega arith)

fitting_all :
    (room : ℕ) (chars : List Bytes) → length (join chars) ≤ room → fitting room chars ≡ chars
fitting_all room [] h = fitting-nil room
fitting_all room (ch ∷ chars) h =
    fitting-some room ch chars (omega (arith, length-append ch (join chars)))
    ∙ ap (λ t. ch ∷ t)
        (fitting_all (room - length ch) chars (omega (arith, length-append ch (join chars))))

-- A string that fits is copied whole.
pub copy-join_fits :
    (d : Bytes) (chars : List Bytes)
    → All IsCharacter chars
    → length (join chars) < length d
    → copy d (terminated (join chars)) (length d) ≡ copied le_ok d (join chars)
copy-join_fits d chars h lt =
    copy-join d chars h (omega arith)
    ∙ ap₂ (λ st t. copied st d t) (ground arith)
        (ap join (fitting_all (length d - 1) chars (omega arith)))
