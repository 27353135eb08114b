-- ===== src/Utf8/Malformed.antt =====
-- What `utf8_Copy` does on a string that is cut inside a character, or has a bad byte.
use mathlib.Core.List.{append_assoc, append-nil}
use wifiap_binding.Base.{
  ℕ, suc, ◌+◌, ◌-◌, ◌≤◌, ◌<◌, ◌≡◌, refl, ◌++◌, List, [], ◌∷◌, done, fault, ap, read_out_of_bounds,
  ◌==◌, leb, length, arith, All, length-append, ◌≢◌, false, ◌∙◌,
}
use wifiap_binding.Base.Bytes.{Bytes, c_str, terminated, memcpy, length-memcpy}
use wifiap_binding.Utf8.{num_bytes_in_char, store, le_ok, Copied, copy_from, copy}
use wifiap_binding.Utf8.Characters.{
  IsCharacter, join, store-memcpy, length-snoc, copy_from_character,
}

copy_from-characters :
    (d src pre : Bytes) (chars : List Bytes)
    → All IsCharacter chars
    → length pre + length (join chars) < length d
    → copy_from (length d) (join chars ++ src) 0 (length pre) (memcpy d pre)
      ≡ copy_from (length d) src 0 (length (pre ++ join chars)) (memcpy d (pre ++ join chars))
copy_from-characters d src pre [] h lt = rw (append-nil pre)
copy_from-characters d src pre ([] ∷ chars) h lt = absurd h.0
copy_from-characters d src pre ((c ∷ tail) ∷ chars) h lt =
    rw (append_assoc (c ∷ tail) (join chars) src) (
      copy_from_character d (join chars ++ src) pre c tail h.0
        (omega (arith, length-append (c ∷ tail) (join chars)))
      ∙ copy_from-characters d src (pre ++ c ∷ tail) chars h.1
          (omega (arith, length-append (c ∷ tail) (join chars), length-append pre (c ∷ tail)))
      ∙ rw (append_assoc pre (c ∷ tail) (join chars)))

-- A first byte of several, alone before the terminator: the terminator is copied as its
-- continuation, and the next read is past the end.
copy_from_cut :
    (d pre : Bytes) (c k : ℕ)
    → c ≢ 0
    → num_bytes_in_char c ≡ suc (suc k)
    → length pre + suc (suc k) < length d
    → copy_from (length d) (c ∷ 0 ∷ []) 0 (length pre) (memcpy d pre) ≡ fault read_out_of_bounds
unfolding copy_from
copy_from_cut d pre c k nonzero len h =
    let start : (c == 0) ≡ false = ground arith in
    let valid : (suc (suc k) == 0) ≡ false = ground arith in
    let room : leb (length d) (suc (suc k) + length pre) ≡ false = ground arith in
    let left : suc (suc k) - 1 ≡ suc k = omega arith in
    rw (len, start, valid, room, left, store-memcpy d pre c (omega arith), ← length-snoc pre c)
      (rw (store-memcpy d (pre ++ c ∷ []) 0 (omega (arith, length-snoc pre c))))

-- On a string that ends with the first byte of a longer character, after whole characters, if all fit, `utf8_Copy` reads past
-- the end of the string's memory.
pub copy_cut_character :
    (d : Bytes) (chars : List Bytes) (c : ℕ)
    → All IsCharacter chars
    → c ≢ 0
    → 2 ≤ num_bytes_in_char c
    → length (join chars) + num_bytes_in_char c < length d
    → copy d (terminated (join chars ++ c ∷ [])) (length d) ≡ fault read_out_of_bounds
unfolding copy memcpy
copy_cut_character d chars c h nonzero two lt = rw (append_assoc (join chars) (c ∷ []) (0 ∷ [])) (
    copy_from-characters d (c ∷ 0 ∷ []) [] chars h (omega arith)
    ∙ copy_from_cut d (join chars) c (num_bytes_in_char c - 2) nonzero (omega arith) (omega arith))

store_first : (x v : ℕ) (b : Bytes) → store (x ∷ b) 0 v ≡ done (v ∷ b)
unfolding store
store_first x v b = refl

copy_from_bad :
    (n i c : ℕ) (src : Bytes) (x : ℕ) (b : Bytes)
    → c ≢ 0
    → num_bytes_in_char c ≡ 0
    → copy_from n (c ∷ src) 0 i (x ∷ b)
      ≡ done (record { status = le_ok; dest = 0 ∷ b; num_bytes = 0 })
unfolding copy_from
copy_from_bad n i c src x b nonzero bad =
    let start : (c == 0) ≡ false = ground arith in rw (bad, start, store_first x 0 b)

-- At a byte that starts no character, after whole characters that fit, `utf8_Copy` empties the
-- destination and returns 0.
pub copy_bad_byte :
    (d : Bytes) (chars : List Bytes) (c : ℕ) (rest : Bytes)
    → All IsCharacter chars
    → c ≢ 0
    → num_bytes_in_char c ≡ 0
    → length (join chars) < length d
    → (r : Copied) × (copy d (terminated (join chars ++ c ∷ rest)) (length d) ≡ done r)
      × (c_str r.dest ≡ [])
unfolding copy memcpy c_str
copy_bad_byte d chars c rest h nonzero bad lt = empties (memcpy d (join chars)) refl
  where
    empties :
        (b : Bytes)
        → memcpy d (join chars) ≡ b
        → (r : Copied) × (copy d (terminated (join chars ++ c ∷ rest)) (length d) ≡ done r)
          × (c_str r.dest ≡ [])
    empties [] e = absurd (omega (arith, length-memcpy d (join chars) (omega arith), ap length e))
    empties (x ∷ b) e = (
      record { status = le_ok; dest = 0 ∷ b; num_bytes = 0 },
      rw (append_assoc (join chars) (c ∷ rest) (0 ∷ [])) (
          copy_from-characters d (c ∷ terminated rest) [] chars h (omega arith)
          ∙ rw e (copy_from_bad (length d) _ c (terminated rest) x b nonzero bad)),
      refl,
    )
