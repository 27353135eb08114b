-- ===== src/Utf8/Append.antt =====
-- What `utf8_Append` does on a string of whole characters that fits.
use wifiap_binding.Base.{
  ℕ, zero, suc, ◌≤◌, ◌+◌, ◌-◌, ◌<◌, ◌≡◌, refl, ◌++◌, List, [], ◌∷◌, done, length, take, drop, arith,
  All, ap, length-append, length-drop, ◌∙◌,
}
use wifiap_binding.Base.Bytes.{
  Bytes, c_str, terminated, memcpy, IsCString, c_str-memcpy, c_str-take, length-memcpy,
  length-terminated,
}
use wifiap_binding.Utf8.{append, Copied, le_ok}
use wifiap_binding.Utf8.Characters.{IsCharacter, join, copy-join_fits}

-- The outcome of an appending that has room for the text.
abbrev pub appended : Bytes → Bytes → Copied
appended d text = record {
  status = le_ok;
  dest = take (length (c_str d)) d ++ memcpy (drop (length (c_str d)) d) (terminated text);
  num_bytes = length text + length (c_str d);
}

append-join_lem :
    (d : Bytes) (chars : List Bytes)
    → All IsCharacter chars
    → length (c_str d) + length (join chars) < length d
    → append d (terminated (join chars)) (length d) ≡ done (appended d (join chars))
unfolding append
append-join_lem d chars h lt = rw (← length-drop (length (c_str d)) d) (
    rw (
      copy-join_fits (drop (length (c_str d)) d) chars h
        (omega (arith, length-drop (length (c_str d)) d))))

length-take_le : (n : ℕ) (b : Bytes) → n ≤ length b → length (take n b) ≡ n
length-take_le zero b h = refl
length-take_le (suc n) [] h = absurd (omega arith)
length-take_le (suc n) (x ∷ b) h = ap suc (length-take_le n b (omega arith))

-- A string of whole characters that fits with the one in the buffer is appended to it by
-- `utf8_Append`: it returns 0 and the joint length, and the buffer keeps its size.
pub append-join :
    (d : Bytes) (chars : List Bytes)
    → All IsCharacter chars
    → IsCString (join chars)
    → length (c_str d) + length (join chars) < length d
    → (r : Copied) × (append d (terminated (join chars)) (length d) ≡ done r)
      × (r.status ≡ le_ok)
      × (c_str r.dest ≡ c_str d ++ join chars)
      × (r.num_bytes ≡ length (c_str r.dest))
      × (length r.dest ≡ length d)
append-join d chars h cs lt =
    let text = join chars in
    let tail = drop (length (c_str d)) d in
    let view : c_str (appended d text).dest ≡ c_str d ++ text =
      c_str-take d (memcpy tail (terminated text))
      ∙ ap (λ t. c_str d ++ t) (c_str-memcpy tail text cs) in
    let left : length tail ≡ length d - length (c_str d) = length-drop (length (c_str d)) d in
    (
      appended d text,
      append-join_lem d chars h lt,
      refl,
      view,
      rw view (omega (arith, length-append (c_str d) text)),
      omega (
        arith,
        length-append (take (length (c_str d)) d) (memcpy tail (terminated text)),
        length-take_le (length (c_str d)) d (omega arith),
        length-memcpy tail (terminated text) (omega (arith, length-terminated text)),
        left,
      ),
    )
