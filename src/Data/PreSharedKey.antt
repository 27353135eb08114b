-- ===== src/Data/PreSharedKey.antt =====
-- `setPreSharedKeyParameter`: what it stores, and when it loses the key.
use wifiap_binding.Base.{
  ℕ, ◌+◌, ◌≤◌, ◌≡◌, ◌≢◌, ◌++◌, some, List, [], ◌∷◌, length, arith, done, fault, read_out_of_bounds,
  ltb, false, All, length-append,
}
use wifiap_binding.Base.Bytes.{Bytes, c_str, terminated, memcpy, c_str-memcpy}
use wifiap_binding.Utf8.{num_bytes_in_char}
use wifiap_binding.Utf8.Characters.{IsCharacter, join}
use wifiap_binding.Utf8.Malformed.{copy_bad_byte, copy_cut_character}
use wifiap_binding.Utf8.Ascii.{IsAscii, copy-ascii, IsAscii-IsCString}
use wifiap_binding.Data.Types.{WifiApT, no_error}
use wifiap_binding.Data.Setters.{set_pre_shared_key_parameter}
use wifiap_binding.Data.Calls.Invariant.{IsWellFormed}

module _ (w : WifiApT) (h : IsWellFormed w) where
  -- A key of at most 64 ASCII characters is stored whole.
  set_pre_shared_key_ascii :
      (s : Bytes)
      → IsAscii s
      → length s ≤ 64
      → (w' : WifiApT) × (set_pre_shared_key_parameter w (some s) ≡ done (no_error, w'))
        × (c_str w'.preshared_key ≡ s)
  unfolding set_pre_shared_key_parameter
  set_pre_shared_key_ascii s a lt =
      let fits : ltb 64 (length s) ≡ false = ground arith in
      (
        record w { preshared_key = memcpy w.preshared_key (terminated s) },
        rw (
          fits,
          rw h.preshared_key.size at
              (copy-ascii w.preshared_key s a (omega (arith, h.preshared_key.size))),
        ),
        c_str-memcpy w.preshared_key s (IsAscii-IsCString s a),
      )

  -- A key of at most 64 bytes in which, after whole characters, a byte stands that starts no
  -- character is reported as set without error, and the stored key is then empty.
  pub set_pre_shared_key_bad_byte :
      (chars : List Bytes) (c : ℕ) (rest : Bytes)
      → All IsCharacter chars
      → c ≢ 0
      → num_bytes_in_char c ≡ 0
      → length (join chars ++ c ∷ rest) ≤ 64
      → (w' : WifiApT) × (set_pre_shared_key_parameter w (some (join chars ++ c ∷ rest))
          ≡ done (no_error, w'))
        × (c_str w'.preshared_key ≡ [])
  unfolding set_pre_shared_key_parameter
  set_pre_shared_key_bad_byte chars c rest hc nonzero bad lt =
      let fits : ltb 64 (length (join chars ++ c ∷ rest)) ≡ false = ground arith in
      let size = h.preshared_key.size in
      let (r, copies, empty) =
        copy_bad_byte w.preshared_key chars c rest hc nonzero bad
          (omega (arith, size, length-append (join chars) (c ∷ rest))) in
      (record w { preshared_key = r.dest }, rw (fits, rw size at copies), empty)

  -- A key of whole characters, and then the first byte of a longer one, makes the setter read past
  -- its end, if the key would have at most 64 bytes with that character whole.
  pub set_pre_shared_key_cut :
      (chars : List Bytes) (c : ℕ)
      → All IsCharacter chars
      → c ≢ 0
      → 2 ≤ num_bytes_in_char c
      → length (join chars) + num_bytes_in_char c ≤ 64
      → set_pre_shared_key_parameter w (some (join chars ++ c ∷ [])) ≡ fault read_out_of_bounds
  unfolding set_pre_shared_key_parameter
  set_pre_shared_key_cut chars c hc nonzero two lt =
      let len : ltb 64 (length (join chars ++ c ∷ [])) ≡ false =
        ground (arith, length-append (join chars) (c ∷ [])) in
      rw (
        len,
        rw h.preshared_key.size at (
            copy_cut_character w.preshared_key chars c hc nonzero two
              (omega (arith, h.preshared_key.size))),
      )
