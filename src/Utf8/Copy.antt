-- ===== src/Utf8/Copy.antt =====
-- What `utf8_Copy` does on every byte string, and on strings of whole characters.
use wifiap_binding.Base.{
  ℕ, zero, suc, ◌+◌, ◌-◌, ◌≤◌, ◌<◌, ◌≡◌, refl, [], ◌∷◌, Outcome, done, fault, ap,
  read_out_of_bounds, ◌==◌, leb, length, arith, Bool-cases, inl, inr,
}
use wifiap_binding.Base.Bytes.{Bytes, c_str, IsBuffer}
use wifiap_binding.Utf8.{
  num_bytes_in_char, store, CopyStatus, le_ok, le_overflow, Copied, finish, copy_from, copy,
}

-- A write inside the buffer succeeds and keeps the size; a written terminator ends the string.
record StoredAt (b : Bytes) (i v : ℕ) : Type 0 where
  after : Bytes
  stored : store b i v ≡ done after
  size : length after ≡ length b
  ends : v ≡ 0 → length (c_str after) ≤ i

store_in_bounds : (b : Bytes) (i v : ℕ) → i < length b → StoredAt b i v
unfolding store c_str
store_in_bounds [] i v h = absurd (omega arith)
store_in_bounds (x ∷ b) zero v h = record {
  after = v ∷ b;
  stored = refl;
  size = refl;
  ends = λ e. ground arith;
}
store_in_bounds (x ∷ b) (suc i) v h =
    let r = store_in_bounds b i v (omega arith) in
    record {
      after = x ∷ r.after;
      stored = rw r.stored;
      size = ap suc r.size;
      ends = λ e. ground (arith, r.ends e);
    }

-- The call returns with a terminated string in the buffer, or it has read past the source.
abbrev pub StaysInBuffer : ℕ → Outcome Copied → Type 0
StaysInBuffer n (done r) = IsBuffer n r.dest × (r.num_bytes < n)
StaysInBuffer n (fault e) = e ≡ read_out_of_bounds

finish-StaysInBuffer :
    (n : ℕ) (status : CopyStatus) (dest : Bytes) (i : ℕ)
    → length dest ≡ n
    → i < n
    → StaysInBuffer n (finish status dest i)
unfolding finish
finish-StaysInBuffer n status dest i h lt =
    let r = store_in_bounds dest i 0 (omega arith) in
    rw r.stored
      (record { size = omega (arith, r.size); has_terminator = omega (arith, r.ends refl) }, lt)

copy_from-StaysInBuffer :
    (n : ℕ) (src : Bytes) (pending i : ℕ) (dest : Bytes)
    → length dest ≡ n
    → 0 < n
    → pending + i < n
    → StaysInBuffer n (copy_from n src pending i dest)
unfolding copy_from
copy_from-StaysInBuffer n [] pending i dest h pos lt = refl
copy_from-StaysInBuffer n (c ∷ src) (suc pending) i dest h pos lt =
    let r = store_in_bounds dest i c (omega arith) in
    rw r.stored (
      copy_from-StaysInBuffer n src pending (i + 1) r.after (omega (arith, r.size)) pos
        (omega arith))
copy_from-StaysInBuffer n (c ∷ src) zero i dest h pos lt = elim (Bool-cases (c == 0)) [
  | inl nul ↦ rw nul (finish-StaysInBuffer n le_ok dest i h (omega arith))
  | inr char ↦ rw char (elim (Bool-cases (num_bytes_in_char c == 0)) [
    | inl bad ↦ rw bad (
        let r = store_in_bounds dest 0 0 (omega arith) in
        rw r.stored (
          record { size = omega (arith, r.size); has_terminator = omega (arith, r.ends refl) },
          pos,
        ))
    | inr good ↦ rw good (elim (Bool-cases (leb n (num_bytes_in_char c + i))) [
      | inl full ↦ rw full (finish-StaysInBuffer n le_overflow dest i h (omega arith))
      | inr room ↦ rw room (
          let r = store_in_bounds dest i c (omega arith) in
          rw r.stored (
            copy_from-StaysInBuffer n src (num_bytes_in_char c - 1) (i + 1) r.after
              (omega (arith, r.size)) pos (ground arith)))
    ])
  ])
]

-- Whatever the bytes of the source, `utf8_Copy` into a buffer of the stated size leaves a terminated
-- string in that buffer and reports fewer bytes than its size, unless it reads past the source: it
-- never writes outside the buffer.
pub copy-StaysInBuffer :
    (dest src : Bytes) (dest_size : ℕ)
    → length dest ≡ dest_size
    → 0 < dest_size
    → StaysInBuffer dest_size (copy dest src dest_size)
unfolding copy
copy-StaysInBuffer dest src n h pos = copy_from-StaysInBuffer n src 0 0 dest h pos (omega arith)
