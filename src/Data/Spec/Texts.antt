-- ===== src/Data/Spec/Texts.antt =====
-- The setters of texts of src/lib/wifi-ap-data.c, against the documented settings.
use wifiap_binding.Base.{
  ℕ, ◌≤◌, ◌≡◌, ◌≢◌, ◌⊎◌, refl, inl, inr, ap, Option, some, [], ◌∷◌, length, arith,
}
use wifiap_binding.Base.Bytes.{Bytes, c_str, IsCString}
use wifiap_binding.Utf8.Ascii.{IsAscii, IsAscii-IsCString}
use wifiap_binding.Data.Types.{Status, no_error}
use wifiap_binding.Data.Setters.{set_string_copy, set_buffer}
use wifiap_binding.Data.Calls.Buffers.{set_buffer_cases}
use wifiap_binding.Data.Spec.{Settings, IsFit}

-- A `strdup` that does not run out of memory.
abbrev pub Works : (Bytes → Option Bytes) → Type 0
Works strdup = (s : Bytes) → strdup s ≡ some s

name_cases :
    (strdup : Bytes → Option Bytes) (dest : Option Bytes) (s : Bytes)
    → Works strdup
    → ((1 ≤ length s)
        × ((set_string_copy strdup dest (some s)).0 ≡ no_error)
        × ((set_string_copy strdup dest (some s)).1 ≡ some s))
      ⊎ (¬ (1 ≤ length s)
          × ((set_string_copy strdup dest (some s)).0 ≢ no_error)
          × ((set_string_copy strdup dest (some s)).1 ≡ dest))
unfolding set_string_copy
name_cases strdup dest [] works = inr ((λ p. omega arith), (λ e. cc), refl)
name_cases strdup dest (c ∷ s) works =
    inl (omega arith, rw (works (c ∷ s)) refl, rw (works (c ∷ s)) refl)

text_cases :
    (dest s : Bytes) (lo hi : ℕ)
    → IsCString s
    → (IsFit lo hi s
        × ((set_buffer dest (some s) lo hi).0 ≡ no_error)
        × (c_str (set_buffer dest (some s) lo hi).1 ≡ s))
      ⊎ (¬ IsFit lo hi s
          × ((set_buffer dest (some s) lo hi).0 ≢ no_error)
          × (c_str (set_buffer dest (some s) lo hi).1 ≡ c_str dest))
text_cases dest s lo hi h = elim (set_buffer_cases dest (some s) lo hi h) [
  | inl (low, high, e, stored) ↦ inl ((low, high), e, stored)
  | inr (inl (short, e, same)) ↦ inr ((λ p. omega (arith, p)), (λ good. cc), ap c_str same)
  | inr (inr (enough, long, e, same)) ↦ inr ((λ p. omega (arith, p)), (λ good. cc), ap c_str same)
]

-- A part of the settings that is replaced, or kept.
replaced {ℓ} :
    {A : Type ℓ} {P : Type 0} {sts : Status} (put : A → Settings) (new s old : A)
    → (P × (sts ≡ no_error) × (new ≡ s)) ⊎ (¬ P × (sts ≢ no_error) × (new ≡ old))
    → (P × (sts ≡ no_error) × (put new ≡ put s)) ⊎ (¬ P × (sts ≢ no_error) × (put new ≡ put old))
replaced put new s old (inl (p, e, same)) = inl (p, e, ap put same)
replaced put new s old (inr (p, e, same)) = inr (p, e, ap put same)

-- A name, or a text in an array, that is set in settings.
pub stored_name :
    (strdup : Bytes → Option Bytes) (put : Option Bytes → Settings) (dest : Option Bytes)
    (s : Bytes)
    → Works strdup
    → let r = set_string_copy strdup dest (some s) in
      ((1 ≤ length s) × (r.0 ≡ no_error) × (put r.1 ≡ put (some s)))
      ⊎ (¬ (1 ≤ length s) × (r.0 ≢ no_error) × (put r.1 ≡ put dest))
stored_name strdup put dest s works = replaced put _ (some s) dest (name_cases strdup dest s works)

pub stored_text :
    (put : Bytes → Settings) (dest s : Bytes) (lo hi : ℕ)
    → IsAscii s
    → let r = set_buffer dest (some s) lo hi in
      (IsFit lo hi s × (r.0 ≡ no_error) × (put (c_str r.1) ≡ put s))
      ⊎ (¬ IsFit lo hi s × (r.0 ≢ no_error) × (put (c_str r.1) ≡ put (c_str dest)))
stored_text put dest s lo hi a =
    replaced put _ s (c_str dest) (text_cases dest s lo hi (IsAscii-IsCString s a))
