-- ===== src/Data/Spec/Keys.antt =====
-- The setters of the pre-shared key and of the address range of src/lib/wifi-ap-data.c, against the
-- documented settings.
use wifiap_binding.Base.{
  ◌≡◌, refl, inl, inr, ap, true, false, ◌||◌, some, length, ltb, arith, done, Bool-cases,
}
use wifiap_binding.Base.Bytes.{Bytes, memcpy, terminated, c_str-memcpy}
use wifiap_binding.Utf8.Ascii.{IsAscii, copy-ascii, IsAscii-IsCString}
use wifiap_binding.Data.Types.{WifiApT, no_error, error_too_small, error_too_large}
use wifiap_binding.Data.Setters.{
  set_pre_shared_key_parameter, set_ip_range_parameters, too_short, too_long,
}
use wifiap_binding.Data.Calls.Invariant.{IsWellFormed}
use wifiap_binding.Data.Addresses.{with_addresses, set_ip_range_lem}
use wifiap_binding.Data.Spec.{view, IsFit, Change, changed}
use wifiap_binding.Data.Spec.Values.{Refines}

module _ (w : WifiApT) (a b c d : Bytes) where
  range_short :
      (too_short a || too_short b || too_short c || too_short d) ≡ true
      → set_ip_range_parameters w (some a) (some b) (some c) (some d) ≡ done (error_too_small, w)
  unfolding set_ip_range_parameters
  range_short e = rw e refl

  range_long :
      (too_short a || too_short b || too_short c || too_short d) ≡ false
      → (too_long a || too_long b || too_long c || too_long d) ≡ true
      → set_ip_range_parameters w (some a) (some b) (some c) (some d) ≡ done (error_too_large, w)
  unfolding set_ip_range_parameters
  range_long e long = rw e (rw long refl)

module _ (w : WifiApT) (h : IsWellFormed w) where
  pub key-Refines :
      (s : Bytes)
      → IsAscii s
      → Refines (Change.pre_shared_key s) w (set_pre_shared_key_parameter w (some s))
  unfolding set_pre_shared_key_parameter changed
  key-Refines s a = elim (Bool-cases (ltb 64 (length s))) [
    | inl long ↦ rw long ((error_too_large, w), refl, inr ((λ p. ground arith), (λ e. cc), refl))
    | inr fits ↦ (
      (no_error, record w { preshared_key = memcpy w.preshared_key (terminated s) }),
      rw (fits, rw h.preshared_key.size at (copy-ascii w.preshared_key s a (ground arith))),
      inl (
        ground arith,
        refl,
        ap (λ t. record (view w) { preshared_key = t })
            (c_str-memcpy w.preshared_key s (IsAscii-IsCString s a)),
      ),
    )
  ]

  pub range-Refines :
      (a b c d : Bytes)
      → IsAscii a × IsAscii b × IsAscii c × IsAscii d
      → Refines
          (Change.ip_range a b c d)
          w
          (set_ip_range_parameters w (some a) (some b) (some c) (some d))
  unfolding changed
  range-Refines a b c d (pa, pb, pc, pd) =
      elim (Bool-cases (too_short a || too_short b || too_short c || too_short d)) [
        | inl short ↦ (
          (error_too_small, w),
          range_short w a b c d short,
          inr ((λ p. ground arith), (λ e. cc), refl),
        )
        | inr enough ↦ elim (Bool-cases (too_long a || too_long b || too_long c || too_long d)) [
          | inl long ↦ (
            (error_too_large, w),
            range_long w a b c d enough long,
            inr ((λ p. ground arith), (λ e. cc), refl),
          )
          | inr fits ↦
              let fa : IsFit 1 15 a = ground arith in
              let fb : IsFit 1 15 b = ground arith in
              let fc : IsFit 1 15 c = ground arith in
              let fd : IsFit 1 15 d = ground arith in
              let ea = c_str-memcpy w.ip_ap a (IsAscii-IsCString a pa) in
              let eb = c_str-memcpy w.ip_start b (IsAscii-IsCString b pb) in
              let ec = c_str-memcpy w.ip_stop c (IsAscii-IsCString c pc) in
              let ed = c_str-memcpy w.ip_netmask d (IsAscii-IsCString d pd) in
              (
                (no_error, with_addresses w a b c d),
                set_ip_range_lem w h a b c d (pa, fa.0, fa.1) (pb, fb.0, fb.1) (pc, fc.0, fc.1)
                    (pd, fd.0, fd.1),
                inl (
                  (fa, fb, fc, fd),
                  refl,
                  λ i. record (view w) {
                    ip_ap = ea i;
                    ip_start = eb i;
                    ip_stop = ec i;
                    ip_netmask = ed i;
                  },
                ),
              )
        ]
      ]
