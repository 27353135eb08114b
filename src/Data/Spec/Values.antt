-- ===== src/Data/Spec/Values.antt =====
-- The setters of values of src/lib/wifi-ap-data.c, against the documented settings.
use mathlib.Core.Path.{ap₂, sym}
use wifiap_binding.Base.{
  ℕ, ◌%◌, ◌≡◌, ◌⊎◌, refl, inl, inr, ap, true, false, Option, some, arith, Outcome, done, Bool-cases,
}
use wifiap_binding.Base.Bytes.{Bytes, codes}
use wifiap_binding.Data.Types.{
  WifiApT, Status, no_error, error_invalid, security_none, security_wpa2,
}
use wifiap_binding.Data.Setters.{set_max_number_clients, set_security_protocol_parameter, same_text}
use wifiap_binding.Data.Calls.Defs.{perform}
use wifiap_binding.Data.Calls.Defs.{Call}
use wifiap_binding.Data.Calls.Rejection.{with_bounds_of, perform-Rejects}
use wifiap_binding.Data.Radio.{set_channel_parameter, set_ieee_standard_parameter}
use wifiap_binding.Data.Standards.{IsHardwareMode, set_ieee_standard_accepts, set_channel_accepts}
use wifiap_binding.Data.Stored.{Status-cases, mask_lem, channel_lem}
use wifiap_binding.Data.Spec.{view, Change, changed, Meets}

-- The call returns, and meets the documentation.
abbrev pub Refines : Change → WifiApT → Outcome (Status × WifiApT) → Type 0
Refines c w m = (r : Status × WifiApT) × (m ≡ done r) × Meets c (view w) r.0 (view r.1)

refuted : ¬ ((false ≡ true) ⊎ (false ≡ true))
refuted (inl e) = cc
refuted (inr e) = cc

module _ (w : WifiApT) where
  -- Settings that differ in the channel bounds stand for the same.
  same_view : (w' : WifiApT) → with_bounds_of w w' ≡ w → view w' ≡ view w
  same_view w' e = ap view e

  pub max_clients-Meets :
      (n : ℕ)
      → Meets
          (Change.max_clients n)
          (view w)
          (set_max_number_clients w n).0
          (view (set_max_number_clients w n).1)
  unfolding set_max_number_clients changed
  max_clients-Meets n = ground arith

  pub mask-Meets :
      (strdup : Bytes → Option Bytes) (m : ℕ)
      → Meets
          (Change.ieee_standard m)
          (view w)
          (set_ieee_standard_parameter w m).0
          (view (set_ieee_standard_parameter w m).1)
  unfolding changed perform
  mask-Meets strdup m = elim (Status-cases (set_ieee_standard_parameter w m).0) [
    | inl good ↦
        let stored = mask_lem w m good in
        inl (
          (set_ieee_standard_accepts w m).0 (ap₂ (λ s v. (s, v)) good (sym stored)),
          good,
          ap view (sym stored),
        )
    | inr bad ↦ inr (
      (λ p. bad (ap (λ r. r.0) ((set_ieee_standard_accepts w m).1 p))),
      bad,
      same_view (set_ieee_standard_parameter w m).1
          (perform-Rejects strdup (Call.ieee_standard m) w bad),
    )
  ]

  pub channel-Meets :
      (strdup : Bytes → Option Bytes) (n : ℕ)
      → IsHardwareMode (w.ieee_std_mask % 16)
      → Meets
          (Change.channel n)
          (view w)
          (set_channel_parameter w n).0
          (view (set_channel_parameter w n).1)
  unfolding changed perform
  channel-Meets strdup n mode = elim (Status-cases (set_channel_parameter w n).0) [
    | inl good ↦
        let (lo, hi, stored) = channel_lem w n mode good in
        inl ((set_channel_accepts w n mode).0.0 good, good, ap view (sym stored))
    | inr bad ↦ inr (
      (λ p. bad ((set_channel_accepts w n mode).0.1 p)),
      bad,
      same_view (set_channel_parameter w n).1 (perform-Rejects strdup (Call.channel n) w bad),
    )
  ]

  pub protocol-Refines :
      (s : Bytes)
      → Refines (Change.security_protocol s) w (set_security_protocol_parameter w (some s))
  unfolding set_security_protocol_parameter changed
  protocol-Refines s = elim (Bool-cases (same_text s (codes "none"))) [
    | inl none_asked ↦ rw none_asked (
      (no_error, record w { security_protocol = security_none }),
      refl,
      inl (inl refl, refl, refl),
    )
    | inr other ↦ rw other (elim (Bool-cases (same_text s (codes "WPA2"))) [
      | inl wpa ↦ rw wpa (
        (no_error, record w { security_protocol = security_wpa2 }),
        refl,
        inl (inr refl, refl, refl),
      )
      | inr unknown ↦ rw unknown ((error_invalid, w), refl, inr (refuted, (λ e. cc), refl))
    ])
  ]
