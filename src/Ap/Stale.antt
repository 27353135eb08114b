-- ===== src/Ap/Stale.antt =====
-- The channel test of `startAp`, after a change of the standard.
use wifiap_binding.Base.{ℕ, ◌%◌, ◌≤◌, ◌≡◌, refl, false, ◌||◌, done, arith, ltb}
use wifiap_binding.Base.Bits.{bit_and_nibble}
use wifiap_binding.Data.{set_channel_parameter, set_ieee_standard_parameter, channel_bounds}
use wifiap_binding.Data.Types.{WifiApT, no_error}
use wifiap_binding.Data.Standards.{IsHardwareMode}
use wifiap_binding.Threads.Links.{CdsList}
use wifiap_binding.Ap.{World}
use wifiap_binding.Ap.Start.{check_channel}

-- The channel lies within the bounds that the structure holds.
IsInBounds : WifiApT → Type 0
IsInBounds s = (s.min_channel_value ≤ s.channel_number) × (s.channel_number ≤ s.max_channel_value)

set_channel-IsInBounds :
    (s : WifiApT) (n : ℕ)
    → IsHardwareMode (s.ieee_std_mask % 16)
    → (set_channel_parameter s n).0 ≡ no_error
    → IsInBounds (set_channel_parameter s n).1
unfolding set_channel_parameter channel_bounds IsInBounds
set_channel-IsInBounds s n h ok = ground (arith, bit_and_nibble s.ieee_std_mask)

set_ieee_standard-IsInBounds :
    (s : WifiApT) (m : ℕ) → IsInBounds s → IsInBounds (set_ieee_standard_parameter s m).1
unfolding set_ieee_standard_parameter IsInBounds
set_ieee_standard-IsInBounds s m h = ground arith

module _ (L : CdsList) where
  check_channel-IsInBounds : (w : World L) → IsInBounds w.settings → check_channel L w ≡ done (0, w)
  unfolding check_channel IsInBounds
  check_channel-IsInBounds w h =
      let inside : (ltb w.settings.channel_number w.settings.min_channel_value
            || ltb w.settings.max_channel_value w.settings.channel_number)
          ≡ false =
        ground arith in
      rw inside refl

  -- Once a channel is accepted in one hardware mode, the channel test of `startAp` passes whatever
  -- standard `setIeeeStandardParameter` is asked to set after that.
  pub check_channel_stale :
      (s : WifiApT) (n m : ℕ) (w : World L)
      → IsHardwareMode (s.ieee_std_mask % 16)
      → (set_channel_parameter s n).0 ≡ no_error
      → w.settings ≡ (set_ieee_standard_parameter (set_channel_parameter s n).1 m).1
      → check_channel L w ≡ done (0, w)
  check_channel_stale s n m w h ok e =
      let after = (set_channel_parameter s n).1 in
      check_channel-IsInBounds w
        (rw e (set_ieee_standard-IsInBounds after m (set_channel-IsInBounds s n h ok)))
