-- ===== src/Data/Stored.antt =====
-- What the setters of numbers of src/lib/wifi-ap-data.c store.
use wifiap_binding.Base.{ℕ, ◌≤◌, ◌≡◌, ◌≢◌, ◌⊎◌, refl, inl, inr, ◌%◌, arith}
use wifiap_binding.Base.Bits.{bit_and_nibble}
use wifiap_binding.Data.Types.{WifiApT, Status, no_error}
use wifiap_binding.Data.Setters.{set_max_number_clients}
use wifiap_binding.Data.Radio.{channel_bounds, set_channel_parameter, set_ieee_standard_parameter}
use wifiap_binding.Data.Standards.{IsHardwareMode}

-- What the three setters of numbers come to when they accept.
pub clients_lem :
    (w : WifiApT) (n : ℕ)
    → (set_max_number_clients w n).0 ≡ no_error
    → (1 ≤ n) × (n ≤ 1000) × (record w { max_number_client = n } ≡ (set_max_number_clients w n).1)
unfolding set_max_number_clients
clients_lem w n h = ground arith

pub mask_lem :
    (w : WifiApT) (m : ℕ)
    → (set_ieee_standard_parameter w m).0 ≡ no_error
    → record w { ieee_std_mask = m } ≡ (set_ieee_standard_parameter w m).1
unfolding set_ieee_standard_parameter
mask_lem w m h = ground arith

pub channel_lem :
    (w : WifiApT) (n : ℕ)
    → IsHardwareMode (w.ieee_std_mask % 16)
    → (set_channel_parameter w n).0 ≡ no_error
    → (lo : ℕ) × (hi : ℕ) × (record w {
      min_channel_value = lo;
      max_channel_value = hi;
      channel_number = n;
    }
        ≡ (set_channel_parameter w n).1)
unfolding set_channel_parameter channel_bounds
channel_lem w n mask h = (
  (set_channel_parameter w n).1.min_channel_value,
  (set_channel_parameter w n).1.max_channel_value,
  ground (arith, bit_and_nibble w.ieee_std_mask),
)

pub mask_refused :
    (w : WifiApT) (m : ℕ)
    → (set_ieee_standard_parameter w m).0 ≢ no_error
    → w ≡ (set_ieee_standard_parameter w m).1
unfolding set_ieee_standard_parameter
mask_refused w m h = ground arith

pub Status-cases : (s : Status) → (s ≡ no_error) ⊎ (s ≢ no_error)
Status-cases no_error = inl refl
Status-cases Status.error_invalid = inr (λ e. cc)
Status-cases Status.error_oom = inr (λ e. cc)
Status-cases Status.error_too_small = inr (λ e. cc)
Status-cases Status.error_too_large = inr (λ e. cc)
Status-cases Status.error_no_hard = inr (λ e. cc)
Status-cases Status.error_many_hard = inr (λ e. cc)
Status-cases Status.error_std_ac = inr (λ e. cc)
Status-cases Status.error_std_h = inr (λ e. cc)
