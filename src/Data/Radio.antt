-- ===== src/Data/Radio.antt =====
-- src/lib/wifi-ap-data.c: the IEEE standard mask and the channel. A `uint32_t` argument is a number
-- below 2 ^ 32.
use Prim.Native.Nat.{bit_and}
use wifiap_binding.Base.{
  ℕ, ◌+◌, ◌-◌, ◌%◌, ◌^◌, ◌&&◌, not, Option, none, some, ltb, ◌==◌, if◌then◌else◌,
}
use wifiap_binding.Data.Types.{
  WifiApT, Status, no_error, error_too_small, error_too_large, error_no_hard, error_many_hard,
  error_std_ac, error_std_h, bitmask_ieee_std_a, bitmask_ieee_std_b, bitmask_ieee_std_g,
  bitmask_ieee_std_ad, bitmask_ieee_std_d, bitmask_ieee_std_h, bitmask_ieee_std_ac,
  min_channel_value_def, max_channel_value_def, min_channel_std_a, max_channel_std_a,
  min_channel_std_ad, max_channel_std_ad,
}

-- The channels that the `switch` on the hardware mode sets; `none` where it only warns.
unfoldable pub channel_bounds : ℕ → Option (ℕ × ℕ)
channel_bounds hw_mode =
    if hw_mode == bitmask_ieee_std_a
    then some (min_channel_std_a, max_channel_std_a)
    else if hw_mode == bitmask_ieee_std_b
    then some (min_channel_value_def, max_channel_value_def)
    else if hw_mode == bitmask_ieee_std_g
    then some (min_channel_value_def, max_channel_value_def)
    else if hw_mode == bitmask_ieee_std_ad
    then some (min_channel_std_ad, max_channel_std_ad)
    else none

with_bounds : WifiApT → Option (ℕ × ℕ) → WifiApT
with_bounds w none = w
with_bounds w (some (min, max)) = record w { min_channel_value = min; max_channel_value = max }

-- The tests behind the `switch`.
choose_channel : WifiApT → ℕ → Status × WifiApT
choose_channel w channel_number =
    if ltb channel_number w.min_channel_value
    then (error_too_small, w)
    else if ltb w.max_channel_value channel_number
    then (error_too_large, w)
    else (no_error, record w { channel_number = channel_number % 2 ^ 16 })

unfoldable pub set_channel_parameter : WifiApT → ℕ → Status × WifiApT
unfolding with_bounds choose_channel
set_channel_parameter w channel_number =
    choose_channel (with_bounds w (channel_bounds (bit_and w.ieee_std_mask 0x0F))) channel_number

-- The four hardware bits, `A | B | G | AD`.
abbrev pub hardware_bits : ℕ
hardware_bits = bitmask_ieee_std_a + bitmask_ieee_std_b + bitmask_ieee_std_g + bitmask_ieee_std_ad

unfoldable pub set_ieee_standard_parameter : WifiApT → ℕ → Status × WifiApT
set_ieee_standard_parameter w std_mask =
    let check = bit_and std_mask hardware_bits in
    if check == 0
    then (error_no_hard, w)
    else if not (bit_and check (check - 1) == 0)
    then (error_many_hard, w)
    else if not (bit_and std_mask bitmask_ieee_std_ac == 0)
        && bit_and std_mask bitmask_ieee_std_a == 0
    then (error_std_ac, w)
    else if not (bit_and std_mask bitmask_ieee_std_h == 0)
        && bit_and std_mask bitmask_ieee_std_d == 0
    then (error_std_h, w)
    else (no_error, record w { ieee_std_mask = std_mask })
