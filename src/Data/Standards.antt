-- ===== src/Data/Standards.antt =====
-- Which IEEE masks and channels the setters accept.
use Prim.Native.Nat.{bit_and}
use wifiap_binding.Base.{
  ℕ, ◌-◌, ◌%◌, ◌≤◌, ◌<◌, ◌≡◌, ◌≢◌, ◌↔◌, ◌⊎◌, refl, Bool, true, false, not, ◌&&◌, ◌||◌, arith, ◌==◌,
  passes_below, passes_below→test,
}
use wifiap_binding.Base.Bits.{
  bit, bit_and_nibble, bit_and_bit4, bit_and_bit5, bit_and_bit7, bit_and-one,
}
use wifiap_binding.Data.Types.{WifiApT, no_error}
use wifiap_binding.Data.Radio.{channel_bounds, set_channel_parameter, set_ieee_standard_parameter}

-- Exactly one of the four hardware modes: 1 is A, 2 is B, 4 is G and 8 is AD.
abbrev pub IsHardwareMode : ℕ → Type 0
IsHardwareMode n = (n ≡ 1) ⊎ (n ≡ 2) ⊎ (n ≡ 4) ⊎ (n ≡ 8)

-- A mask that the documentation allows: one hardware mode; AC only with mode A; H only with D.
abbrev pub IsIeeeMask : ℕ → Type 0
IsIeeeMask m = IsHardwareMode (m % 16) × (bit 7 m ≡ 1 → m % 16 ≡ 1) × (bit 5 m ≡ 1 → bit 4 m ≡ 1)

-- `check & (check - 1)` is zero on a number with one bit.
abbrev single_bit : ℕ → Bool
single_bit n = n == 1 || n == 2 || n == 4 || n == 8

abbrev same_bool : Bool → Bool → Bool
same_bool true b = b
same_bool false b = not b

single_bit_table :
    passes_below (λ n. same_bool (single_bit n) (not (n == 0) && bit_and n (n - 1) == 0)) 16 ≡ true
unfolding passes_below
single_bit_table = refl

-- The code's two tests of the hardware bits find the hardware modes.
pub single_bit_lem : (n : ℕ) → n < 16 → (not (n == 0) && bit_and n (n - 1) == 0) ≡ single_bit n
single_bit_lem n lt = ground (arith, passes_below→test _ 16 n lt single_bit_table)

-- `setIeeeStandardParameter` accepts a mask, and then stores it, exactly if the mask has one of the
-- four hardware modes, sets AC only in mode A, and H only together with D.
pub set_ieee_standard_accepts :
    (w : WifiApT) (m : ℕ)
    → (set_ieee_standard_parameter w m ≡ (no_error, record w { ieee_std_mask = m })) ↔ IsIeeeMask m
unfolding set_ieee_standard_parameter
set_ieee_standard_accepts w m = ground (
  arith,
  bit_and_nibble m,
  bit_and-one m,
  bit_and_bit4 m,
  bit_and_bit5 m,
  bit_and_bit7 m,
  single_bit_lem (m % 16) (omega arith),
)

-- The channels of a hardware mode, as the documentation lists them.
abbrev pub IsAllowedChannel : ℕ → ℕ → Type 0
IsAllowedChannel mode n =
    ((mode ≡ 1) × (7 ≤ n) × (n ≤ 196))
    ⊎ ((mode ≡ 2) × (1 ≤ n) × (n ≤ 14))
    ⊎ ((mode ≡ 4) × (1 ≤ n) × (n ≤ 14))
    ⊎ ((mode ≡ 8) × (1 ≤ n) × (n ≤ 6))

-- With a mask of one hardware mode, `setChannelParameter` accepts exactly the documented channels
-- of that mode; an accepted number is stored whole, and a refused one leaves the channel.
pub set_channel_accepts :
    (w : WifiApT) (n : ℕ)
    → IsHardwareMode (w.ieee_std_mask % 16)
    → (((set_channel_parameter w n).0 ≡ no_error) ↔ IsAllowedChannel (w.ieee_std_mask % 16) n)
      × ((set_channel_parameter w n).0 ≡ no_error
          → (set_channel_parameter w n).1.channel_number ≡ n)
      × ((set_channel_parameter w n).0 ≢ no_error
          → (set_channel_parameter w n).1.channel_number ≡ w.channel_number)
unfolding set_channel_parameter channel_bounds
set_channel_accepts w n h = ground (arith, bit_and_nibble w.ieee_std_mask)
