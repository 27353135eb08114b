-- ===== src/Data/Types.antt =====
-- src/lib/wifi-ap-data.h: constants, error codes and the structure.
use wifiap_binding.Base.{ℕ, ◌+◌, Bool, false, Option, none, replicate}
use wifiap_binding.Base.Bytes.{Bytes}

abbrev pub max_ssid_length : ℕ
max_ssid_length = 32

abbrev pub min_ssid_length : ℕ
min_ssid_length = 1

abbrev pub min_channel_value_def : ℕ
min_channel_value_def = 1

abbrev pub max_channel_value_def : ℕ
max_channel_value_def = 14

abbrev pub min_channel_std_a : ℕ
min_channel_std_a = 7

abbrev pub max_channel_std_a : ℕ
max_channel_std_a = 196

abbrev pub min_channel_std_ad : ℕ
min_channel_std_ad = 1

abbrev pub max_channel_std_ad : ℕ
max_channel_std_ad = 6

abbrev pub bitmask_ieee_std_a : ℕ
bitmask_ieee_std_a = 0x1

abbrev pub bitmask_ieee_std_b : ℕ
bitmask_ieee_std_b = 0x2

abbrev pub bitmask_ieee_std_g : ℕ
bitmask_ieee_std_g = 0x4

abbrev pub bitmask_ieee_std_ad : ℕ
bitmask_ieee_std_ad = 0x8

abbrev pub bitmask_ieee_std_d : ℕ
bitmask_ieee_std_d = 0x10

abbrev pub bitmask_ieee_std_h : ℕ
bitmask_ieee_std_h = 0x20

abbrev pub bitmask_ieee_std_n : ℕ
bitmask_ieee_std_n = 0x40

abbrev pub bitmask_ieee_std_ac : ℕ
bitmask_ieee_std_ac = 0x80

abbrev pub bitmask_ieee_std_ax : ℕ
bitmask_ieee_std_ax = 0x100

abbrev pub bitmask_ieee_std_w : ℕ
bitmask_ieee_std_w = 0x200

abbrev pub min_passphrase_length : ℕ
min_passphrase_length = 8

abbrev pub max_passphrase_length : ℕ
max_passphrase_length = 63

abbrev pub max_psk_length : ℕ
max_psk_length = 64

abbrev pub iso_countrycode_length : ℕ
iso_countrycode_length = 2

abbrev pub wifi_ap_max_users : ℕ
wifi_ap_max_users = 1000

abbrev pub hardware_mode_mask : ℕ
hardware_mode_mask = 0x000F

abbrev pub min_ip_address_length : ℕ
min_ip_address_length = 1

abbrev pub max_ip_address_length : ℕ
max_ip_address_length = 15

pub data SecurityProtocol : Type 0 where
  security_none security_wpa2 : SecurityProtocol

-- The strings that `status` may point to.
pub data ApStatus : Type 0 where
  status_init status_started status_stopped status_fail : ApStatus

-- The codes 0, -1, … -8 that the setters return.
pub data Status : Type 0 where
  no_error error_invalid error_oom error_too_small error_too_large : Status
  error_no_hard error_many_hard error_std_ac error_std_h : Status

-- `-code`
unfoldable pub magnitude : Status → ℕ
magnitude no_error = 0
magnitude error_invalid = 1
magnitude error_oom = 2
magnitude error_too_small = 3
magnitude error_too_large = 4
magnitude error_no_hard = 5
magnitude error_many_hard = 6
magnitude error_std_ac = 7
magnitude error_std_h = 8

-- `wifiApT`. A `char *` is the string that it points to, or `none`; a `char` array is its bytes.
pub record WifiApT : Type 0 where
  pub interface_name : Option Bytes
  pub domain_name : Option Bytes
  pub host_name : Option Bytes
  pub status : ApStatus
  pub min_channel_value : ℕ
  pub max_channel_value : ℕ
  pub ssid : Bytes
  pub ip_ap : Bytes
  pub ip_start : Bytes
  pub ip_stop : Bytes
  pub ip_netmask : Bytes
  pub passphrase : Bytes
  pub preshared_key : Bytes
  pub country_code : Bytes
  pub discoverable : Bool
  pub ieee_std_mask : ℕ
  pub channel_number : ℕ
  pub max_number_client : ℕ
  pub security_protocol : SecurityProtocol

-- The structure after `calloc` and `status = status_init`.
unfoldable pub fresh : WifiApT
fresh = record {
  interface_name = none;
  domain_name = none;
  host_name = none;
  status = status_init;
  min_channel_value = 0;
  max_channel_value = 0;
  ssid = replicate (max_ssid_length + 1) 0;
  ip_ap = replicate (max_ip_address_length + 1) 0;
  ip_start = replicate (max_ip_address_length + 1) 0;
  ip_stop = replicate (max_ip_address_length + 1) 0;
  ip_netmask = replicate (max_ip_address_length + 1) 0;
  passphrase = replicate (max_passphrase_length + 1) 0;
  preshared_key = replicate (max_psk_length + 1) 0;
  country_code = replicate (iso_countrycode_length + 1) 0;
  discoverable = false;
  ieee_std_mask = 0;
  channel_number = 0;
  max_number_client = 0;
  security_protocol = security_none;
}
