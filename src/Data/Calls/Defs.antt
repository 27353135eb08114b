-- ===== src/Data/Calls/Defs.antt =====
-- A call of a setter, with its arguments, and what it does to the structure.
use wifiap_binding.Base.{ℕ, Bool, Option, none, some, Outcome, done, ◌<◌, ◌^◌}
use wifiap_binding.Base.Bytes.{Bytes, IsCString}
use wifiap_binding.Data.Types.{WifiApT, Status}
use wifiap_binding.Data.Setters.{
  set_host_name_parameter, set_domain_name_parameter, set_interface_name_parameter,
  set_ssid_parameter, set_pass_phrase_parameter, set_pre_shared_key_parameter,
  set_security_protocol_parameter, set_country_code_parameter, set_max_number_clients,
  set_discoverable_parameter, set_ip_range_parameters, set_ip_ap_parameter, set_ip_start_parameter,
  set_ip_stop_parameter, set_ip_net_mask_parameter,
}
use wifiap_binding.Data.Radio.{set_channel_parameter, set_ieee_standard_parameter}

pub data Call : Type 0 where
  host_name domain_name interface_name ssid pass_phrase pre_shared_key : Option Bytes → Call
  security_protocol country_code ip_ap ip_start ip_stop ip_net_mask : Option Bytes → Call
  ip_range : Option Bytes → Option Bytes → Option Bytes → Option Bytes → Call
  channel ieee_standard max_clients : ℕ → Call
  discoverable : Bool → Call

unfoldable pub perform : (Bytes → Option Bytes) → Call → WifiApT → Outcome (Status × WifiApT)
perform strdup (host_name s) w = set_host_name_parameter strdup w s
perform strdup (domain_name s) w = set_domain_name_parameter strdup w s
perform strdup (interface_name s) w = set_interface_name_parameter strdup w s
perform strdup (ssid s) w = set_ssid_parameter w s
perform strdup (pass_phrase s) w = set_pass_phrase_parameter w s
perform strdup (pre_shared_key s) w = set_pre_shared_key_parameter w s
perform strdup (security_protocol s) w = set_security_protocol_parameter w s
perform strdup (country_code s) w = set_country_code_parameter w s
perform strdup (ip_ap s) w = set_ip_ap_parameter w s
perform strdup (ip_start s) w = set_ip_start_parameter w s
perform strdup (ip_stop s) w = set_ip_stop_parameter w s
perform strdup (ip_net_mask s) w = set_ip_net_mask_parameter w s
perform strdup (ip_range ap start stop mask) w = set_ip_range_parameters w ap start stop mask
perform strdup (channel n) w = done (set_channel_parameter w n)
perform strdup (ieee_standard m) w = done (set_ieee_standard_parameter w m)
perform strdup (max_clients n) w = done (set_max_number_clients w n)
perform strdup (discoverable b) w = done (set_discoverable_parameter w b)

-- A `const char *` is NULL or points to a C string.
abbrev pub IsArgument : Option Bytes → Type 0
IsArgument none = Unit
IsArgument (some s) = IsCString s

-- The arguments are values that their C types have.
abbrev pub IsCall : Call → Type 0
IsCall (host_name s) = IsArgument s
IsCall (domain_name s) = IsArgument s
IsCall (interface_name s) = IsArgument s
IsCall (ssid s) = IsArgument s
IsCall (pass_phrase s) = IsArgument s
IsCall (pre_shared_key s) = IsArgument s
IsCall (security_protocol s) = IsArgument s
IsCall (country_code s) = IsArgument s
IsCall (ip_ap s) = IsArgument s
IsCall (ip_start s) = IsArgument s
IsCall (ip_stop s) = IsArgument s
IsCall (ip_net_mask s) = IsArgument s
IsCall (ip_range ap start stop mask) =
    IsArgument ap × IsArgument start × IsArgument stop × IsArgument mask
IsCall (channel n) = n < 2 ^ 32
IsCall (ieee_standard m) = m < 2 ^ 32
IsCall (max_clients n) = n < 2 ^ 32
IsCall (discoverable b) = Unit
