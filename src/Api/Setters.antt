-- ===== src/Api/Setters.antt =====
-- The verbs of src/wifiAp.c that set the settings.
use wifiap_binding.Base.{Option, none, some, List, Outcome, done, ◌>>=◌}
use wifiap_binding.Base.Bytes.{Bytes}
use wifiap_binding.Data.{
  set_host_name_parameter, set_domain_name_parameter, set_interface_name_parameter,
  set_ssid_parameter, set_pass_phrase_parameter, set_pre_shared_key_parameter,
  set_security_protocol_parameter, set_country_code_parameter, set_max_number_clients,
  set_discoverable_parameter, set_ip_range_parameters, set_channel_parameter,
  set_ieee_standard_parameter,
}
use wifiap_binding.Data.Types.{WifiApT}
use wifiap_binding.Replies.{Reply, success, invalid_request}
use wifiap_binding.Binder.{Binder}
use wifiap_binding.Requests.{
  get_single_jsonc, get_single_boolean, get_single_uint32, single_string_set, single_uint32_set,
  reply_of_uint32_set,
}

module _ (strdup : Bytes → Option Bytes) (B : Binder) where
  -- A verb that sets: the parameters, the settings before, the reply and the settings after.
  abbrev pub SettingVerb : Type 0
  SettingVerb = List B.Data → WifiApT → Outcome (Reply × WifiApT)

  unfoldable pub set_host_name : SettingVerb
  set_host_name = single_string_set B (set_host_name_parameter strdup)

  unfoldable pub set_domain_name : SettingVerb
  set_domain_name = single_string_set B (set_domain_name_parameter strdup)

  unfoldable pub set_interface_name : SettingVerb
  set_interface_name = single_string_set B (set_interface_name_parameter strdup)

  unfoldable pub set_ssid : SettingVerb
  set_ssid = single_string_set B set_ssid_parameter

  unfoldable pub set_pass_phrase : SettingVerb
  set_pass_phrase = single_string_set B set_pass_phrase_parameter

  unfoldable pub set_discoverable : SettingVerb
  set_discoverable params w = elim (get_single_boolean B params) [
    | none ↦ done (invalid_request, w)
    | some discoverable ↦ done (success, (set_discoverable_parameter w discoverable).1)
  ]

  -- Its codes are those of `single_uint32_set`; the messages only log.
  unfoldable pub set_ieee_standard : SettingVerb
  set_ieee_standard params w = elim (get_single_uint32 B params) [
    | none ↦ done (invalid_request, w)
    | some value ↦
        let (sts, w') = set_ieee_standard_parameter w value in done (reply_of_uint32_set sts, w')
  ]

  unfoldable pub set_channel : SettingVerb
  set_channel params w = done (single_uint32_set B set_channel_parameter params w)

  unfoldable pub set_security_protocol : SettingVerb
  set_security_protocol = single_string_set B set_security_protocol_parameter

  unfoldable pub set_pre_shared_key : SettingVerb
  set_pre_shared_key = single_string_set B set_pre_shared_key_parameter

  unfoldable pub set_country_code : SettingVerb
  set_country_code = single_string_set B set_country_code_parameter

  unfoldable pub set_max_number_clients_verb : SettingVerb
  set_max_number_clients_verb params w = done (single_uint32_set B set_max_number_clients params w)

  -- `setIpRange`, once the four strings are there.
  unfoldable pub set_ip_range_of :
      Option (Bytes × Bytes × Bytes × Bytes) → WifiApT → Outcome (Reply × WifiApT)
  set_ip_range_of none w = done (invalid_request, w)
  set_ip_range_of (some (ip_ap, ip_start, ip_stop, ip_netmask)) w =
      set_ip_range_parameters w (some ip_ap) (some ip_start) (some ip_stop) (some ip_netmask)
      >>= λ r. done (reply_of_uint32_set r.0, r.1)

  unfoldable pub set_ip_range : SettingVerb
  set_ip_range params w = elim (get_single_jsonc B params) [
    | none ↦ done (invalid_request, w)
    | some obj ↦ set_ip_range_of (B.unpack_range obj) w
  ]
