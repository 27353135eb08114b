-- ===== src/Data/Setters.antt =====
-- src/lib/wifi-ap-data.c: the setters of texts, addresses and flags. A `const char *` argument is
-- `none` for NULL, else the bytes before its terminator.
use wifiap_binding.Base.{
  ℕ, ◌+◌, Bool, true, false, ◌&&◌, ◌||◌, Option, none, some, [], ◌∷◌, Outcome, done, fault,
  null_pointer, ◌>>=◌, ltb, leb, ◌==◌, if◌then◌else◌, length,
}
use wifiap_binding.Base.Bytes.{Bytes, codes, terminated, memcpy}
use wifiap_binding.Utf8
use wifiap_binding.Data.Types.{
  WifiApT, Status, no_error, error_invalid, error_oom, error_too_small, error_too_large,
  security_none, security_wpa2, max_ssid_length, min_ssid_length, min_passphrase_length,
  max_passphrase_length, max_psk_length, iso_countrycode_length, wifi_ap_max_users,
  min_ip_address_length, max_ip_address_length,
}

-- A function that sets something from a string.
abbrev pub StringSetter : Type 0
StringSetter = WifiApT → Option Bytes → Outcome (Status × WifiApT)

-- What `strdup` gave replaces the old string, which is freed.
replace : Option Bytes → Option Bytes → Status × Option Bytes
replace dest none = (error_oom, dest)
replace dest (some new) = (no_error, some new)

-- `set_string_copy(&dest, src)`: the status, and what `dest` then points to.
unfoldable pub set_string_copy :
    (Bytes → Option Bytes) → Option Bytes → Option Bytes → Status × Option Bytes
unfolding replace
set_string_copy strdup dest none = (error_invalid, dest)
set_string_copy strdup dest (some []) = (error_too_small, dest)
set_string_copy strdup dest (some (c ∷ src)) = replace dest (strdup (c ∷ src))

-- `set_buffer(dest, src, minlen, maxlen)`
unfoldable pub set_buffer : Bytes → Option Bytes → ℕ → ℕ → Status × Bytes
set_buffer dest none minlen maxlen = (error_invalid, dest)
set_buffer dest (some src) minlen maxlen =
    if ltb (length src) minlen
    then (error_too_small, dest)
    else if ltb maxlen (length src)
    then (error_too_large, dest)
    else (no_error, memcpy dest (terminated src))

-- `strdup` may be out of memory.
module _ (strdup : Bytes → Option Bytes) where
  unfoldable pub set_host_name_parameter : StringSetter
  unfolding set_string_copy
  set_host_name_parameter w host_name =
      let (sts, new) = set_string_copy strdup w.host_name host_name in
      done (sts, record w { host_name = new })

  unfoldable pub set_domain_name_parameter : StringSetter
  unfolding set_string_copy
  set_domain_name_parameter w domain_name =
      let (sts, new) = set_string_copy strdup w.domain_name domain_name in
      done (sts, record w { domain_name = new })

  unfoldable pub set_interface_name_parameter : StringSetter
  unfolding set_string_copy
  set_interface_name_parameter w interface_name =
      let (sts, new) = set_string_copy strdup w.interface_name interface_name in
      done (sts, record w { interface_name = new })

unfoldable pub set_ssid_parameter : StringSetter
unfolding set_buffer
set_ssid_parameter w ssid =
    let (sts, new) = set_buffer w.ssid ssid min_ssid_length max_ssid_length in
    done (sts, record w { ssid = new })

unfoldable pub set_pass_phrase_parameter : StringSetter
unfolding set_buffer
set_pass_phrase_parameter w passphrase =
    let (sts, new) =
      set_buffer w.passphrase passphrase min_passphrase_length max_passphrase_length in
    done (sts, record w { passphrase = new })

unfoldable pub set_pre_shared_key_parameter : StringSetter
set_pre_shared_key_parameter w none = fault null_pointer
set_pre_shared_key_parameter w (some pre_shared_key) =
    if ltb max_psk_length (length pre_shared_key)
    then done (error_too_large, w)
    else (Utf8.copy w.preshared_key (terminated pre_shared_key) (max_psk_length + 1) >>= λ r.
        done (no_error, record w { preshared_key = r.dest }))

-- The C library's comparison of two ASCII letters, case ignored.
to_lower : ℕ → ℕ
to_lower c = if leb b'A' c && leb c b'Z' then c + 32 else c

-- `!strcasecmp(s, t)`
unfoldable pub same_text : Bytes → Bytes → Bool
unfolding to_lower
same_text [] [] = true
same_text [] (d ∷ t) = false
same_text (c ∷ s) [] = false
same_text (c ∷ s) (d ∷ t) = to_lower c == to_lower d && same_text s t

unfoldable pub set_security_protocol_parameter : StringSetter
set_security_protocol_parameter w none = done (error_invalid, w)
set_security_protocol_parameter w (some security_protocol) =
    if same_text security_protocol (codes "none")
    then done (no_error, record w { security_protocol = security_none })
    else if same_text security_protocol (codes "WPA2")
    then done (no_error, record w { security_protocol = security_wpa2 })
    else done (error_invalid, w)

unfoldable pub set_country_code_parameter : StringSetter
unfolding set_buffer
set_country_code_parameter w country_code =
    let (sts, new) =
      set_buffer w.country_code country_code iso_countrycode_length iso_countrycode_length in
    done (sts, record w { country_code = new })

unfoldable pub set_max_number_clients : WifiApT → ℕ → Status × WifiApT
set_max_number_clients w max_number_clients =
    if ltb max_number_clients 1
    then (error_too_small, w)
    else if ltb wifi_ap_max_users max_number_clients
    then (error_too_large, w)
    else (no_error, record w { max_number_client = max_number_clients })

unfoldable pub set_discoverable_parameter : WifiApT → Bool → Status × WifiApT
set_discoverable_parameter w discoverable = (no_error, record w { discoverable = discoverable })

-- `sizeof(ip_ap)`, and of the other addresses.
abbrev pub ip_size : ℕ
ip_size = max_ip_address_length + 1

-- The four copies of `setIpRangeParameters`.
unfoldable pub copy_ip_range : WifiApT → Bytes → Bytes → Bytes → Bytes → Outcome WifiApT
copy_ip_range w ip_ap ip_start ip_stop ip_netmask = do
  ap ← Utf8.copy w.ip_ap (terminated ip_ap) ip_size
  start ← Utf8.copy w.ip_start (terminated ip_start) ip_size
  stop ← Utf8.copy w.ip_stop (terminated ip_stop) ip_size
  netmask ← Utf8.copy w.ip_netmask (terminated ip_netmask) ip_size
  done (record w {
    ip_ap = ap.dest;
    ip_start = start.dest;
    ip_stop = stop.dest;
    ip_netmask = netmask.dest;
  })

-- `strlen(NULL)` is a fault.
abbrev pub non_null : Option Bytes → Outcome Bytes
non_null none = fault null_pointer
non_null (some s) = done s

abbrev pub too_short : Bytes → Bool
too_short s = ltb (length s) min_ip_address_length

abbrev pub too_long : Bytes → Bool
too_long s = ltb max_ip_address_length (length s)

unfoldable pub set_ip_range_parameters :
    WifiApT → Option Bytes → Option Bytes → Option Bytes → Option Bytes → Outcome (Status × WifiApT)
unfolding copy_ip_range
set_ip_range_parameters w ip_ap ip_start ip_stop ip_netmask = do
  ap ← non_null ip_ap
  start ← non_null ip_start
  stop ← non_null ip_stop
  netmask ← non_null ip_netmask
  if too_short ap || too_short start || too_short stop || too_short netmask
      then done (error_too_small, w)
      else if too_long ap || too_long start || too_long stop || too_long netmask
      then done (error_too_large, w)
      else (copy_ip_range w ap start stop netmask >>= λ w'. done (no_error, w'))

unfoldable pub set_ip_ap_parameter : StringSetter
unfolding set_buffer
set_ip_ap_parameter w ip_ap =
    let (sts, new) = set_buffer w.ip_ap ip_ap min_ip_address_length max_ip_address_length in
    done (sts, record w { ip_ap = new })

unfoldable pub set_ip_start_parameter : StringSetter
unfolding set_buffer
set_ip_start_parameter w ip_start =
    let (sts, new) = set_buffer w.ip_start ip_start min_ip_address_length max_ip_address_length in
    done (sts, record w { ip_start = new })

unfoldable pub set_ip_stop_parameter : StringSetter
unfolding set_buffer
set_ip_stop_parameter w ip_stop =
    let (sts, new) = set_buffer w.ip_stop ip_stop min_ip_address_length max_ip_address_length in
    done (sts, record w { ip_stop = new })

unfoldable pub set_ip_net_mask_parameter : StringSetter
unfolding set_buffer
set_ip_net_mask_parameter w ip_netmask =
    let (sts, new) =
      set_buffer w.ip_netmask ip_netmask min_ip_address_length max_ip_address_length in
    done (sts, record w { ip_netmask = new })
