-- ===== src/Config.antt =====
-- src/lib/wifi-ap-config.c: the files for dnsmasq and hostapd.
pub mod Hostapd
pub mod Ieee
use Prim.Native.Nat.{bit_and}
use wifiap_binding.Base.{
  ℕ, ◌+◌, ◌++◌, Bool, true, false, not, Option, none, some, List, [], ◌∷◌, Outcome, done, fault,
  null_pointer, ◌>>=◌, ltb, ◌==◌, if◌then◌else◌, length,
}
use wifiap_binding.Base.Bytes.{Bytes, codes, c_str, terminated, zeroed}
use wifiap_binding.Utf8
use wifiap_binding.System.{
  Env, File, hosts_file, dnsmasq_file, hostapd_file, Event, opened, wrote, closed, removed, History,
}
use wifiap_binding.System.Format.{decimal, snprintf}
use wifiap_binding.Data.Types.{
  WifiApT, security_none, security_wpa2, SecurityProtocol, hardware_mode_mask, bitmask_ieee_std_a,
  bitmask_ieee_std_b, bitmask_ieee_std_g, bitmask_ieee_std_ad, bitmask_ieee_std_d,
  bitmask_ieee_std_h, bitmask_ieee_std_n, bitmask_ieee_std_ac, bitmask_ieee_std_ax,
  bitmask_ieee_std_w,
}

abbrev pub temp_string_max_bytes : ℕ
temp_string_max_bytes = 1024

abbrev pub hostapd_config_common : Bytes
hostapd_config_common =
    codes
      "driver=nl80211\nwmm_enabled=1\nbeacon_int=100\ndtim_period=2\nrts_threshold=2347\nfragm_threshold=2346\nctrl_interface=/var/run/hostapd\nctrl_interface_group=0\n"

abbrev pub hostapd_config_security_none : Bytes
hostapd_config_security_none =
    codes "auth_algs=1\neap_server=0\neapol_key_index_workaround=0\nmacaddr_acl=0\n"

abbrev pub hostapd_config_security_wpa2 : Bytes
hostapd_config_security_wpa2 = codes "wpa=2\nwpa_key_mgmt=WPA-PSK\nrsn_pairwise=CCMP\n"

-- A `%s` argument that is NULL has no defined meaning.
abbrev string_argument : Option Bytes → Outcome Bytes
string_argument none = fault null_pointer
string_argument (some s) = done s

-- `createHostsConfigFile`. It closes the file also where it could not open it. The result 0 is the
-- only one, and is left out; writes whose result the code ignores count as made.
unfoldable pub create_hosts_config_file : Env → Bytes → Option Bytes → History → Outcome History
create_hosts_config_file env ip_ap host_name h =
    if not (env.can_open h hosts_file)
    then fault null_pointer
    else (string_argument host_name >>= λ name. done (
        closed hosts_file
        ∷ wrote hosts_file (ip_ap ++ codes " " ++ name ++ codes "\n")
        ∷ opened hosts_file
        ∷ h))

-- The text of the five `fprintf` calls of `createDnsmasqConfigFile`.
unfoldable pub dnsmasq_text : Bytes → Bytes → Bytes → Bytes → Bytes
dnsmasq_text ip_ap ip_start ip_stop domain =
    codes "bind-interfaces\nlisten-address="
    ++ ip_ap
    ++ codes "\n"
    ++ codes "expand-hosts\naddn-hosts=/tmp/add_hosts\ndomain="
    ++ domain
    ++ codes "\nlocal=/"
    ++ domain
    ++ codes "/\n"
    ++ codes "dhcp-range="
    ++ ip_start
    ++ codes ","
    ++ ip_stop
    ++ codes ","
    ++ decimal 24
    ++ codes "h\n"
    ++ codes "dhcp-option="
    ++ decimal 3
    ++ codes ","
    ++ ip_ap
    ++ codes "\n"
    ++ codes "dhcp-option="
    ++ decimal 6
    ++ codes ","
    ++ ip_ap
    ++ codes "\n"

unfoldable pub create_dnsmasq_config_file :
    Env → Bytes → Bytes → Bytes → Option Bytes → History → Outcome History
create_dnsmasq_config_file env ip_ap ip_start ip_stop domain_name h =
    if not (env.can_open h dnsmasq_file)
    then fault null_pointer
    else (string_argument domain_name >>= λ domain. done (
        closed dnsmasq_file
        ∷ wrote dnsmasq_file (dnsmasq_text ip_ap ip_start ip_stop domain)
        ∷ opened dnsmasq_file
        ∷ h))

-- `writeApConfigFile(data, file) == 0`, and the events behind it.
unfoldable pub write_ap_config_file : Env → Option Bytes → Option File → History → Bool × History
write_ap_config_file env none file h = (false, h)
write_ap_config_file env (some text) none h = (false, h)
write_ap_config_file env (some text) (some file) h =
    if ltb 0 (length text)
    then (if env.can_write h file text then (true, wrote file text ∷ h) else (false, h))
    else (true, h)

-- The first section, before `snprintf` cuts it to the buffer. `%d` of `!discoverable`.
unfoldable pub common_text : WifiApT → Bytes
common_text w =
    hostapd_config_common
    ++ codes "ssid="
    ++ c_str w.ssid
    ++ codes "\nchannel="
    ++ decimal w.channel_number
    ++ codes "\nmax_num_sta="
    ++ decimal w.max_number_client
    ++ codes "\ncountry_code="
    ++ c_str w.country_code
    ++ codes "\nignore_broadcast_ssid="
    ++ decimal (if w.discoverable then 0 else 1)
    ++ codes "\n"

-- `'\0' != buffer[0]`
abbrev pub is_set : Bytes → Bool
is_set [] = false
is_set (c ∷ b) = not (c == 0)

-- The security section, `none` where the code finds no key.
unfoldable pub security_section : SecurityProtocol → Bytes → Bytes → Option Bytes
security_section security_none passphrase key = some hostapd_config_security_none
security_section security_wpa2 passphrase key =
    if is_set passphrase
    then some (
        snprintf temp_string_max_bytes (
          hostapd_config_security_wpa2
          ++ codes "wpa_passphrase="
          ++ c_str passphrase
          ++ codes "\n"))
    else if is_set key
    then some (
        snprintf temp_string_max_bytes
          (hostapd_config_security_wpa2 ++ codes "wpa_psk=" ++ c_str key ++ codes "\n"))
    else none

-- The line of the `switch` on the hardware mode.
unfoldable pub hw_mode_line : ℕ → Bytes
hw_mode_line mode =
    if mode == bitmask_ieee_std_a
    then codes "hw_mode=a\n"
    else if mode == bitmask_ieee_std_b
    then codes "hw_mode=b\n"
    else if mode == bitmask_ieee_std_g
    then codes "hw_mode=g\n"
    else if mode == bitmask_ieee_std_ad
    then codes "hw_mode=ad\n"
    else codes "hw_mode=g\n"

-- The tests and lines of the six `if` statements behind it.
unfoldable pub ieee_flags : ℕ → List (Bool × Bytes)
ieee_flags mask =
    (not (bit_and mask bitmask_ieee_std_d == 0), codes "ieee80211d=1\n")
    ∷ (not (bit_and mask bitmask_ieee_std_h == 0), codes "ieee80211h=1\n")
    ∷ (not (bit_and mask bitmask_ieee_std_n == 0), codes "ieee80211n=1\n")
    ∷ (not (bit_and mask bitmask_ieee_std_ac == 0), codes "ieee80211ac=1\n")
    ∷ (not (bit_and mask bitmask_ieee_std_ax == 0), codes "ieee80211ax=1\n")
    ∷ (not (bit_and mask bitmask_ieee_std_w == 0), codes "ieee80211w=1\n")
    ∷ []

-- `if (flag) utf8_Append(buffer, line, sizeof(buffer), NULL)`, in order.
unfoldable pub append_flags : List (Bool × Bytes) → Bytes → Outcome Bytes
append_flags [] buffer = done buffer
append_flags ((flag, line) ∷ flags) buffer =
    (if flag
      then (Utf8.append buffer (terminated line) temp_string_max_bytes >>= λ r. done r.dest)
      else done buffer)
    >>= λ buffer'. append_flags flags buffer'

-- The string in `tmpConfig` before the last write.
unfoldable pub ieee_section : ℕ → Outcome Bytes
unfolding hw_mode_line ieee_flags append_flags
ieee_section mask = do
  let line = hw_mode_line (bit_and mask hardware_mode_mask)
  r ← Utf8.copy (zeroed temp_string_max_bytes) (terminated line) temp_string_max_bytes
  buffer ← append_flags (ieee_flags mask) r.dest
  done (c_str buffer)

-- Behind the label `error`.
abbrev give_up : History → Bool × History
give_up h = (false, removed hostapd_file ∷ closed hostapd_file ∷ h)

-- `GenerateHostApConfFile(data) == 0`, and the events behind it.
unfoldable pub generate_host_ap_conf_file : Env → WifiApT → History → Outcome (Bool × History)
generate_host_ap_conf_file env w h =
    if not (env.can_open h hostapd_file)
    then done (false, h)
    else (let common = snprintf temp_string_max_bytes (common_text w) in
        let (set_common, h1) =
          write_ap_config_file env (some common) (some hostapd_file) (opened hostapd_file ∷ h) in
        let security = security_section w.security_protocol w.passphrase w.preshared_key in
        let (set_security, h2) = write_ap_config_file env security (some hostapd_file) h1 in
        if not set_common
        then done (give_up h1)
        else if not set_security
        then done (give_up h2)
        else (ieee_section w.ieee_std_mask >>= λ ieee.
            let (set_ieee, h3) = write_ap_config_file env (some ieee) (some hostapd_file) h2 in
            done (if not set_ieee then give_up h3 else (true, closed hostapd_file ∷ h3))))
