-- ===== src/Ap/Written/Texts.antt =====
-- What the files of a start say, as lines: dnsmasq's file and the first section of hostapd.conf.
use mathlib.Core.List.{append_assoc}
use wifiap_binding.Base.{◌≡◌, refl, Bool, true, false, ◌++◌, List, [], ◌∷◌, if◌then◌else◌}
use wifiap_binding.Base.Bytes.{Bytes, codes, c_str}
use wifiap_binding.System.Format.{decimal}
use wifiap_binding.Data.Types.{WifiApT}
use wifiap_binding.Config.{dnsmasq_text, common_text, hostapd_config_common}

pub unlines : List Bytes → Bytes
unlines [] = []
unlines (line ∷ lines) = line ++ codes "\n" ++ unlines lines

-- The line that gives a key a value.
pub assigned : Bytes → Bytes → Bytes
assigned key value = key ++ codes "=" ++ value

-- dnsmasq listens on the address of the access point, serves the domain and the range of addresses
-- for a day each, and names itself as router and as name server.
pub dnsmasq_lines : Bytes → Bytes → Bytes → Bytes → List Bytes
dnsmasq_lines ap start stop domain =
    codes "bind-interfaces"
    ∷ assigned (codes "listen-address") ap
    ∷ codes "expand-hosts"
    ∷ codes "addn-hosts=/tmp/add_hosts"
    ∷ assigned (codes "domain") domain
    ∷ assigned (codes "local") (codes "/" ++ domain ++ codes "/")
    ∷ assigned (codes "dhcp-range") (start ++ codes "," ++ stop ++ codes ",24h")
    ∷ assigned (codes "dhcp-option") (codes "3," ++ ap)
    ∷ assigned (codes "dhcp-option") (codes "6," ++ ap)
    ∷ []

-- The settings of the access point in hostapd.conf, behind the fixed lines.
pub hostapd_lines : WifiApT → List Bytes
hostapd_lines s =
    assigned (codes "ssid") (c_str s.ssid)
    ∷ assigned (codes "channel") (decimal s.channel_number)
    ∷ assigned (codes "max_num_sta") (decimal s.max_number_client)
    ∷ assigned (codes "country_code") (c_str s.country_code)
    ∷ assigned (codes "ignore_broadcast_ssid") (if s.discoverable then codes "0" else codes "1")
    ∷ []

pub dnsmasq_text_lines :
    (ap start stop domain : Bytes)
    → dnsmasq_text ap start stop domain ≡ unlines (dnsmasq_lines ap start stop domain)
unfolding dnsmasq_text dnsmasq_lines unlines assigned decimal
dnsmasq_text_lines ap start stop domain = simp (append_assoc)

decimal_flag : (b : Bool) → decimal (if b then 0 else 1) ≡ (if b then codes "0" else codes "1")
unfolding decimal
decimal_flag true = refl
decimal_flag false = refl

pub common_text_lines :
    (s : WifiApT) → common_text s ≡ hostapd_config_common ++ unlines (hostapd_lines s)
unfolding common_text hostapd_lines unlines assigned
common_text_lines s =
    let flag = decimal_flag s.discoverable in
    rw (common_text, hostapd_lines, flag) (simp (append_assoc))
