-- ===== src/Data/Spec.antt =====
-- The settings of src/lib/wifi-ap-data.h as their documentation presents them: texts and numbers,
-- without buffers, terminators and channel bounds.
mod Texts
mod Values
mod Keys
mod Refine
pub mod Sequence
use wifiap_binding.Base.{
  ℕ, ◌≤◌, ◌<◌, ◌^◌, ◌≡◌, ◌≢◌, ◌⊎◌, Bool, true, Option, none, some, List, [], ◌∷◌, length, ◌%◌,
  if◌then◌else◌,
}
use wifiap_binding.Base.Bytes.{Bytes, codes, c_str}
use wifiap_binding.Utf8.Ascii.{IsAscii}
use wifiap_binding.Data.Types.{
  WifiApT, Status, no_error, ApStatus, SecurityProtocol, security_none, security_wpa2,
}
use wifiap_binding.Data.Setters.{same_text}
use wifiap_binding.Data.Calls.Defs.{Call}
use wifiap_binding.Data.Standards.{IsIeeeMask, IsAllowedChannel}

pub record Settings : Type 0 where
  pub interface_name : Option Bytes
  pub domain_name : Option Bytes
  pub host_name : Option Bytes
  pub status : ApStatus
  pub ssid : Bytes
  pub ip_ap : Bytes
  pub ip_start : Bytes
  pub ip_stop : Bytes
  pub ip_netmask : Bytes
  pub passphrase : Bytes
  pub preshared_key : Bytes
  pub country_code : Bytes
  pub discoverable : Bool
  pub ieee_std_mask : ℕ
  pub channel_number : ℕ
  pub max_number_client : ℕ
  pub security_protocol : SecurityProtocol

-- What a structure stands for.
abbrev pub view : WifiApT → Settings
view w = record {
  interface_name = w.interface_name;
  domain_name = w.domain_name;
  host_name = w.host_name;
  status = w.status;
  ssid = c_str w.ssid;
  ip_ap = c_str w.ip_ap;
  ip_start = c_str w.ip_start;
  ip_stop = c_str w.ip_stop;
  ip_netmask = c_str w.ip_netmask;
  passphrase = c_str w.passphrase;
  preshared_key = c_str w.preshared_key;
  country_code = c_str w.country_code;
  discoverable = w.discoverable;
  ieee_std_mask = w.ieee_std_mask;
  channel_number = w.channel_number;
  max_number_client = w.max_number_client;
  security_protocol = w.security_protocol;
}

-- A text of an allowed length.
abbrev pub IsFit : ℕ → ℕ → Bytes → Type 0
IsFit lo hi s = (lo ≤ length s) × (length s ≤ hi)

-- What can be asked of a setter: a text that is there, or a value.
pub data Change : Type 0 where
  host_name domain_name interface_name ssid pass_phrase pre_shared_key : Bytes → Change
  security_protocol country_code ip_ap ip_start ip_stop ip_net_mask : Bytes → Change
  ip_range : Bytes → Bytes → Bytes → Bytes → Change
  channel ieee_standard max_clients : ℕ → Change
  discoverable : Bool → Change

-- The call of a setter that asks for it.
abbrev pub call : Change → Call
call (host_name s) = Call.host_name (some s)
call (domain_name s) = Call.domain_name (some s)
call (interface_name s) = Call.interface_name (some s)
call (ssid s) = Call.ssid (some s)
call (pass_phrase s) = Call.pass_phrase (some s)
call (pre_shared_key s) = Call.pre_shared_key (some s)
call (security_protocol s) = Call.security_protocol (some s)
call (country_code s) = Call.country_code (some s)
call (ip_ap s) = Call.ip_ap (some s)
call (ip_start s) = Call.ip_start (some s)
call (ip_stop s) = Call.ip_stop (some s)
call (ip_net_mask s) = Call.ip_net_mask (some s)
call (ip_range a b c d) = Call.ip_range (some a) (some b) (some c) (some d)
call (channel n) = Call.channel n
call (ieee_standard m) = Call.ieee_standard m
call (max_clients n) = Call.max_clients n
call (discoverable b) = Call.discoverable b

-- All texts are ASCII, and numbers are of 32 bits.
abbrev pub IsPlain : Change → Type 0
IsPlain (ip_range a b c d) = IsAscii a × IsAscii b × IsAscii c × IsAscii d
IsPlain (channel n) = n < 2 ^ 32
IsPlain (ieee_standard m) = m < 2 ^ 32
IsPlain (max_clients n) = n < 2 ^ 32
IsPlain (discoverable b) = Unit
IsPlain (host_name s) = IsAscii s
IsPlain (domain_name s) = IsAscii s
IsPlain (interface_name s) = IsAscii s
IsPlain (ssid s) = IsAscii s
IsPlain (pass_phrase s) = IsAscii s
IsPlain (pre_shared_key s) = IsAscii s
IsPlain (security_protocol s) = IsAscii s
IsPlain (country_code s) = IsAscii s
IsPlain (ip_ap s) = IsAscii s
IsPlain (ip_start s) = IsAscii s
IsPlain (ip_stop s) = IsAscii s
IsPlain (ip_net_mask s) = IsAscii s

-- The changes that the documentation allows, in these settings.
abbrev pub IsAccepted : Change → Settings → Type 0
IsAccepted (host_name s) a = 1 ≤ length s
IsAccepted (domain_name s) a = 1 ≤ length s
IsAccepted (interface_name s) a = 1 ≤ length s
IsAccepted (ssid s) a = IsFit 1 32 s
IsAccepted (pass_phrase s) a = IsFit 8 63 s
IsAccepted (pre_shared_key s) a = length s ≤ 64
IsAccepted (security_protocol s) a =
    (same_text s (codes "none") ≡ true) ⊎ (same_text s (codes "WPA2") ≡ true)
IsAccepted (country_code s) a = IsFit 2 2 s
IsAccepted (ip_ap s) a = IsFit 1 15 s
IsAccepted (ip_start s) a = IsFit 1 15 s
IsAccepted (ip_stop s) a = IsFit 1 15 s
IsAccepted (ip_net_mask s) a = IsFit 1 15 s
IsAccepted (ip_range p q r m) a = IsFit 1 15 p × IsFit 1 15 q × IsFit 1 15 r × IsFit 1 15 m
IsAccepted (channel n) a = IsAllowedChannel (a.ieee_std_mask % 16) n
IsAccepted (ieee_standard m) a = IsIeeeMask m
IsAccepted (max_clients n) a = (1 ≤ n) × (n ≤ 1000)
IsAccepted (discoverable b) a = Unit

-- The settings after a change that is accepted.
unfoldable pub changed : Change → Settings → Settings
changed (host_name s) a = record a { host_name = some s }
changed (domain_name s) a = record a { domain_name = some s }
changed (interface_name s) a = record a { interface_name = some s }
changed (ssid s) a = record a { ssid = s }
changed (pass_phrase s) a = record a { passphrase = s }
changed (pre_shared_key s) a = record a { preshared_key = s }
changed (security_protocol s) a = record a {
  security_protocol = if same_text s (codes "none") then security_none else security_wpa2;
}
changed (country_code s) a = record a { country_code = s }
changed (ip_ap s) a = record a { ip_ap = s }
changed (ip_start s) a = record a { ip_start = s }
changed (ip_stop s) a = record a { ip_stop = s }
changed (ip_net_mask s) a = record a { ip_netmask = s }
changed (ip_range p q r m) a = record a { ip_ap = p; ip_start = q; ip_stop = r; ip_netmask = m }
changed (channel n) a = record a { channel_number = n }
changed (ieee_standard m) a = record a { ieee_std_mask = m }
changed (max_clients n) a = record a { max_number_client = n }
changed (discoverable b) a = record a { discoverable = b }

-- The change is accepted and made, or it is refused and nothing changes.
abbrev pub Meets : Change → Settings → Status → Settings → Type 0
Meets c a sts b =
    (IsAccepted c a × (sts ≡ no_error) × (b ≡ changed c a))
    ⊎ (¬ IsAccepted c a × (sts ≢ no_error) × (b ≡ a))
