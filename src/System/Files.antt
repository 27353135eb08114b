-- ===== src/System/Files.antt =====
-- The content that a history leaves in a file.
use wifiap_binding.Base.{Bool, true, false, [], ◌∷◌, ◌++◌, Option, none, some, if◌then◌else◌}
use wifiap_binding.Base.Bytes.{Bytes}
use wifiap_binding.System.{
  File, hosts_file, dnsmasq_file, hostapd_file, Event, ran, opened, wrote, closed, removed, History,
}

abbrev pub same_file : File → File → Bool
same_file hosts_file hosts_file = true
same_file dnsmasq_file dnsmasq_file = true
same_file hostapd_file hostapd_file = true
same_file _ _ = false

abbrev extend : Option Bytes → Bytes → Option Bytes
extend none b = none
extend (some a) b = some (a ++ b)

abbrev after : File → Event → Option Bytes → Option Bytes
after f (ran command) old = old
after f (opened g) old = if same_file f g then some [] else old
after f (wrote g b) old = if same_file f g then extend old b else old
after f (closed g) old = old
after f (removed g) old = if same_file f g then none else old

-- What the binding has written to the file since it last opened or removed it; commands that change
-- the file are not seen.
abbrev pub content : File → History → Option Bytes
content f [] = none
content f (e ∷ h) = after f e (content f h)
