-- ===== src/Ap/Range.antt =====
-- The test of `setDnsmasqService` on the address of the access point and the range of the clients.
use wifiap_binding.Base.{
  ℕ, ◌≡◌, ◌≢◌, ◌∷◌, Outcome, ◌≤◌, ◌<◌, ◌⊎◌, true, some, done, ltb, if◌then◌else◌, ◌++◌,
}
use wifiap_binding.Base.Bytes.{Bytes, codes, c_str}
use wifiap_binding.System.{
  Env, History, wexitstatus, hosts_file, dnsmasq_file, closed, wrote, opened, ran,
}
use wifiap_binding.System.Format.{decimal, snprintf}
use wifiap_binding.Data.Types.{WifiApT}
use wifiap_binding.Threads.Links.{CdsList}
use wifiap_binding.Ap.{World, fail, command_line, command_wifiap_wlan_up, command_dnsmasq_restart}
use wifiap_binding.Ap.Written.{hosts_text}
use wifiap_binding.Ap.Written.Texts.{unlines, dnsmasq_lines}
use wifiap_binding.Ap.Dnsmasq.{swapped}

-- The address lies between the two ends, whichever is the lower one.
abbrev pub Between : ℕ → ℕ → ℕ → Type 0
Between ap start stop = ((start ≤ ap) × (ap ≤ stop)) ⊎ ((stop ≤ ap) × (ap ≤ start))

-- It lies below or above both.
abbrev pub Outside : ℕ → ℕ → ℕ → Type 0
Outside ap start stop = ((ap < start) × (ap < stop)) ⊎ ((start < ap) × (stop < ap))

abbrev range : ℕ → ℕ → ℕ × ℕ
range start stop = if ltb stop start then swapped start stop else (start, stop)

-- The three texts of the settings that the block of `setDnsmasqService` prints, and that the two
-- files can be opened.
pub record CanConfigure (env : Env) (s : WifiApT) (interface host domain : Bytes) : Type 0 where
  pub named : s.interface_name ≡ some interface
  pub host_set : s.host_name ≡ some host
  pub domain_set : s.domain_name ≡ some domain
  pub opens_hosts : (h : History) → env.can_open h hosts_file ≡ true
  pub opens_dnsmasq : (h : History) → env.can_open h dnsmasq_file ≡ true

-- The command that mounts the interface, and the one that restarts dnsmasq.
pub mount_command : Env → WifiApT → Bytes → Bytes
mount_command env s interface =
    command_line env command_wifiap_wlan_up (interface ++ codes " " ++ c_str s.ip_ap)

pub restart_command : Env → WifiApT → Bytes → ℕ → Bytes
restart_command env s interface n =
    command_line env command_dnsmasq_restart
      (interface ++ codes " " ++ snprintf 128 (c_str s.ip_ap ++ codes "/" ++ decimal n))

-- The history behind the mount and the two files: hosts first, then dnsmasq's.
pub with_files : Env → WifiApT → Bytes → Bytes → Bytes → History → History
with_files env s interface host domain h =
    closed dnsmasq_file
    ∷ wrote dnsmasq_file
        (unlines (dnsmasq_lines (c_str s.ip_ap) (c_str s.ip_start) (c_str s.ip_stop) domain))
    ∷ opened dnsmasq_file
    ∷ closed hosts_file
    ∷ wrote hosts_file (hosts_text (c_str s.ip_ap) host)
    ∷ opened hosts_file
    ∷ ran (mount_command env s interface)
    ∷ h

module _ (L : CdsList) (env : Env) where
  -- The mount fails, and nothing else is done; or the files are written and dnsmasq is restarted, and
  -- the result is that of the restart.
  pub IsConfigured : World L → Bytes → Bytes → Bytes → ℕ → Outcome (ℕ × World L) → Type 0
  IsConfigured w interface host domain n m =
      let s : WifiApT = w.settings in
      let mount = mount_command env s interface in
      let restart = restart_command env s interface n in
      let h : History = with_files env s interface host domain w.history in
      (wexitstatus (env.system w.history mount) ≢ 0)
        × (m ≡ fail L 2 (record w { history = ran mount ∷ w.history }))
      ⊎ (wexitstatus (env.system w.history mount) ≡ 0)
        × (wexitstatus (env.system h restart) ≢ 0)
        × (m ≡ fail L 2 (record w { history = ran restart ∷ h }))
      ⊎ (wexitstatus (env.system w.history mount) ≡ 0)
        × (wexitstatus (env.system h restart) ≡ 0)
        × (m ≡ done (0, record w { history = ran restart ∷ h }))
