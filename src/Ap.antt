-- ===== src/Ap.antt =====
-- src/wifiAp.c: the access point, with what its verbs change: the settings, the thread functions'
-- state, `wifiApThreadPtr`, and what was asked of the system. `status_mutex` only ever guards one
-- assignment or comparison, so it is left out.
pub mod Dnsmasq
pub mod Range
pub mod Start
pub mod Stop
pub mod Ends
pub mod Status
pub mod Stopped
pub mod Clients
pub mod Events
pub mod Tally
pub mod Stale
pub mod Verbs
pub mod Keep
pub mod Frame
pub mod Launch
pub mod Service
pub mod Restart
pub mod Cycle
pub mod Mutex
pub mod Written
use wifiap_binding.Base.{
  ℕ, ◌++◌, Bool, true, false, not, Option, none, some, List, [], ◌∷◌, Outcome, done, fault,
  null_pointer, ◌>>=◌, ◌==◌, if◌then◌else◌,
}
use wifiap_binding.Base.Bytes.{Bytes, codes}
use wifiap_binding.System.{Env, Event, ran, History, WaitStatus, is_zero}
use wifiap_binding.System.Format.{snprintf}
use wifiap_binding.Data.Types.{WifiApT, ApStatus, status_fail}
use wifiap_binding.Threads.{Threads}
use wifiap_binding.Threads.Links.{CdsList}

abbrev pub path_max : ℕ
path_max = 8192

-- The `COMMAND_…` macros.
abbrev pub command_wifi_hw_start : Bytes
command_wifi_hw_start = codes " WIFI_START"

abbrev pub command_wifi_hw_stop : Bytes
command_wifi_hw_stop = codes " WIFI_STOP"

abbrev pub command_wifi_unset_event : Bytes
command_wifi_unset_event = codes " WIFI_UNSET_EVENT"

abbrev pub command_wifi_firewalld_allow : Bytes
command_wifi_firewalld_allow = codes " WIFI_FIREWALLD_ALLOW"

abbrev pub command_wifi_nm_unmanage : Bytes
command_wifi_nm_unmanage = codes " WIFI_NM_UNMANAGE"

abbrev pub command_wifiap_hostapd_start : Bytes
command_wifiap_hostapd_start = codes " WIFIAP_HOSTAPD_START"

abbrev pub command_wifiap_hostapd_stop : Bytes
command_wifiap_hostapd_stop = codes " WIFIAP_HOSTAPD_STOP"

abbrev pub command_wifiap_wlan_up : Bytes
command_wifiap_wlan_up = codes " WIFIAP_WLAN_UP"

abbrev pub command_dnsmasq_restart : Bytes
command_dnsmasq_restart = codes " DNSMASQ_RESTART"

-- The argument of a `%s` that must not be NULL.
abbrev pub text_of : Option Bytes → Outcome Bytes
text_of none = fault null_pointer
text_of (some s) = done s

-- `snprintf(cmd, sizeof(cmd), "%s %s %s", WIFI_SCRIPT, command, interface)`
unfoldable pub command_line : Env → Bytes → Bytes → Bytes
command_line env command interface =
    snprintf path_max (env.script ++ codes " " ++ command ++ codes " " ++ interface)

module _ (L : CdsList) where
  pub record World : Type 0 where
    pub settings : WifiApT
    pub threads : Threads L
    pub wifi_ap_thread_ptr : Option ℕ
    pub history : History

  unfoldable pub set_status : ApStatus → World → World
  set_status status w = record w { settings = record w.settings { status = status } }

  -- `system(cmd)`
  unfoldable pub run : Env → Bytes → World → WaitStatus × World
  run env cmd w = (env.system w.history cmd, record w { history = ran cmd ∷ w.history })

  -- An error path: the status is set, and the code (without its sign) is returned.
  unfoldable pub fail : ℕ → World → Outcome (ℕ × World)
  unfolding set_status
  fail code w = done (code, set_status status_fail w)

  -- A step with code 0 is followed by the rest of the function, another code is returned.
  unfoldable pub and_then :
      Outcome (ℕ × World) → (World → Outcome (ℕ × World)) → Outcome (ℕ × World)
  and_then step rest = step >>= λ r. if r.0 == 0 then rest r.1 else done r

  -- A helper script that is run if a first command reports its service; its result only logs.
  unfoldable pub run_if_present : Env → Bytes → Bytes → World → Outcome World
  unfolding run
  run_if_present env probe command w = do
    interface ← text_of w.settings.interface_name
    let (found, w1) = run env probe w
    done (if is_zero found then (run env (command_line env command interface) w1).1 else w1)

  unfoldable pub check_and_resolve_conflicts_with_nm : Env → World → Outcome World
  check_and_resolve_conflicts_with_nm env w =
      run_if_present env (codes "nmcli -v >/dev/null") command_wifi_nm_unmanage w

  unfoldable pub check_if_firewalld_running_and_allow_dhcp_traffic : Env → World → Outcome World
  check_if_firewalld_running_and_allow_dhcp_traffic env w =
      run_if_present env (codes "pgrep firewalld >/dev/null") command_wifi_firewalld_allow w
