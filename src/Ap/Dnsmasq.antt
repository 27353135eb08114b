-- ===== src/Ap/Dnsmasq.antt =====
-- `setDnsmasqService` of src/wifiAp.c: the addresses are checked, the interface is mounted, the two
-- files are written and dnsmasq is restarted.
use Prim.Native.Nat.{bit_xor}
use wifiap_binding.Base.{
  ℕ, ◌++◌, Bool, not, ◌&&◌, ◌||◌, Option, none, some, Outcome, done, ◌>>=◌, ◌==◌, ltb, leb,
  if◌then◌else◌,
}
use wifiap_binding.Base.Bytes.{Bytes, codes, c_str}
use wifiap_binding.Netmask.{to_cidr}
use wifiap_binding.System.{Env, wexitstatus}
use wifiap_binding.System.Format.{decimal, snprintf}
use wifiap_binding.Data.Types.{WifiApT}
use wifiap_binding.Threads.Links.{CdsList}
use wifiap_binding.Config.{create_hosts_config_file, create_dnsmasq_config_file, is_set}
use wifiap_binding.Ap.{
  World, run, fail, command_line, command_wifiap_wlan_up, command_dnsmasq_restart, text_of,
}

-- The four addresses in host order, if `inet_pton` reads each of them.
unfoldable pub addresses : Env → WifiApT → Option (ℕ × ℕ × ℕ)
addresses env w = elim (env.inet_pton (c_str w.ip_ap)) [
  | none ↦ none
  | some ap ↦ elim (env.inet_pton (c_str w.ip_start)) [
    | none ↦ none
    | some start ↦ elim (env.inet_pton (c_str w.ip_stop)) [
      | none ↦ none
      | some stop ↦ elim (env.inet_pton (c_str w.ip_netmask)) [
        | none ↦ none
        | some netmask ↦ some (ap, start, stop)
      ]
    ]
  ]
]

-- The exchange of two variables by three assignments.
unfoldable pub swapped : ℕ → ℕ → ℕ × ℕ
swapped start stop =
    let start1 = bit_xor start stop in
    let stop1 = bit_xor stop start1 in let start2 = bit_xor start1 stop1 in (start2, stop1)

-- The test `(ap >= start) && (ap <= stop)` behind the exchange.
unfoldable pub is_within : ℕ × ℕ × ℕ → Bool
is_within (ap, start, stop) =
    let range : ℕ × ℕ = if ltb stop start then swapped start stop else (start, stop) in
    leb range.0 ap && leb ap range.1

module _ (L : CdsList) where
  -- The block that mounts the interface, writes the files and restarts dnsmasq.
  unfoldable pub configure_dnsmasq : Env → Bytes → World L → Outcome (ℕ × World L)
  unfolding run
  configure_dnsmasq env ip_ap_cidr w = text_of w.settings.interface_name >>= λ interface.
      let (mounted, w1) =
        run L env
          (command_line env command_wifiap_wlan_up
            (interface ++ codes " " ++ c_str w.settings.ip_ap))
          w in
      if not (wexitstatus mounted == 0) then fail L 2 w1 else (do
        h2 ← create_hosts_config_file env (c_str w.settings.ip_ap) w.settings.host_name w1.history
        h3 ←
            create_dnsmasq_config_file env (c_str w.settings.ip_ap) (c_str w.settings.ip_start)
              (c_str w.settings.ip_stop) w.settings.domain_name h2
        let (restarted, w4) =
            run L env
              (command_line env command_dnsmasq_restart (interface ++ codes " " ++ ip_ap_cidr))
              (record w1 { history = h3 })
        if not (wexitstatus restarted == 0) then fail L 2 w4 else done (0, w4))

  -- `toCidr` is called before the netmask is known to be an address.
  unfoldable pub set_dnsmasq_service : Env → World L → Outcome (ℕ × World L)
  set_dnsmasq_service env w =
      let s = w.settings in
      if not (is_set s.ip_ap)
        || not (is_set s.ip_start)
        || not (is_set s.ip_stop)
        || not (is_set s.ip_netmask)
      then fail L 2 w
      else (to_cidr (c_str s.ip_netmask) >>= λ netmask_cidr.
          let ip_ap_cidr = snprintf 128 (c_str s.ip_ap ++ codes "/" ++ decimal netmask_cidr) in
          elim (addresses env s) [
            | none ↦ fail L 1 w
            | some range ↦
                if is_within range then fail L 2 w else configure_dnsmasq env ip_ap_cidr w
          ])
