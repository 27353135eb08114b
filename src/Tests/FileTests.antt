-- ===== src/Tests/FileTests.antt =====
-- A start that succeeds, and the files that it leaves.
use wifiap_binding.Base.{
  ℕ, Outcome, fault, use_after_free, ◌>>=◌, ◌≡◌, refl, ◌++◌, some, done, arith, replicate,
}
use wifiap_binding.Base.Bytes.{codes, c_str}
use wifiap_binding.Data.Types.{WifiApT, fresh}
use wifiap_binding.Data.Calls.Invariant.{IsWellFormed}
use wifiap_binding.Threads.Links.{plain_list, plain_list-IsLawful}
use wifiap_binding.Ap.{
  World, and_then, run, run_if_present, set_status, check_and_resolve_conflicts_with_nm,
  check_if_firewalld_running_and_allow_dhcp_traffic,
}
use wifiap_binding.Ap.Dnsmasq.{set_dnsmasq_service, addresses, is_within, configure_dnsmasq}
use wifiap_binding.Netmask.{to_cidr, cidr_from, mask_bits}
use wifiap_binding.System.{wexitstatus, wifexited, is_zero, succeeded}
use wifiap_binding.System.Scan.{
  is_digit, is_space, read_digits, read_magnitude, read_number, starts_number,
}
use wifiap_binding.System.Format.{snprintf, decimal}
use wifiap_binding.Config.{
  common_text, create_hosts_config_file, create_dnsmasq_config_file, generate_host_ap_conf_file,
  hw_mode_line, ieee_flags, security_section, write_ap_config_file,
}
use wifiap_binding.Ap.Start.{
  start_ap, clean_previous, was_configured, check_file_exists, start_dnsmasq, check_ssid,
  check_channel, configure_hostapd, hardware_code, start_event_thread, start_hardware,
  start_hostapd,
}
use wifiap_binding.Ap.Service.{IsReady}
use wifiap_binding.Ap.Ends.{Ends}
use wifiap_binding.Ap.Status.{IsStarted}
use wifiap_binding.Ap.Stop.{stop}
use wifiap_binding.Ap.Stopped.{IsStopped}
use wifiap_binding.Ap.Cycle.{start_stop_start, stop_again}
use wifiap_binding.Replies.{success}
use wifiap_binding.Ap.Launch.{launch_thread_keeps}
use wifiap_binding.Config.Ieee.{ieee_section_lem, chosen}
use wifiap_binding.Ap.Written.Started.{FilesWritten, start_ap-FilesWritten}
use wifiap_binding.Tests.{net, all_well}
use wifiap_binding.Tests.ApTests.{
  settings, settings-IsWellFormed, settings-IsReady, settings-CanStop, stopping, launching,
  launching-CanLaunch, world,
}

-- The name of the network and the addresses are set.
abbrev complete : WifiApT
complete = record settings {
  ssid = codes "net" ++ replicate 30 0;
  ip_ap = codes "192.168.2.1" ++ replicate 5 0;
  ip_start = codes "192.168.2.10" ++ replicate 4 0;
  ip_stop = codes "192.168.2.100" ++ replicate 3 0;
}

complete-IsWellFormed : IsWellFormed complete
unfolding c_str
complete-IsWellFormed =
    let h = settings-IsWellFormed in
    record {
      interface_name = h.interface_name;
      domain_name = h.domain_name;
      host_name = h.host_name;
      ssid = record { size = refl; has_terminator = omega arith };
      ip_ap = record { size = refl; has_terminator = omega arith };
      ip_start = record { size = refl; has_terminator = omega arith };
      ip_stop = record { size = refl; has_terminator = omega arith };
      ip_netmask = h.ip_netmask;
      passphrase = h.passphrase;
      preshared_key = h.preshared_key;
      country_code = h.country_code;
      bounds = h.bounds;
      channel_number = h.channel_number;
      max_number_client = h.max_number_client;
      ieee_std_mask = h.ieee_std_mask;
    }

abbrev complete_world : World plain_list
complete_world = record world { settings = complete }

zero_code : (start_ap plain_list all_well launching complete_world >>= λ r. done r.0) ≡ done 0
unfolding start_ap c_str and_then clean_previous was_configured check_file_exists start_dnsmasq
    set_dnsmasq_service to_cidr addresses is_within configure_dnsmasq wexitstatus
    create_hosts_config_file create_dnsmasq_config_file check_ssid check_channel fresh
    configure_hostapd hardware_code start_event_thread start_hardware start_hostapd
    check_and_resolve_conflicts_with_nm check_if_firewalld_running_and_allow_dhcp_traffic run
    run_if_present set_status generate_host_ap_conf_file security_section write_ap_config_file
    cidr_from mask_bits is_digit is_space read_digits read_magnitude read_number starts_number
    is_zero succeeded wifexited snprintf common_text hw_mode_line chosen decimal ieee_flags
zero_code =
    let (t', obj, launches, event_thread, keeps) =
      launch_thread_keeps plain_list plain_list-IsLawful launching all_well.script (some net)
        complete_world.threads launching-CanLaunch refl in
    rw (ieee_section_lem 0) (rw launches refl)

returned :
    (m : Outcome (ℕ × World plain_list))
    → (m >>= λ r. done r.0) ≡ done 0
    → (w' : World plain_list) × (m ≡ done (0, w'))
returned (fault f) e = absurd cc
returned (done (code, w')) e = let zero : code ≡ 0 = cc in (w', rw zero refl)

starts :
    (w' : World plain_list) × (start_ap plain_list all_well launching complete_world ≡ done (0, w'))
starts = returned (start_ap plain_list all_well launching complete_world) zero_code

start_ap-FilesWritten_example : FilesWritten complete (starts.0).history
start_ap-FilesWritten_example =
    start_ap-FilesWritten plain_list all_well launching complete_world starts.0
      complete-IsWellFormed starts.1

complete-IsReady : IsReady all_well complete
complete-IsReady =
    let h = settings-IsReady in
    record {
      well_formed = complete-IsWellFormed;
      interface = h.interface;
      host = h.host;
      domain = h.domain;
      netmask = h.netmask;
      opens_hosts = λ h. refl;
      opens_dnsmasq = λ h. refl;
    }

start_stop_start_example :
    (p : ℕ) × (w'' : World plain_list) × (stop plain_list all_well stopping starts.0
      ≡ done (success, w''))
    × IsStopped plain_list p w''
    × (record w''.settings { status = complete.status } ≡ complete)
    × Ends plain_list
        (IsStarted plain_list all_well w''.settings)
        (start_ap plain_list all_well launching w'')
start_stop_start_example =
    start_stop_start plain_list plain_list-IsLawful all_well launching launching stopping
      complete_world starts.0 complete-IsReady (settings-CanStop complete refl) launching-CanLaunch
      launching-CanLaunch refl refl refl starts.1

stop_again_example :
    (w'' : World plain_list) × (stop plain_list all_well stopping starts.0 ≡ done (success, w''))
    × (stop plain_list all_well stopping w'' ≡ fault use_after_free)
stop_again_example =
    stop_again plain_list plain_list-IsLawful all_well launching stopping stopping complete_world
      starts.0 complete-IsReady (settings-CanStop complete refl) launching-CanLaunch refl refl refl
      starts.1
