-- ===== src/Tests/ApTests.antt =====
-- Runs of the access point's verbs on a structure with concrete settings.
use wifiap_binding.Base.{
  ℕ, ◌≢◌, ◌⊎◌, inl, inr, ◌≡◌, refl, ◌++◌, true, false, none, some, List, [], ◌∷◌, done, arith, ◌==◌,
  if◌then◌else◌,
}
use wifiap_binding.Base.Bytes.{Bytes, codes, c_str, zeroed, IsBuffer}
use wifiap_binding.Netmask.{mask_text}
use wifiap_binding.Data.Types.{WifiApT, fresh, status_started}
use wifiap_binding.Data.Calls.Invariant.{IsWellFormed, fresh-IsWellFormed}
use wifiap_binding.System.{succeeded, wifexited, wexitstatus}
use wifiap_binding.Utf8.Ascii.{IsAscii-IsCString}
use wifiap_binding.Threads.{ThreadObj, thread_running, joined}
use wifiap_binding.Threads.Links.{plain_list, plain_list-IsLawful}
use wifiap_binding.Ap.{World}
use wifiap_binding.Ap.Clients.{main_loop}
use wifiap_binding.Ap.Stale.{check_channel_stale}
use wifiap_binding.Ap.Tally.{balance, tells_leave, tells_join, count_if_le, IsTally, main_loop_lem}
use wifiap_binding.Data.{channel_bounds, set_channel_parameter, set_ieee_standard_parameter}
use wifiap_binding.Replies.{Reply, success}
use wifiap_binding.Ap.Start.{
  was_configured, check_file_exists, check_channel, LaunchAnswers, start, start_ap,
}
use wifiap_binding.Ap.Service.{IsReady}
use wifiap_binding.Ap.Launch.{CanLaunch, IsEventThread}
use wifiap_binding.Ap.Ends.{Ends}
use wifiap_binding.Ap.Status.{IsStarted, start_ap_lem}
use wifiap_binding.Ap.Stop.{StopAnswers, stop, restart}
use wifiap_binding.Ap.Frame.{service_verbs-Framed}
use wifiap_binding.Ap.Stopped.{CanStop, IsStopped, stop_lem}
use wifiap_binding.Ap.Verbs.{Agrees, IsReplyTo, start_lem}
use wifiap_binding.Tests.{net, net-IsAscii, all_well, successes, successes-AllSucceed}

abbrev two_lines : List Bytes
two_lines = codes "wlan0: new station 1" ∷ codes "wlan0: del station 1" ∷ []

main_loop_lem_example :
    IsTally (codes "wlan0") two_lines 0 0 (main_loop (codes "wlan0") two_lines (balance 0 0))
main_loop_lem_example =
    main_loop_lem (codes "wlan0") two_lines 0 0
      (omega (arith, count_if_le (tells_join (codes "wlan0")) two_lines))
      (omega (arith, count_if_le (tells_leave (codes "wlan0")) two_lines))

abbrev pub netmask : Bytes
netmask = codes "255.255.255.0" ++ 0 ∷ 0 ∷ 0 ∷ []

netmask-IsBuffer : IsBuffer 16 netmask
unfolding c_str
netmask-IsBuffer = record { size = refl; has_terminator = omega arith }

pub netmask-mask_text : c_str netmask ≡ mask_text 24
unfolding c_str mask_text
netmask-mask_text = refl

abbrev pub settings : WifiApT
settings = record fresh {
  interface_name = some net;
  host_name = some net;
  domain_name = some net;
  ip_netmask = netmask;
}

pub settings-IsWellFormed : IsWellFormed settings
settings-IsWellFormed =
    let h = fresh-IsWellFormed in
    record {
      interface_name = ((λ e. cc), IsAscii-IsCString net net-IsAscii);
      host_name = ((λ e. cc), IsAscii-IsCString net net-IsAscii);
      domain_name = ((λ e. cc), IsAscii-IsCString net net-IsAscii);
      ssid = h.ssid;
      ip_ap = h.ip_ap;
      ip_start = h.ip_start;
      ip_stop = h.ip_stop;
      ip_netmask = netmask-IsBuffer;
      passphrase = h.passphrase;
      preshared_key = h.preshared_key;
      country_code = h.country_code;
      bounds = h.bounds;
      channel_number = h.channel_number;
      max_number_client = h.max_number_client;
      ieee_std_mask = h.ieee_std_mask;
    }

pub settings-IsReady : IsReady all_well settings
settings-IsReady = record {
  well_formed = settings-IsWellFormed;
  interface = (net, refl);
  host = (net, refl);
  domain = (net, refl);
  netmask = (24, omega arith, netmask-mask_text);
  opens_hosts = λ h. refl;
  opens_dnsmasq = λ h. refl;
}

abbrev pub launching : LaunchAnswers
launching = record {
  creating = successes;
  joining = successes;
  adding = successes;
  starting = successes;
}

pub launching-CanLaunch : CanLaunch launching
launching-CanLaunch = record { creating = successes-AllSucceed; joining = refl; adding = refl }

abbrev pub world : World plain_list
world = record {
  settings = settings;
  threads = record { heap = λ p. none; next = 0; thread_list = []; locked = false };
  wifi_ap_thread_ptr = none;
  history = [];
}

start_ap_lem_example :
    Ends plain_list
      (IsStarted plain_list all_well settings)
      (start_ap plain_list all_well launching world)
start_ap_lem_example =
    start_ap_lem plain_list plain_list-IsLawful all_well launching world settings-IsReady
      launching-CanLaunch refl

start_lem_example :
    (reply : Reply) × (w' : World plain_list) × (start plain_list all_well launching world
      ≡ done (reply, w'))
    × Agrees plain_list reply w'
    × ((settings.status ≡ status_started) × (reply ≡ success) × (w' ≡ world)
        ⊎ (settings.status ≢ status_started)
          × (code : ℕ) × (start_ap plain_list all_well launching world ≡ done (code, w'))
          × IsReplyTo plain_list reply code)
start_lem_example =
    start_lem plain_list plain_list-IsLawful all_well launching world settings-IsReady
      launching-CanLaunch refl

abbrev pub event_thread : ThreadObj
event_thread = record {
  thread_id = 1;
  name = zeroed 24;
  priority = 0;
  is_joinable = true;
  state = thread_running;
  main_func = 1;
  context = none;
  destructor_list = record { destructor = some 1; context = codes "/opt/wifi_setup.sh" } ∷ [];
  thread_handle = 7;
  thread_obj_list_change_count = 1;
  set_pid_on_start = false;
  proc_id = 0;
}

abbrev pub started_world : World plain_list
started_world = record world {
  threads = record {
    heap = λ p. if p == 0 then some event_thread else none;
    next = 1;
    thread_list = 0 ∷ [];
    locked = false;
  };
  wifi_ap_thread_ptr = some 0;
}

pub settings-CanStop : (s : WifiApT) → s.interface_name ≡ some net → CanStop all_well s
unfolding succeeded wifexited wexitstatus
settings-CanStop s e = record { interface = (net, e); commands = λ h c. refl }

pub started_world-IsEventThread :
    IsEventThread plain_list all_well.script started_world.threads 0 event_thread
started_world-IsEventThread = record {
  one = record { free = refl; listed = refl; lives = refl; numbered = refl };
  joinable = refl;
  running = refl;
  destructors = refl;
}

abbrev pub stopping : StopAnswers
stopping = record { cancelling = successes; joining = joined }

stop_lem_example :
    (w' : World plain_list) × (stop plain_list all_well stopping started_world ≡ done (success, w'))
    × IsStopped plain_list 0 w'
stop_lem_example =
    stop_lem plain_list all_well plain_list-IsLawful stopping 0 event_thread started_world
      (settings-CanStop settings refl) refl refl refl started_world-IsEventThread

-- The settings in mode G.
abbrev settings_g : WifiApT
settings_g = record settings { ieee_std_mask = 4 }

-- The channel 1 is set in mode G, and then the mode A, which has no channel 1.
abbrev stale_world : World plain_list
stale_world = record world {
  settings = (set_ieee_standard_parameter (set_channel_parameter settings_g 1).1 1).1;
}

check_channel_stale_example : check_channel plain_list stale_world ≡ done (0, stale_world)
unfolding set_channel_parameter channel_bounds
check_channel_stale_example =
    check_channel_stale plain_list settings_g 1 1 stale_world (inr (inr (inl refl))) refl refl

service_verbs-Framed_example : record world.settings { status = settings.status } ≡ settings
unfolding restart was_configured check_file_exists
service_verbs-Framed_example =
    service_verbs-Framed plain_list all_well launching stopping world world success (inr (inr refl))
