-- ===== src/Ap/Start.antt =====
-- `startAp` and the verb `start` of src/wifiAp.c.
use wifiap_binding.Base.{
  ℕ, Bool, true, false, not, ◌||◌, Option, none, some, ◌∷◌, Outcome, done, fault, null_pointer,
  ◌>>=◌, ◌==◌, ltb, if◌then◌else◌,
}
use wifiap_binding.Base.Bytes.{Bytes, codes}
use wifiap_binding.Replies.{Reply, success, user_error_string}
use wifiap_binding.System.{
  Env, hosts_file, dnsmasq_file, hostapd_file, removed, wexitstatus, succeeded, WaitStatus, History,
  File,
}
use wifiap_binding.Data.Types.{ApStatus, status_started}
use wifiap_binding.Threads.{
  Threads, Answers, read, create_thread, set_thread_joinable, add_destructor_to_thread,
  start_thread,
}
use wifiap_binding.Threads.Links.{CdsList}
use wifiap_binding.Config.{generate_host_ap_conf_file, is_set}
use wifiap_binding.Ap.{
  World, run, set_status, fail, and_then, command_line, text_of, command_wifi_hw_start,
  command_wifiap_hostapd_start, command_wifiap_hostapd_stop, check_and_resolve_conflicts_with_nm,
  check_if_firewalld_running_and_allow_dhcp_traffic,
}
use wifiap_binding.Ap.Dnsmasq.{set_dnsmasq_service}

-- Numbers for the two functions that are passed to the thread functions.
abbrev pub wifi_ap_thread_main_func : ℕ
wifi_ap_thread_main_func = 1

abbrev pub thread_destructor_func : ℕ
thread_destructor_func = 1

-- What the C library answers to each of the four calls that launch the thread.
pub record LaunchAnswers : Type 0 where
  pub creating : Answers
  pub joining : Answers
  pub adding : Answers
  pub starting : Answers

-- The `switch` of the verb `start`, on the code without its sign.
unfoldable pub error_text : ℕ → Bytes
error_text sts =
    if sts == 1
    then codes "No valid SSID provided"
    else if sts == 2
    then codes "No valid channel number provided"
    else if sts == 3
    then codes "Failed to generate hostapd.conf"
    else if sts == 4
    then codes "WiFi card is not inserted"
    else if sts == 5
    then codes "Unable to reset WiFi card"
    else if sts == 6
    then codes "Failed to start WiFi AP command"
    else if sts == 7
    then codes "Failed to start hostapd!"
    else if sts == 8
    then codes "Failed to start Dnsmasq!"
    else if sts == 9
    then codes "Failed to clean previous wifiAp configuration!"
    else codes "Unspecified internal error"

unfoldable pub is_started : ApStatus → Bool
is_started status_started = true
is_started _ = false

-- A file exists if it can be opened for reading.
unfoldable pub check_file_exists : Env → History → File → ℕ
check_file_exists env h file_name = if env.readable h file_name then 1 else 0

module _ (L : CdsList) where
  -- The test of the two files of dnsmasq.
  unfoldable pub was_configured : Env → World L → Bool
  was_configured env w =
      not (check_file_exists env w.history dnsmasq_file == 0)
      || not (check_file_exists env w.history hosts_file == 0)

  -- The script with one command for the interface; an error path with `code` if it does not succeed.
  unfoldable pub run_or_fail : Env → Bytes → ℕ → World L → Outcome (ℕ × World L)
  unfolding run
  run_or_fail env command code w = text_of w.settings.interface_name >>= λ interface.
      let (status, w1) = run L env (command_line env command interface) w in
      if not (succeeded status) then fail L code w1 else done (0, w1)

  unfoldable pub clean_previous : Env → World L → Outcome (ℕ × World L)
  clean_previous env w =
      if was_configured env w then run_or_fail env command_wifiap_hostapd_stop 9 w else done (0, w)

  -- Any error of `setDnsmasqService` is the error 8.
  unfoldable pub start_dnsmasq : Env → World L → Outcome (ℕ × World L)
  start_dnsmasq env w =
      set_dnsmasq_service L env w >>= λ r. if r.0 == 0 then done (0, r.1) else fail L 8 r.1

  unfoldable pub check_ssid : World L → Outcome (ℕ × World L)
  check_ssid w = if not (is_set w.settings.ssid) then fail L 1 w else done (0, w)

  unfoldable pub check_channel : World L → Outcome (ℕ × World L)
  check_channel w =
      if ltb w.settings.channel_number w.settings.min_channel_value
        || ltb w.settings.max_channel_value w.settings.channel_number
      then fail L 2 w
      else done (0, w)

  -- The two services that may interfere, and hostapd.conf.
  unfoldable pub configure_hostapd : Env → World L → Outcome (ℕ × World L)
  configure_hostapd env w = do
    w1 ← check_and_resolve_conflicts_with_nm L env w
    w2 ← check_if_firewalld_running_and_allow_dhcp_traffic L env w1
    r ← generate_host_ap_conf_file env w2.settings w2.history
    let w3 : World L = record w2 { history = r.1 }
    if not r.0 then fail L 3 w3 else done (0, w3)

  -- The code that the exit status of the hardware script stands for.
  unfoldable pub hardware_code : WaitStatus → ℕ
  hardware_code status =
      if wexitstatus status == 0
      then 0
      else if wexitstatus status == 50
      then 4
      else if wexitstatus status == 100
      then 5
      else 6

  unfoldable pub start_hardware : Env → World L → Outcome (ℕ × World L)
  unfolding run
  start_hardware env w = text_of w.settings.interface_name >>= λ interface.
      let (status, w1) = run L env (command_line env command_wifi_hw_start interface) w in
      if hardware_code status == 0 then done (0, w1) else fail L (hardware_code status) w1

  unfoldable pub start_hostapd : Env → World L → Outcome (ℕ × World L)
  unfolding run
  start_hostapd env w = text_of w.settings.interface_name >>= λ interface.
      let (status, w1) = run L env (command_line env command_wifiap_hostapd_start interface) w in
      if not (succeeded status)
      then fail L 7 (record w1 { history = removed hostapd_file ∷ w1.history })
      else done (0, w1)

  -- The event thread: the pointer is kept, and the results of the three other calls only log. A
  -- NULL pointer is logged and then used.
  unfoldable pub launch_thread :
      LaunchAnswers → Bytes → Option Bytes → Threads L → Outcome (ℕ × Threads L)
  launch_thread answers script interface t = do
    created ←
        create_thread L answers.creating (codes "WifiApThread") wifi_ap_thread_main_func interface t
    p ← elim created.0 [ none ↦ fault null_pointer | some p ↦ done p ]
    obj1 ← read L p created.1
    joinable ← set_thread_joinable L answers.joining obj1.thread_id created.1
    obj2 ← read L p joinable.1
    added ←
        add_destructor_to_thread L answers.adding obj2.thread_id (some thread_destructor_func)
          script joinable.1
    obj3 ← read L p added.1
    started ← start_thread L answers.starting obj3.thread_id added.1
    done (p, started.1)

  unfoldable pub start_event_thread : Env → LaunchAnswers → World L → Outcome (ℕ × World L)
  unfolding set_status
  start_event_thread env answers w =
      launch_thread answers env.script w.settings.interface_name w.threads >>= λ r.
      done
        (0, set_status L status_started (record w { threads = r.1; wifi_ap_thread_ptr = some r.0 }))

  -- `startAp`; the result is the returned code without its sign.
  unfoldable pub start_ap : Env → LaunchAnswers → World L → Outcome (ℕ × World L)
  start_ap env answers w = and_then L (clean_previous env w) λ w1.
      and_then L (start_dnsmasq env w1) λ w2. and_then L (check_ssid w2) λ w3.
        and_then L (check_channel w3) λ w4. and_then L (configure_hostapd env w4) λ w5.
          and_then L (start_hardware env w5)
            λ w6. and_then L (start_hostapd env w6) λ w7. start_event_thread env answers w7

  -- The verb `start`: a started access point is left alone.
  unfoldable pub start : Env → LaunchAnswers → World L → Outcome (Reply × World L)
  unfolding is_started
  start env answers w =
      if is_started w.settings.status
      then done (success, w)
      else (start_ap env answers w >>= λ r.
          done (if r.0 == 0 then success else user_error_string r.0 (error_text r.0), r.1))
