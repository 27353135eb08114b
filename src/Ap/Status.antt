-- ===== src/Ap/Status.antt =====
-- `startAp`: it returns, and the status that it leaves agrees with the code that it returns.
use wifiap_binding.Base.{
  ℕ, ◌≡◌, ◌≢◌, refl, inl, inr, Bool, true, false, some, Outcome, done, ◌>>=◌, ◌==◌, if◌then◌else◌,
  arith, ap, Bool-cases,
}
use wifiap_binding.Base.Bytes.{Bytes}
use wifiap_binding.System.{Env, is_zero}
use wifiap_binding.Data.Types.{WifiApT, status_started}
use wifiap_binding.Threads.{Threads, ThreadObj}
use wifiap_binding.Threads.Links.{CdsList, IsLawful}
use wifiap_binding.Config.{generate_host_ap_conf_file}
use wifiap_binding.Config.Hostapd.{generate_host_ap_conf_file_lem}
use wifiap_binding.Ap.{
  World, run, set_status, fail, text_of, run_if_present, check_and_resolve_conflicts_with_nm,
  check_if_firewalld_running_and_allow_dhcp_traffic,
}
use wifiap_binding.Ap.Ends.{
  Ends, Ends-fail, Ends-done, Ends-and_then, Ends-if, Ends-bind, Ends-recode, IsSame,
}
use wifiap_binding.Ap.Service.{IsReady, interface_lem, set_dnsmasq_service-Ends}
use wifiap_binding.Ap.Launch.{CanLaunch, IsEventThread, launch_thread_lem}
use wifiap_binding.Ap.Start.{
  LaunchAnswers, clean_previous, start_dnsmasq, check_ssid, check_channel, configure_hostapd,
  start_hardware, start_hostapd, start_event_thread, start_ap, run_or_fail,
}

-- The access point is marked started, with the settings that it was started with and its event
-- thread behind the pointer.
pub record IsStarted (L : CdsList) (env : Env) (s : WifiApT) (w : World L) : Type 0 where
  pub settings : w.settings ≡ record s { status = status_started }
  pub p : ℕ
  pub obj : ThreadObj
  pub points : w.wifi_ap_thread_ptr ≡ some p
  pub event_thread : IsEventThread L env.script w.threads p obj

module _ (L : CdsList) (env : Env) (s : WifiApT) (t : Threads L) (ready : IsReady env s) where
  pub run_or_fail-Ends :
      (command : Bytes) (code : ℕ) (w : World L)
      → code ≢ 0
      → IsSame L s t w
      → Ends L (IsSame L s t) (run_or_fail L env command code w)
  unfolding run_or_fail run
  run_or_fail-Ends command code w bad same =
      Ends-bind L _ (text_of w.settings.interface_name) _
        (interface_lem L env s t ready w same.settings)
        λ name.
          Ends-if L _ _ _ _ (Ends-fail L _ code _ bad)
            (Ends-done L _ _ (record { settings = same.settings; threads = same.threads }))

  clean_previous-Ends :
      (w : World L) → IsSame L s t w → Ends L (IsSame L s t) (clean_previous L env w)
  unfolding clean_previous
  clean_previous-Ends w same =
      Ends-if L _ _ _ _ (run_or_fail-Ends _ 9 w (ground arith) same) (Ends-done L _ w same)

  start_dnsmasq-Ends :
      (w : World L) → IsSame L s t w → Ends L (IsSame L s t) (start_dnsmasq L env w)
  unfolding start_dnsmasq
  start_dnsmasq-Ends w same =
      Ends-recode L _ 8 _ (ground arith)
        (set_dnsmasq_service-Ends L env s t ready w same.settings same.threads)

  check_ssid-Ends : (w : World L) → IsSame L s t w → Ends L (IsSame L s t) (check_ssid L w)
  unfolding check_ssid
  check_ssid-Ends w same =
      Ends-if L _ _ _ _ (Ends-fail L _ 1 w (ground arith)) (Ends-done L _ w same)

  check_channel-Ends : (w : World L) → IsSame L s t w → Ends L (IsSame L s t) (check_channel L w)
  unfolding check_channel
  check_channel-Ends w same =
      Ends-if L _ _ _ _ (Ends-fail L _ 2 w (ground arith)) (Ends-done L _ w same)

  chosen-IsSame :
      (b : Bool) (w w' : World L)
      → IsSame L s t w
      → IsSame L s t w'
      → IsSame L s t (if b then w else w')
  chosen-IsSame true w w' a b = a
  chosen-IsSame false w w' a b = b

  -- The call returns, and has changed neither the settings nor the threads.
  Continues : Outcome (World L) → Type 0
  Continues m = (w : World L) × (m ≡ done w) × IsSame L s t w

  Continues-done : (w : World L) → IsSame L s t w → Continues (done w)
  unfolding Continues
  Continues-done w same = (w, refl, same)

  Continues-bind :
      (m : Outcome Bytes) (k : Bytes → Outcome (World L))
      → (a : Bytes) × (m ≡ done a)
      → ((a : Bytes) → Continues (k a))
      → Continues (m >>= k)
  unfolding Continues
  Continues-bind m k (a, runs) h = let (w, ends, same) = h a in (w, rw runs ends, same)

  run_if_present-Continues :
      (probe command : Bytes) (w : World L)
      → IsSame L s t w
      → Continues (run_if_present L env probe command w)
  unfolding run_if_present run
  run_if_present-Continues probe command w same =
      Continues-bind (text_of w.settings.interface_name) _
        (interface_lem L env s t ready w same.settings)
        λ name. Continues-done _ (
          chosen-IsSame (is_zero (env.system w.history probe)) _ _
            (record { settings = same.settings; threads = same.threads })
            (record { settings = same.settings; threads = same.threads }))

  Ends-continue :
      (m : Outcome (World L)) (k : World L → Outcome (ℕ × World L))
      → Continues m
      → ((w : World L) → IsSame L s t w → Ends L (IsSame L s t) (k w))
      → Ends L (IsSame L s t) (m >>= k)
  unfolding Continues
  Ends-continue m k (w, runs, same) h =
      let (r, ends, reports) = h w same in (r, rw runs ends, reports)

  configure_hostapd-Ends :
      (w : World L) → IsSame L s t w → Ends L (IsSame L s t) (configure_hostapd L env w)
  unfolding configure_hostapd check_and_resolve_conflicts_with_nm
      check_if_firewalld_running_and_allow_dhcp_traffic
  configure_hostapd-Ends w same =
      Ends-continue (run_if_present L env _ _ w) _ (run_if_present-Continues _ _ w same) λ w1 same1.
        Ends-continue (run_if_present L env _ _ w1) _ (run_if_present-Continues _ _ w1 same1)
          λ w2 same2.
            let (r, runs, leaves) =
              generate_host_ap_conf_file_lem env w2.settings w2.history
                (rw (same2.settings) (ready.well_formed)) in
            Ends-bind L _ (generate_host_ap_conf_file env w2.settings w2.history) _ (r, runs)
              λ written.
                Ends-if L _ _ _ _ (Ends-fail L _ 3 _ (ground arith))
                  (Ends-done L _ _ (record { settings = same2.settings; threads = same2.threads }))

  hardware-Ends :
      (code : ℕ) (w : World L)
      → IsSame L s t w
      → Ends L (IsSame L s t) (if code == 0 then done (0, w) else fail L code w)
  hardware-Ends code w same = elim (Bool-cases (code == 0)) [
    | inl fine ↦ rw fine (Ends-done L _ w same)
    | inr broken ↦ rw broken (Ends-fail L _ code w (ground arith))
  ]

  start_hardware-Ends :
      (w : World L) → IsSame L s t w → Ends L (IsSame L s t) (start_hardware L env w)
  unfolding start_hardware run
  start_hardware-Ends w same =
      Ends-bind L _ (text_of w.settings.interface_name) _
        (interface_lem L env s t ready w same.settings)
        λ name. hardware-Ends _ _ (record { settings = same.settings; threads = same.threads })

  start_hostapd-Ends :
      (w : World L) → IsSame L s t w → Ends L (IsSame L s t) (start_hostapd L env w)
  unfolding start_hostapd run
  start_hostapd-Ends w same =
      Ends-bind L _ (text_of w.settings.interface_name) _
        (interface_lem L env s t ready w same.settings)
        λ name.
          Ends-if L _ _ _ _ (Ends-fail L _ 7 _ (ground arith))
            (Ends-done L _ _ (record { settings = same.settings; threads = same.threads }))

module _ (L : CdsList) (law : IsLawful L) (env : Env) where
  start_event_thread-Ends :
      (answers : LaunchAnswers) (s : WifiApT) (t : Threads L) (w : World L)
      → CanLaunch answers
      → t.locked ≡ false
      → IsSame L s t w
      → Ends L (IsStarted L env s) (start_event_thread L env answers w)
  unfolding start_event_thread set_status
  start_event_thread-Ends answers s t w can free same =
      let (p, t', obj, launches, event_thread) =
        launch_thread_lem L law answers env.script w.settings.interface_name w.threads can
          (rw (same.threads) free) in
      (
        (0, set_status L status_started (record w { threads = t'; wifi_ap_thread_ptr = some p })),
        rw launches refl,
        inl (
          refl,
          record {
            settings = ap {A = WifiApT} (λ v. record v { status = status_started }) same.settings;
            p = p;
            obj = obj;
            points = refl;
            event_thread = event_thread;
          },
        ),
      )

  -- `startAp` up to its last step changes neither the settings nor the threads where it goes on.
  pub start_ap-Ends :
      (J : World L → Type 0) (answers : LaunchAnswers) (w : World L)
      → IsReady env w.settings
      → ((w7 : World L)
          → IsSame L w.settings w.threads w7
          → Ends L J (start_event_thread L env answers w7))
      → Ends L J (start_ap L env answers w)
  unfolding start_ap
  start_ap-Ends J answers w ready last =
      let s = w.settings in
      let t = w.threads in
      let I = IsSame L s t in
      Ends-and_then L I J _ _
        (clean_previous-Ends L env s t ready w (record { settings = refl; threads = refl }))
        λ w1 s1. Ends-and_then L I J _ _ (start_dnsmasq-Ends L env s t ready w1 s1) λ w2 s2.
          Ends-and_then L I J _ _ (check_ssid-Ends L env s t ready w2 s2) λ w3 s3.
            Ends-and_then L I J _ _ (check_channel-Ends L env s t ready w3 s3) λ w4 s4.
              Ends-and_then L I J _ _ (configure_hostapd-Ends L env s t ready w4 s4) λ w5 s5.
                Ends-and_then L I J _ _ (start_hardware-Ends L env s t ready w5 s5)
                  λ w6 s6. Ends-and_then L I J _ _ (start_hostapd-Ends L env s t ready w6 s6) last

  -- With an invariant structure that has an interface, a host and a domain name and a netmask of
  -- leading ones, if the two files of dnsmasq can always be opened, the mutex is free and the calls
  -- that make the event thread succeed, `startAp` returns, whatever every command answers. If it
  -- returns 0, the status is "started", no other setting has changed, and the one listed thread is
  -- the event thread, joinable, with its destructor; otherwise the status is "failure".
  pub start_ap_lem :
      (answers : LaunchAnswers) (w : World L)
      → IsReady env w.settings
      → CanLaunch answers
      → w.threads.locked ≡ false
      → Ends L (IsStarted L env w.settings) (start_ap L env answers w)
  start_ap_lem answers w ready can free =
      start_ap-Ends (IsStarted L env w.settings) answers w ready
        λ w7 s7. start_event_thread-Ends answers w.settings w.threads w7 can free s7
