-- ===== src/Ap/Keep/Starting.antt =====
-- A property of the world through `startAp` and the verb `start` of src/wifiAp.c.
use wifiap_binding.Base.{
  ℕ, Bool, true, false, Option, none, some, if◌then◌else◌, Bool-cases, inl, inr, IfDone,
  IfDone-done, IfDone-bind, IfDone-after,
}
use wifiap_binding.Base.Bytes.{Bytes}
use wifiap_binding.System.{Env, is_zero}
use wifiap_binding.Threads.Links.{CdsList}
use wifiap_binding.Netmask.{to_cidr}
use wifiap_binding.Config.{
  create_hosts_config_file, create_dnsmasq_config_file, generate_host_ap_conf_file,
}
use wifiap_binding.Replies.{success}
use wifiap_binding.Ap.{
  World, run, fail, text_of, run_if_present, check_and_resolve_conflicts_with_nm,
  check_if_firewalld_running_and_allow_dhcp_traffic,
}
use wifiap_binding.Ap.Dnsmasq.{set_dnsmasq_service, configure_dnsmasq, addresses, is_within}
use wifiap_binding.Ap.Start.{
  LaunchAnswers, clean_previous, start_dnsmasq, check_ssid, check_channel, configure_hostapd,
  start_hardware, start_hostapd, start_event_thread, start_ap, run_or_fail, start, is_started,
}
use wifiap_binding.Ap.Keep.{
  IsSettled, Keeps, fail-Keeps, done-Keeps, if-Keeps, and_then-Keeps, after,
}

module _ (L : CdsList) (Q : World L → Type 0) (settled : IsSettled L Q) (env : Env) where
  open settled use {logs, marks}

  pub run_or_fail-Keeps :
      (command : Bytes) (code : ℕ) (w : World L)
      → Q w
      → Keeps L Q settled (run_or_fail L env command code w)
  unfolding run_or_fail run
  run_or_fail-Keeps command code w h =
      after L Q settled (text_of w.settings.interface_name) _ λ interface.
        if-Keeps L Q settled _ _ _ (fail-Keeps L Q settled code _ (logs w _ h))
          (done-Keeps L Q settled 0 _ (logs w _ h))

  clean_previous-Keeps : (w : World L) → Q w → Keeps L Q settled (clean_previous L env w)
  unfolding clean_previous
  clean_previous-Keeps w h =
      if-Keeps L Q settled _ _ _ (run_or_fail-Keeps _ 9 w h) (done-Keeps L Q settled 0 w h)

  configure_dnsmasq-Keeps :
      (cidr : Bytes) (w : World L) → Q w → Keeps L Q settled (configure_dnsmasq L env cidr w)
  unfolding configure_dnsmasq run
  configure_dnsmasq-Keeps cidr w h =
      after L Q settled (text_of w.settings.interface_name) _ λ interface.
        if-Keeps L Q settled _ _ _ (fail-Keeps L Q settled 2 _ (logs w _ h)) (
          after L Q settled (create_hosts_config_file env _ _ _) _ λ h2.
            after L Q settled (create_dnsmasq_config_file env _ _ _ _ h2) _ λ h3.
              if-Keeps L Q settled _ _ _ (fail-Keeps L Q settled 2 _ (logs w _ h))
                (done-Keeps L Q settled 0 _ (logs w _ h)))

  choose-Keeps :
      (found : Option (ℕ × ℕ × ℕ)) (cidr : Bytes) (w : World L)
      → Q w
      → Keeps L Q settled (elim found [
        | none ↦ fail L 1 w
        | some range ↦ if is_within range then fail L 2 w else configure_dnsmasq L env cidr w
      ])
  choose-Keeps none cidr w h = fail-Keeps L Q settled 1 w h
  choose-Keeps (some range) cidr w h =
      if-Keeps L Q settled _ _ _ (fail-Keeps L Q settled 2 w h) (configure_dnsmasq-Keeps cidr w h)

  set_dnsmasq_service-Keeps : (w : World L) → Q w → Keeps L Q settled (set_dnsmasq_service L env w)
  unfolding set_dnsmasq_service
  set_dnsmasq_service-Keeps w h =
      if-Keeps L Q settled _ _ _ (fail-Keeps L Q settled 2 w h)
        (after L Q settled (to_cidr _) _ λ bits. choose-Keeps (addresses env w.settings) _ w h)

  start_dnsmasq-Keeps : (w : World L) → Q w → Keeps L Q settled (start_dnsmasq L env w)
  unfolding start_dnsmasq
  start_dnsmasq-Keeps w h =
      IfDone-bind (λ r. Q r.1) (λ r. Q r.1) (set_dnsmasq_service L env w) _
        (set_dnsmasq_service-Keeps w h)
        λ r p.
          if-Keeps L Q settled _ _ _ (done-Keeps L Q settled 0 r.1 p)
            (fail-Keeps L Q settled 8 r.1 p)

  check_ssid-Keeps : (w : World L) → Q w → Keeps L Q settled (check_ssid L w)
  unfolding check_ssid
  check_ssid-Keeps w h =
      if-Keeps L Q settled _ _ _ (fail-Keeps L Q settled 1 w h) (done-Keeps L Q settled 0 w h)

  check_channel-Keeps : (w : World L) → Q w → Keeps L Q settled (check_channel L w)
  unfolding check_channel
  check_channel-Keeps w h =
      if-Keeps L Q settled _ _ _ (fail-Keeps L Q settled 2 w h) (done-Keeps L Q settled 0 w h)

  chosen : (b : Bool) (w w' : World L) → Q w → Q w' → Q (if b then w else w')
  chosen true w w' p q = p
  chosen false w w' p q = q

  run_if_present-Keeps :
      (probe command : Bytes) (w : World L) → Q w → IfDone Q (run_if_present L env probe command w)
  unfolding run_if_present run
  run_if_present-Keeps probe command w h =
      IfDone-after Q (text_of w.settings.interface_name) _ λ name.
        IfDone-done Q _
          (chosen (is_zero (env.system w.history probe)) _ _ (logs w _ h) (logs w _ h))

  configure_hostapd-Keeps : (w : World L) → Q w → Keeps L Q settled (configure_hostapd L env w)
  unfolding configure_hostapd check_and_resolve_conflicts_with_nm
      check_if_firewalld_running_and_allow_dhcp_traffic
  configure_hostapd-Keeps w h =
      IfDone-bind Q (λ r. Q r.1) (run_if_present L env _ _ w) _ (run_if_present-Keeps _ _ w h)
        λ w1 h1.
          IfDone-bind Q (λ r. Q r.1) (run_if_present L env _ _ w1) _
            (run_if_present-Keeps _ _ w1 h1)
            λ w2 h2.
              after L Q settled (generate_host_ap_conf_file env w2.settings w2.history) _ λ r.
                if-Keeps L Q settled _ _ _ (fail-Keeps L Q settled 3 _ (logs w2 _ h2))
                  (done-Keeps L Q settled 0 _ (logs w2 _ h2))

  start_hardware-Keeps : (w : World L) → Q w → Keeps L Q settled (start_hardware L env w)
  unfolding start_hardware run
  start_hardware-Keeps w h = after L Q settled (text_of w.settings.interface_name) _ λ interface.
      if-Keeps L Q settled _ _ _ (done-Keeps L Q settled 0 _ (logs w _ h))
        (fail-Keeps L Q settled _ _ (logs w _ h))

  start_hostapd-Keeps : (w : World L) → Q w → Keeps L Q settled (start_hostapd L env w)
  unfolding start_hostapd run
  start_hostapd-Keeps w h = after L Q settled (text_of w.settings.interface_name) _ λ interface.
      if-Keeps L Q settled _ _ _ (fail-Keeps L Q settled 7 _ (logs w _ h))
        (done-Keeps L Q settled 0 _ (logs w _ h))

  -- With the last step of `startAp`, which makes the event thread.
  module _ (answers : LaunchAnswers)
      (launched : (w : World L)
        → Q w
        → Keeps L Q settled (start_event_thread L env answers w)) where
    pub start_ap-Keeps : (w : World L) → Q w → IfDone (λ r. Q r.1) (start_ap L env answers w)
    unfolding start_ap
    start_ap-Keeps w h = and_then-Keeps L Q settled _ _ (clean_previous-Keeps w h) λ w1 h1.
        and_then-Keeps L Q settled _ _ (start_dnsmasq-Keeps w1 h1) λ w2 h2.
          and_then-Keeps L Q settled _ _ (check_ssid-Keeps w2 h2) λ w3 h3.
            and_then-Keeps L Q settled _ _ (check_channel-Keeps w3 h3) λ w4 h4.
              and_then-Keeps L Q settled _ _ (configure_hostapd-Keeps w4 h4) λ w5 h5.
                and_then-Keeps L Q settled _ _ (start_hardware-Keeps w5 h5) λ w6 h6.
                  and_then-Keeps L Q settled _ _ (start_hostapd-Keeps w6 h6) λ w7 h7. launched w7 h7

    pub start-Keeps : (w : World L) → Q w → IfDone (λ r. Q r.1) (start L env answers w)
    unfolding start
    start-Keeps w h = elim (Bool-cases (is_started w.settings.status)) [
      | inl already ↦ rw already (IfDone-done (λ r. Q r.1) (success, w) h)
      | inr other ↦ rw other (
          IfDone-bind (λ r. Q r.1) (λ r. Q r.1) _ _ (start_ap-Keeps w h)
            λ r p. IfDone-done (λ r. Q r.1) _ p)
    ]
