-- ===== src/Ap/Written/Started.antt =====
-- A successful `startAp` of src/wifiAp.c has written the three configuration files.
use wifiap_binding.Base.{
  ℕ, ◌≡◌, ◌≢◌, inl, inr, refl, ap, ◌∙◌, ◌++◌, Bool, true, false, not, Option, none, ◌∷◌, Outcome,
  done, ◌==◌, if◌then◌else◌, arith, Bool-cases, IfDone, IfDone-bind,
}
use wifiap_binding.Base.Bytes.{Bytes}
use wifiap_binding.System.{Env, History, hostapd_file, ran}
use wifiap_binding.System.Files.{content}
use wifiap_binding.Data.Types.{WifiApT}
use wifiap_binding.Data.Calls.Invariant.{IsWellFormed}
use wifiap_binding.Threads.Links.{CdsList}
use wifiap_binding.Config.{hostapd_config_common, generate_host_ap_conf_file}
use wifiap_binding.Config.Hostapd.{
  security_text, ieee_text, join_sections, hostapd_text, generate_host_ap_conf_file_lem,
}
use wifiap_binding.Ap.{
  World, fail, text_of, set_status, run, run_if_present, check_and_resolve_conflicts_with_nm,
  check_if_firewalld_running_and_allow_dhcp_traffic,
}
use wifiap_binding.Ap.Start.{
  LaunchAnswers, check_ssid, check_channel, configure_hostapd, start_hardware, start_hostapd,
  start_event_thread, start_ap, launch_thread,
}
use wifiap_binding.Ap.Written.{
  ran-written, DnsmasqWritten, SameFiles, SameFiles-written, generate-SameFiles,
}
use wifiap_binding.Ap.Written.Texts.{unlines, hostapd_lines, common_text_lines}
use mathlib.Core.Path.{subst}
use wifiap_binding.Config.Hostapd.{Leaves}
use wifiap_binding.Ap.Written.Steps.{
  Achieves, fail-Achieves, done-Achieves, and_then-Achieves, either, behind, HasSettings,
  HasDnsmasq, start_dnsmasq-Achieves, clean_previous-Achieves, run_if_present-HasDnsmasq,
}

-- The three files hold what the settings call for; hostapd.conf has a security section.
pub record FilesWritten (s : WifiApT) (h : History) : Type 0 where
  pub dnsmasq : DnsmasqWritten s h
  pub hostapd :
      content hostapd_file h
      ≡ join_sections
          (hostapd_config_common ++ unlines (hostapd_lines s))
          (security_text s.security_protocol s.passphrase s.preshared_key)
          (ieee_text s.ieee_std_mask)
  pub secured : hostapd_text s ≢ none

ran-FilesWritten :
    (s : WifiApT) (h : History) (cmd : Bytes) → FilesWritten s h → FilesWritten s (ran cmd ∷ h)
ran-FilesWritten s h cmd w = record {
  dnsmasq = ran-written s h cmd w.dnsmasq;
  hostapd = w.hostapd;
  secured = w.secured;
}

Leaves-true :
    (text : Option Bytes) (h : History) (r : Bool × History)
    → Leaves text h r
    → r.0 ≡ true
    → (content hostapd_file r.1 ≡ text) × (text ≢ none)
Leaves-true text h (true, h') l e = l
Leaves-true text h (false, h') l e = absurd cc

same_result :
    (m : Outcome (Bool × History)) (a b : Bool × History) → m ≡ done a → m ≡ done b → a ≡ b
same_result m a b p q = cc

module _ (L : CdsList) (env : Env) (s : WifiApT) (ok : IsWellFormed s) where
  record HasFiles (w : World L) : Type 0 where
    same : w.settings ≡ s
    written : FilesWritten s w.history

  -- What is written of hostapd.conf, and the other files as before.
  generate-both :
      (w : World L) (h : History)
      → w.settings ≡ s
      → IfDone
          (λ r. SameFiles h r.1 × Leaves (hostapd_text s) h r)
          (generate_host_ap_conf_file env w.settings h)
  generate-both w h e r runs =
      let (r', ran_too, leaves) = generate_host_ap_conf_file_lem env s h ok in
      let again : generate_host_ap_conf_file env s h ≡ done r = rw (← e) runs in
      let same : r' ≡ r = same_result (generate_host_ap_conf_file env s h) r' r ran_too again in
      (generate-SameFiles env w.settings h r runs, subst (Leaves (hostapd_text s) h) same leaves)

  generated-Achieves :
      (w : World L) (r : Bool × History)
      → HasDnsmasq L env s w
      → SameFiles w.history r.1
      → Leaves (hostapd_text s) w.history r
      → Achieves L HasFiles (
          if not r.0
          then fail L 3 (record w { history = r.1 })
          else done (0, record w { history = r.1 }))
  generated-Achieves w r h kept leaves = elim (Bool-cases r.0) [
    | inr bad ↦ rw bad (fail-Achieves L HasFiles 3 _ (ground arith))
    | inl good ↦
        let (hostapd, secured) = Leaves-true (hostapd_text s) w.history r leaves good in
        rw good (
          done-Achieves L HasFiles _ (record {
            same = h.same;
            written = record {
              dnsmasq = SameFiles-written s w.history r.1 kept h.written;
              hostapd =
                  hostapd
                  ∙ ap
                      (λ c.
                        join_sections c
                          (security_text s.security_protocol s.passphrase s.preshared_key)
                          (ieee_text s.ieee_std_mask))
                      (common_text_lines s);
              secured = secured;
            };
          }))
  ]

  configure_hostapd-Achieves :
      (w : World L) → HasDnsmasq L env s w → Achieves L HasFiles (configure_hostapd L env w)
  unfolding configure_hostapd check_and_resolve_conflicts_with_nm
      check_if_firewalld_running_and_allow_dhcp_traffic
  configure_hostapd-Achieves w h =
      IfDone-bind (HasDnsmasq L env s) (λ r. r.0 ≡ 0 → HasFiles r.1) (run_if_present L env _ _ w) _
        (run_if_present-HasDnsmasq L env s _ _ w h)
        λ w1 h1.
          IfDone-bind (HasDnsmasq L env s) (λ r. r.0 ≡ 0 → HasFiles r.1)
            (run_if_present L env _ _ w1) _ (run_if_present-HasDnsmasq L env s _ _ w1 h1)
            λ w2 h2.
              IfDone-bind (λ r. SameFiles w2.history r.1 × Leaves (hostapd_text s) w2.history r)
                (λ r. r.0 ≡ 0 → HasFiles r.1)
                (generate_host_ap_conf_file env w2.settings w2.history) _
                (generate-both w2 w2.history h2.same)
                λ r (kept, leaves). generated-Achieves w2 r h2 kept leaves

  ran-HasFiles :
      (w : World L) (cmd : Bytes)
      → HasFiles w
      → HasFiles (record w { history = ran cmd ∷ w.history })
  ran-HasFiles w cmd h = record {
    same = h.same;
    written = ran-FilesWritten s w.history cmd h.written;
  }

  start_hardware-Achieves :
      (w : World L) → HasFiles w → Achieves L HasFiles (start_hardware L env w)
  unfolding start_hardware run
  start_hardware-Achieves w h =
      behind L HasFiles (text_of w.settings.interface_name) _
        λ name. hardware _ _ (ran-HasFiles w _ h)
    where
      hardware :
          (code : ℕ) (v : World L)
          → HasFiles v
          → Achieves L HasFiles (if code == 0 then done (0, v) else fail L code v)
      hardware code v p = elim (Bool-cases (code == 0)) [
        | inl good ↦ rw good (done-Achieves L HasFiles v p)
        | inr bad ↦ rw bad (fail-Achieves L HasFiles code v (ground arith))
      ]

  start_hostapd-Achieves : (w : World L) → HasFiles w → Achieves L HasFiles (start_hostapd L env w)
  unfolding start_hostapd run
  start_hostapd-Achieves w h = behind L HasFiles (text_of w.settings.interface_name) _ λ name.
      either L HasFiles _ _ _ (fail-Achieves L HasFiles 7 _ (ground arith))
        (done-Achieves L HasFiles _ (ran-HasFiles w _ h))

  Finished : World L → Type 0
  Finished w = FilesWritten s w.history

  start_event_thread-Achieves :
      (answers : LaunchAnswers) (w : World L)
      → HasFiles w
      → Achieves L Finished (start_event_thread L env answers w)
  unfolding start_event_thread set_status Finished
  start_event_thread-Achieves answers w h =
      behind L Finished (launch_thread L answers env.script w.settings.interface_name w.threads) _
        λ r. done-Achieves L Finished _ h.written

  start_ap-Achieves :
      (answers : LaunchAnswers) (w : World L)
      → w.settings ≡ s
      → Achieves L Finished (start_ap L env answers w)
  unfolding start_ap check_ssid check_channel
  start_ap-Achieves answers w e =
      let H = HasSettings L env s in
      let D = HasDnsmasq L env s in
      and_then-Achieves L H Finished _ _ (clean_previous-Achieves L env s w e) λ w1 h1.
        and_then-Achieves L D Finished _ _ (start_dnsmasq-Achieves L env s w1 h1) λ w2 h2.
          and_then-Achieves L D Finished _ _
            (either L D _ _ _ (fail-Achieves L D 1 w2 (ground arith)) (done-Achieves L D w2 h2))
            λ w3 h3.
              and_then-Achieves L D Finished _ _
                (either L D _ _ _ (fail-Achieves L D 2 w3 (ground arith)) (done-Achieves L D w3 h3))
                λ w4 h4.
                  and_then-Achieves L HasFiles Finished _ _ (configure_hostapd-Achieves w4 h4)
                    λ w5 h5.
                      and_then-Achieves L HasFiles Finished _ _ (start_hardware-Achieves w5 h5)
                        λ w6 h6.
                          and_then-Achieves L HasFiles Finished _ _ (start_hostapd-Achieves w6 h6)
                            λ w7 h7. start_event_thread-Achieves answers w7 h7

  finished :
      (answers : LaunchAnswers) (w w' : World L)
      → w.settings ≡ s
      → start_ap L env answers w ≡ done (0, w')
      → FilesWritten s w'.history
  unfolding Finished
  finished answers w w' e runs = start_ap-Achieves answers w e (0, w') runs refl

-- Whenever `startAp`, called with a structure that meets the invariant, returns 0, the host and the
-- domain have their names, and what the binding has written last to each of the three files is: to
-- the hosts file the address and the name of the host; to dnsmasq's file the lines of dnsmasq with
-- the address, the domain and the range for clients; to hostapd.conf the fixed lines, one line for
-- each setting of the access point, then a security section and the lines of the standard. An
-- `fprintf` whose result the code ignores counts as made. What the platform script does to these
-- files is not part of this: its `DNSMASQ_RESTART` appends a line to dnsmasq's file.
pub start_ap-FilesWritten :
    (L : CdsList) (env : Env) (answers : LaunchAnswers) (w w' : World L)
    → IsWellFormed w.settings
    → start_ap L env answers w ≡ done (0, w')
    → FilesWritten w.settings w'.history
start_ap-FilesWritten L env answers w w' ok runs =
    finished L env w.settings ok answers w w' refl runs
