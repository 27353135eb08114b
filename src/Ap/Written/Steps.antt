-- ===== src/Ap/Written/Steps.antt =====
-- Steps of `startAp` of src/wifiAp.c that return 0: up to the two files of dnsmasq.
use wifiap_binding.Base.{
  ℕ, ◌≡◌, ◌≢◌, ◌∙◌, inl, inr, Bool, true, false, Option, none, some, ◌∷◌, Outcome, done, ◌>>=◌,
  ◌==◌, if◌then◌else◌, arith, Bool-cases, IfDone, IfDone-done, IfDone-bind, IfDone-after,
}
use wifiap_binding.Base.Bytes.{Bytes, c_str}
use wifiap_binding.System.{Env, hosts_file, dnsmasq_file, is_zero, ran}
use wifiap_binding.System.Files.{content}
use wifiap_binding.Data.Types.{WifiApT}
use wifiap_binding.Netmask.{to_cidr}
use wifiap_binding.Threads.Links.{CdsList}
use wifiap_binding.Config.{create_hosts_config_file, create_dnsmasq_config_file}
use wifiap_binding.Ap.{World, command_line, fail, and_then, text_of, run, run_if_present}
use wifiap_binding.Ap.Dnsmasq.{configure_dnsmasq, set_dnsmasq_service, addresses, is_within}
use wifiap_binding.Ap.Start.{clean_previous, start_dnsmasq, run_or_fail}
use wifiap_binding.Ap.Written.{
  hosts_text, ran-written, DnsmasqWritten, IfDone-if, create_hosts-written, create_dnsmasq-written,
}
use wifiap_binding.Ap.Written.Texts.{unlines, dnsmasq_lines}

module _ (L : CdsList) where
  -- What holds of the world if the step returns the code 0.
  abbrev pub Achieves : (World L → Type 0) → Outcome (ℕ × World L) → Type 0
  Achieves I = IfDone (λ r. r.0 ≡ 0 → I r.1)

  pub fail-Achieves :
      (I : World L → Type 0) (code : ℕ) (w : World L) → code ≢ 0 → Achieves I (fail L code w)
  unfolding fail
  fail-Achieves I code w bad = IfDone-done (λ r. r.0 ≡ 0 → I r.1) _ λ e. absurd (bad e)

  pub done-Achieves : (I : World L → Type 0) (w : World L) → I w → Achieves I (done (0, w))
  done-Achieves I w i = IfDone-done (λ r. r.0 ≡ 0 → I r.1) (0, w) λ e. i

  pub and_then-Achieves :
      (I J : World L → Type 0) (m : Outcome (ℕ × World L)) (k : World L → Outcome (ℕ × World L))
      → Achieves I m
      → ((w : World L) → I w → Achieves J (k w))
      → Achieves J (and_then L m k)
  unfolding and_then
  and_then-Achieves I J m k p q =
      IfDone-bind (λ r. r.0 ≡ 0 → I r.1) (λ r. r.0 ≡ 0 → J r.1) m _ p
        λ r h. elim (Bool-cases (r.0 == 0)) [
          | inl good ↦ rw good (q r.1 (h (ground arith)))
          | inr bad ↦ rw bad (IfDone-done (λ r. r.0 ≡ 0 → J r.1) r λ e. absurd (ground arith))
        ]

  pub either :
      (I : World L → Type 0) (b : Bool) (m k : Outcome (ℕ × World L))
      → Achieves I m
      → Achieves I k
      → Achieves I (if b then m else k)
  either I b m k p q = IfDone-if (λ r. r.0 ≡ 0 → I r.1) b m k p q

  pub behind {ℓ} :
      {A : Type ℓ} (I : World L → Type 0) (m : Outcome A) (k : A → Outcome (ℕ × World L))
      → ((a : A) → Achieves I (k a))
      → Achieves I (m >>= k)
  behind I m k h = IfDone-after (λ r. r.0 ≡ 0 → I r.1) m k h

module _ (L : CdsList) (env : Env) (s : WifiApT) where
  abbrev pub HasSettings : World L → Type 0
  HasSettings w = w.settings ≡ s

  pub record HasDnsmasq (w : World L) : Type 0 where
    pub same : w.settings ≡ s
    pub written : DnsmasqWritten s w.history

  configure_dnsmasq-Achieves :
      (cidr : Bytes) (w : World L)
      → w.settings ≡ s
      → Achieves L HasDnsmasq (configure_dnsmasq L env cidr w)
  unfolding configure_dnsmasq run
  configure_dnsmasq-Achieves cidr w e =
      behind L HasDnsmasq (text_of w.settings.interface_name) _ λ interface.
        either L HasDnsmasq _ _ _ (fail-Achieves L HasDnsmasq 2 _ (ground arith)) (
          IfDone-bind
            (λ h2.
              (host : Bytes) × (w.settings.host_name ≡ some host)
              × (content hosts_file h2 ≡ some (hosts_text (c_str w.settings.ip_ap) host)))
            (λ r. r.0 ≡ 0 → HasDnsmasq r.1)
            (create_hosts_config_file env (c_str w.settings.ip_ap) w.settings.host_name _) _
            (create_hosts-written env (c_str w.settings.ip_ap) w.settings.host_name _)
            λ h2 (host, host_set, hosts).
              IfDone-bind
                (λ h3.
                  (domain : Bytes) × (w.settings.domain_name ≡ some domain)
                  × (content dnsmasq_file h3
                      ≡ some (
                          unlines (
                            dnsmasq_lines (c_str w.settings.ip_ap) (c_str w.settings.ip_start)
                              (c_str w.settings.ip_stop) domain)))
                  × (content hosts_file h3 ≡ content hosts_file h2))
                (λ r. r.0 ≡ 0 → HasDnsmasq r.1)
                (create_dnsmasq_config_file env (c_str w.settings.ip_ap) (c_str w.settings.ip_start)
                  (c_str w.settings.ip_stop) w.settings.domain_name h2)
                _
                (create_dnsmasq-written env (c_str w.settings.ip_ap) (c_str w.settings.ip_start)
                  (c_str w.settings.ip_stop) w.settings.domain_name h2)
                λ h3 (domain, domain_set, dnsmasq, kept).
                  either L HasDnsmasq _ _ _ (fail-Achieves L HasDnsmasq 2 _ (ground arith)) (
                    done-Achieves L HasDnsmasq _ (record {
                      same = e;
                      written = rw (← e) (record {
                        host = host;
                        domain = domain;
                        host_set = host_set;
                        domain_set = domain_set;
                        hosts = kept ∙ hosts;
                        dnsmasq = dnsmasq;
                      });
                    })))

  choose-Achieves :
      (found : Option (ℕ × ℕ × ℕ)) (cidr : Bytes) (w : World L)
      → w.settings ≡ s
      → Achieves L HasDnsmasq (elim found [
        | none ↦ fail L 1 w
        | some range ↦ if is_within range then fail L 2 w else configure_dnsmasq L env cidr w
      ])
  choose-Achieves none cidr w e = fail-Achieves L HasDnsmasq 1 w (ground arith)
  choose-Achieves (some range) cidr w e =
      either L HasDnsmasq (is_within range) _ _ (fail-Achieves L HasDnsmasq 2 w (ground arith))
        (configure_dnsmasq-Achieves cidr w e)

  pub start_dnsmasq-Achieves :
      (w : World L) → w.settings ≡ s → Achieves L HasDnsmasq (start_dnsmasq L env w)
  unfolding start_dnsmasq set_dnsmasq_service
  start_dnsmasq-Achieves w e =
      IfDone-bind (λ r. r.0 ≡ 0 → HasDnsmasq r.1) (λ r. r.0 ≡ 0 → HasDnsmasq r.1)
        (set_dnsmasq_service L env w) _
        (either L HasDnsmasq _ _ _ (fail-Achieves L HasDnsmasq 2 w (ground arith)) (
          behind L HasDnsmasq (to_cidr (c_str w.settings.ip_netmask)) _
            λ bits. choose-Achieves (addresses env w.settings) _ w e))
        λ r h. elim (Bool-cases (r.0 == 0)) [
          | inl good ↦ rw good (done-Achieves L HasDnsmasq r.1 (h (ground arith)))
          | inr bad ↦ rw bad (fail-Achieves L HasDnsmasq 8 r.1 (ground arith))
        ]

  pub clean_previous-Achieves :
      (w : World L) → w.settings ≡ s → Achieves L HasSettings (clean_previous L env w)
  unfolding clean_previous run_or_fail run
  clean_previous-Achieves w e =
      either L HasSettings _ _ _
        (behind L HasSettings (text_of w.settings.interface_name) _ λ interface.
          either L HasSettings _ _ _ (fail-Achieves L HasSettings 9 _ (ground arith))
            (done-Achieves L HasSettings _ e))
        (done-Achieves L HasSettings w e)

  ran-HasDnsmasq :
      (w : World L) (cmd : Bytes)
      → HasDnsmasq w
      → HasDnsmasq (record w { history = ran cmd ∷ w.history })
  ran-HasDnsmasq w cmd h = record { same = h.same; written = ran-written s w.history cmd h.written }

  chosen :
      (b : Bool) (v w : World L) → HasDnsmasq v → HasDnsmasq w → HasDnsmasq (if b then v else w)
  chosen true v w p q = p
  chosen false v w p q = q

  pub run_if_present-HasDnsmasq :
      (probe command : Bytes) (w : World L)
      → HasDnsmasq w
      → IfDone HasDnsmasq (run_if_present L env probe command w)
  unfolding run_if_present run
  run_if_present-HasDnsmasq probe command w h =
      IfDone-after HasDnsmasq (text_of w.settings.interface_name) _ λ name.
        IfDone-done HasDnsmasq _ (
          chosen (is_zero (env.system w.history probe)) _ _
            (ran-HasDnsmasq (record w { history = ran probe ∷ w.history })
              (command_line env command name) (ran-HasDnsmasq w probe h))
            (ran-HasDnsmasq w probe h))
