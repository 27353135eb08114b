-- ===== src/Ap/Service.antt =====
-- `setDnsmasqService` returns, if the system lets the two files be opened.
use wifiap_binding.Base.{
  ℕ, ◌<◌, ◌≡◌, refl, Bool, true, not, Option, none, some, Outcome, done, if◌then◌else◌, arith,
}
use wifiap_binding.Base.Bytes.{Bytes, c_str}
use wifiap_binding.Netmask.{to_cidr, mask_text, to_cidr-mask_text}
use wifiap_binding.System.{Env, hosts_file, dnsmasq_file, History}
use wifiap_binding.Data.Types.{WifiApT}
use wifiap_binding.Data.Calls.Invariant.{IsWellFormed}
use wifiap_binding.Threads.{Threads}
use wifiap_binding.Threads.Links.{CdsList}
use wifiap_binding.Config.{create_hosts_config_file, create_dnsmasq_config_file}
use wifiap_binding.Ap.{World, run, fail, text_of}
use wifiap_binding.Ap.Ends.{Ends, Ends-fail, Ends-done, Ends-if, Ends-bind, IsSame}
use wifiap_binding.Ap.Dnsmasq.{addresses, is_within, configure_dnsmasq, set_dnsmasq_service}

-- The settings that `startAp` relies on, and the files that it must be able to open.
pub record IsReady (env : Env) (s : WifiApT) : Type 0 where
  pub well_formed : IsWellFormed s
  pub interface : (name : Bytes) × (s.interface_name ≡ some name)
  pub host : (name : Bytes) × (s.host_name ≡ some name)
  pub domain : (name : Bytes) × (s.domain_name ≡ some name)
  pub netmask : (n : ℕ) × (n < 33) × (c_str s.ip_netmask ≡ mask_text n)
  pub opens_hosts : (h : History) → env.can_open h hosts_file ≡ true
  pub opens_dnsmasq : (h : History) → env.can_open h dnsmasq_file ≡ true

-- The call returns.
Returned : Outcome History → Type 0
Returned m = (h : History) × (m ≡ done h)

Returned-open :
    (b : Bool) (m k : Outcome History) → b ≡ true → Returned k → Returned (if not b then m else k)
unfolding Returned
Returned-open b m k ok (h, runs) = (h, rw ok runs)

create_hosts-Returned :
    (env : Env) (ip : Bytes) (host : Option Bytes) (h : History)
    → env.can_open h hosts_file ≡ true
    → (name : Bytes) × (host ≡ some name)
    → Returned (create_hosts_config_file env ip host h)
unfolding create_hosts_config_file Returned
create_hosts-Returned env ip none h ok (name, e) = absurd cc
create_hosts-Returned env ip (some name) h ok _ = Returned-open _ _ _ ok (_, refl)

create_dnsmasq-Returned :
    (env : Env) (ip start stop : Bytes) (domain : Option Bytes) (h : History)
    → env.can_open h dnsmasq_file ≡ true
    → (name : Bytes) × (domain ≡ some name)
    → Returned (create_dnsmasq_config_file env ip start stop domain h)
unfolding create_dnsmasq_config_file Returned
create_dnsmasq-Returned env ip start stop none h ok (name, e) = absurd cc
create_dnsmasq-Returned env ip start stop (some name) h ok _ = Returned-open _ _ _ ok (_, refl)

module _ (L : CdsList) (env : Env) (s : WifiApT) (t : Threads L) (ready : IsReady env s) where
  -- The name of the interface is there.
  pub interface_lem :
      (w : World L)
      → w.settings ≡ s
      → (name : Bytes) × (text_of w.settings.interface_name ≡ done name)
  interface_lem w es = let (name, e) = ready.interface in (name, rw es (rw e refl))

  configure_dnsmasq-Ends :
      (cidr : Bytes) (w : World L)
      → w.settings ≡ s
      → w.threads ≡ t
      → Ends L (IsSame L s t) (configure_dnsmasq L env cidr w)
  unfolding configure_dnsmasq run Returned
  configure_dnsmasq-Ends cidr w es et =
      Ends-bind L _ (text_of w.settings.interface_name) _ (interface_lem w es) λ interface.
        Ends-if L _ _ _ _ (Ends-fail L _ 2 _ (ground arith)) (
          Ends-bind L _ (create_hosts_config_file env _ w.settings.host_name _) _
            (create_hosts-Returned env _ _ _ (ready.opens_hosts _) (rw es (ready.host)))
            λ h2.
              Ends-bind L _ (create_dnsmasq_config_file env _ _ _ w.settings.domain_name h2) _
                (create_dnsmasq-Returned env _ _ _ _ h2 (ready.opens_dnsmasq h2)
                  (rw es (ready.domain)))
                λ h3.
                  Ends-if L _ _ _ _ (Ends-fail L _ 2 _ (ground arith))
                    (Ends-done L _ _ (record { settings = es; threads = et })))

  choose-Ends :
      (found : Option (ℕ × ℕ × ℕ)) (cidr : Bytes) (w : World L)
      → w.settings ≡ s
      → w.threads ≡ t
      → Ends L (IsSame L s t) (elim found [
        | none ↦ fail L 1 w
        | some range ↦ if is_within range then fail L 2 w else configure_dnsmasq L env cidr w
      ])
  choose-Ends none cidr w es et = Ends-fail L _ 1 w (ground arith)
  choose-Ends (some range) cidr w es et =
      Ends-if L _ _ _ _ (Ends-fail L _ 2 w (ground arith)) (configure_dnsmasq-Ends cidr w es et)

  pub set_dnsmasq_service-Ends :
      (w : World L)
      → w.settings ≡ s
      → w.threads ≡ t
      → Ends L (IsSame L s t) (set_dnsmasq_service L env w)
  unfolding set_dnsmasq_service
  set_dnsmasq_service-Ends w es et =
      let (n, small, mask) = ready.netmask in
      let cidr : to_cidr (c_str w.settings.ip_netmask) ≡ done n =
        rw es (rw mask (to_cidr-mask_text n small)) in
      Ends-if L _ _ _ _ (Ends-fail L _ 2 w (ground arith)) (
        Ends-bind L _ (to_cidr (c_str w.settings.ip_netmask)) _ (n, cidr)
          λ bits. choose-Ends (addresses env w.settings) _ w es et)
