-- ===== src/Api/Serves.antt =====
-- The verb `start` of src/wifiAp.c answers in every reachable state.
use wifiap_binding.Base.{ℕ, ◌<◌, ◌≡◌, true, false, done}
use wifiap_binding.Base.Bytes.{c_str}
use wifiap_binding.Netmask.{mask_text}
use wifiap_binding.System.{History, hosts_file, dnsmasq_file}
use wifiap_binding.Data.Calls.Buffers.{Copies}
use wifiap_binding.Replies.{Reply}
use wifiap_binding.Binder.{IsLawful}
use wifiap_binding.Threads.Links
use wifiap_binding.Ap.{World}
use wifiap_binding.Ap.Start.{LaunchAnswers, start}
use wifiap_binding.Ap.Launch.{CanLaunch}
use wifiap_binding.Ap.Service.{IsReady}
use wifiap_binding.Ap.Verbs.{Agrees, start_lem}
use wifiap_binding.Api.Table.{Platform}
use wifiap_binding.Api.Reach.{Reach, Reach-IsSound}

-- In every reachable state whose netmask is a mask of leading ones, if the files of dnsmasq can be
-- opened, the thread library answers with success and the mutex of the threads is free, the verb
-- `start` sends a reply, and the reply and the status afterwards tell the same.
pub reached-start :
    (P : Platform)
    → IsLawful P.binder
    → Links.IsLawful P.list
    → Copies P.strdup
    → {w : World P.list} → Reach P w
    → (n : ℕ) → n < 33
    → c_str w.settings.ip_netmask ≡ mask_text n
    → ((h : History) → P.env.can_open h hosts_file ≡ true)
    → ((h : History) → P.env.can_open h dnsmasq_file ≡ true)
    → (answers : LaunchAnswers) → CanLaunch answers
    → w.threads.locked ≡ false
    → (reply : Reply) × (w' : World P.list) × (start P.list P.env answers w ≡ done (reply, w'))
      × Agrees P.list reply w'
reached-start P law links copies {w} reach n lt mask hosts dnsmasq answers can free =
    let (well_formed, (interface, domain, host, _)) = Reach-IsSound P law copies reach in
    let ready : IsReady P.env w.settings = record {
      well_formed = well_formed;
      interface = interface;
      host = host;
      domain = domain;
      netmask = (n, lt, mask);
      opens_hosts = hosts;
      opens_dnsmasq = dnsmasq;
    } in
    let (reply, w', runs, agrees, _) = start_lem P.list links P.env answers w ready can free in
    (reply, w', runs, agrees)
