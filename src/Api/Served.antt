-- ===== src/Api/Served.antt =====
-- The states that the binding of src/wifiAp.c reaches while the calls that make and cancel threads
-- succeed: the mutex of the threads is free in each, and the verb `start` answers.
use mathlib.Core.List.{Memᴰ}
use mathlib.Core.Path.{subst}
use wifiap_binding.Base.{
  ℕ, ◌≡◌, ◌<◌, refl, Bool, true, false, Option, none, some, Outcome, done, ◌>>=◌, ◌==◌,
  if◌then◌else◌, All, All-Mem, IfDone, IfDone-done, IfDone-bind, IfDone-after, >>=-eq-done,
}
use wifiap_binding.Base.Bytes.{Bytes, c_str}
use wifiap_binding.Netmask.{mask_text}
use wifiap_binding.System.{History, hosts_file, dnsmasq_file}
use wifiap_binding.Data.Types.{WifiApT}
use wifiap_binding.Data.Calls.Buffers.{Copies}
use wifiap_binding.Replies.{Reply}
use wifiap_binding.Binder.{IsLawful}
use wifiap_binding.Threads.Links
use wifiap_binding.Ap.{World}
use wifiap_binding.Ap.Start.{LaunchAnswers, start, start_ap}
use wifiap_binding.Ap.Stop.{thread_ends, stop, restart}
use wifiap_binding.Ap.Launch.{CanLaunch}
use wifiap_binding.Ap.Keep.Starting.{start_ap-Keeps, start-Keeps}
use wifiap_binding.Ap.Keep.Stopping.{stop-Keeps, restart-Keeps}
use wifiap_binding.Ap.Mutex.{IsFreeWorld, settled}
use wifiap_binding.Ap.Mutex.Verbs.{
  thread_ends-IsFree, start_event_thread-IsFree, terminate_thread-IsFree,
}
use wifiap_binding.Ap.Verbs.{Agrees}
use wifiap_binding.Api.Setters.{SettingVerb}
use wifiap_binding.Api.Table.{Platform, Request, Callback, replying, setting, reading, verbs}
use wifiap_binding.Api.Reach.{Step, Reach, same_world}
use wifiap_binding.Api.Serves.{reached-start}
use wifiap_binding.Init.{
  BootAnswers, booted, start_at_init, finish_init, init_from, create_wifi_ap_data, binding_init,
}

-- The calls that make the event thread and that cancel it succeed.
pub record IsServed (P : Platform) (q : Request P) : Type 0 where
  pub launches : CanLaunch q.launching
  pub cancels : q.stopping.cancelling.pthread_cancel ≡ 0

module _ (P : Platform) where
  -- The states behind a successful initialisation, by such requests and by ends of threads.
  pub data Served : World P.list → Type 0 where
    initialised :
        {w : World P.list} (boot : BootAnswers P)
        → CanLaunch boot.launching
        → binding_init P boot ≡ done (0, some w)
        → Served w
    request :
        {w w' : World P.list} (name : Bytes) (f : Callback P) (q : Request P) (reply : Option Reply)
        → Served w
        → Memᴰ (name, f) (verbs P)
        → IsServed P q
        → f q w ≡ done (reply, w')
        → Served w'
    thread_end :
        {w w' : World P.list} (p : ℕ)
        → Served w
        → thread_ends P.list P.env p w ≡ done w'
        → Served w'

  pub Served-Reach : {w : World P.list} → Served w → Reach P w
  Served-Reach (initialised boot can runs) = Reach.initialised boot runs
  Served-Reach (request name f q reply s m ok runs) =
      Reach.later (Served-Reach s) (Step.request name f q reply m runs)
  Served-Reach (thread_end p s runs) = Reach.later (Served-Reach s) (Step.thread_end p runs)

module _ (P : Platform) (links : Links.IsLawful P.list) where
  abbrev FreeAfter : Callback P → Type 0
  FreeAfter f =
      (q : Request P) (w : World P.list)
      → IsServed P q
      → IsFreeWorld P.list w
      → IfDone (λ r. IsFreeWorld P.list r.1) (f q w)

  replying-Free :
      (f : Request P → World P.list → Outcome (Reply × World P.list))
      → ((q : Request P) (w : World P.list)
          → IsServed P q
          → IsFreeWorld P.list w
          → IfDone (λ r. IsFreeWorld P.list r.1) (f q w))
      → FreeAfter (replying P f)
  unfolding replying
  replying-Free f keeps q w ok h =
      IfDone-bind (λ r. IsFreeWorld P.list r.1) (λ r. IsFreeWorld P.list r.1) (f q w) _
        (keeps q w ok h) λ r p. IfDone-done (λ r. IsFreeWorld P.list r.1) _ p

  setting-Free : (set : SettingVerb P.strdup P.binder) → FreeAfter (setting P set)
  unfolding setting
  setting-Free set q w ok h =
      IfDone-after (λ r. IsFreeWorld P.list r.1) (set q.params w.settings) _
        λ r. IfDone-done (λ r. IsFreeWorld P.list r.1) _ h

  reading-Free : (get : Request P → WifiApT → Outcome Reply) → FreeAfter (reading P get)
  unfolding reading
  reading-Free get q w ok h =
      IfDone-after (λ r. IsFreeWorld P.list r.1) (get q w.settings) _
        λ r. IfDone-done (λ r. IsFreeWorld P.list r.1) _ h

  start-Free : FreeAfter (replying P (λ q w. start P.list P.env q.launching w))
  start-Free = replying-Free _ λ q w ok h.
      start-Keeps P.list (IsFreeWorld P.list) (settled P.list) P.env q.launching
        (start_event_thread-IsFree P.list links P.env q.launching ok.launches) w h

  stop-Free : FreeAfter (replying P (λ q w. stop P.list P.env q.stopping w))
  stop-Free = replying-Free _ λ q w ok h.
      stop-Keeps P.list (IsFreeWorld P.list) (settled P.list) P.env q.stopping
        (terminate_thread-IsFree P.list links P.env q.stopping ok.cancels) w h

  restart-Free : FreeAfter (λ q w. restart P.list P.env q.launching w >>= λ w'. done (none, w'))
  restart-Free q w ok h =
      IfDone-bind (IsFreeWorld P.list) (λ r. IsFreeWorld P.list r.1) _ _
        (restart-Keeps P.list (IsFreeWorld P.list) (settled P.list) P.env q.launching
          (start_event_thread-IsFree P.list links P.env q.launching ok.launches) w h)
        λ w' p. IfDone-done (λ r. IsFreeWorld P.list r.1) _ p

  verbs-Free : All (λ v. FreeAfter v.1) (verbs P)
  unfolding verbs
  verbs-Free = (start-Free, (stop-Free, (restart-Free, search (reading-Free, setting-Free))))

  booted-IsFree : (s : WifiApT) → IsFreeWorld P.list (booted P s)
  booted-IsFree s = record { free = refl; cells = λ q. tt; points = tt }

  finish_init-Free :
      (answers : LaunchAnswers) (start : Bool) (o : Option WifiApT) (w : World P.list)
      → CanLaunch answers
      → finish_init P answers start o ≡ done (0, some w)
      → IsFreeWorld P.list w
  unfolding finish_init
  finish_init-Free answers start none w can runs = absurd cc
  finish_init-Free answers false (some s) w can runs =
      subst (IsFreeWorld P.list)
        (same_world P (0, some (booted P s)) (0, some w) (booted P s) w runs refl refl)
        (booted-IsFree s)
  finish_init-Free answers true (some s) w can runs =
      let (r, ran, ends) = >>=-eq-done (start_ap P.list P.env answers (booted P s)) _ runs in
      subst (IsFreeWorld P.list)
        (same_world P (if r.0 == 0 then 0 else 1, some r.1) (0, some w) r.1 w ends refl refl)
        (start_ap-Keeps P.list (IsFreeWorld P.list) (settled P.list) P.env answers
          (start_event_thread-IsFree P.list links P.env answers can) (booted P s) (booted-IsFree s)
          r ran)

  binding_init-Free :
      (boot : BootAnswers P) (w : World P.list)
      → CanLaunch boot.launching
      → binding_init P boot ≡ done (0, some w)
      → IsFreeWorld P.list w
  unfolding binding_init init_from
  binding_init-Free boot w can runs = read _ runs
    where
      read :
          (o : Option P.binder.Json) → init_from P boot o ≡ done (0, some w) → IsFreeWorld P.list w
      read none h = absurd cc
      read (some config) h =
          let (o, created, ends) =
            >>=-eq-done (create_wifi_ap_data P.binder P.strdup boot.allocated boot.event config) _
              h in
          finish_init-Free boot.launching (start_at_init P config) o w can ends

  -- In every state that a successful initialisation, requests to any verbs and ends of threads lead
  -- to, while the calls that make and that cancel the event thread succeed, the mutex of the threads
  -- is free, every thread object is that of a joinable thread, and `wifiApThreadPtr` is NULL, or its
  -- object is freed, or it is the one listed thread.
  pub Served-IsFree : {w : World P.list} → Served P w → IsFreeWorld P.list w
  Served-IsFree (initialised {w} boot can runs) = binding_init-Free boot w can runs
  Served-IsFree (request {w} {w'} name f q reply s m ok runs) =
      All-Mem (λ v. FreeAfter v.1) (name, f) (verbs P) verbs-Free m q w ok (Served-IsFree s)
        (reply, w') runs
  Served-IsFree (thread_end {w} {w'} p s runs) =
      thread_ends-IsFree P.list links P.env p w (Served-IsFree s) w' runs

-- In every such state whose netmask is a mask of leading ones, if the files of dnsmasq can be opened
-- and the calls that make the event thread succeed, the verb `start` sends a reply, and the reply and
-- the status afterwards tell the same: it never waits for the mutex.
pub Served-start :
    (P : Platform)
    → IsLawful P.binder
    → Links.IsLawful P.list
    → Copies P.strdup
    → {w : World P.list} → Served P w
    → (n : ℕ) → n < 33
    → c_str w.settings.ip_netmask ≡ mask_text n
    → ((h : History) → P.env.can_open h hosts_file ≡ true)
    → ((h : History) → P.env.can_open h dnsmasq_file ≡ true)
    → (answers : LaunchAnswers) → CanLaunch answers
    → (reply : Reply) × (w' : World P.list) × (start P.list P.env answers w ≡ done (reply, w'))
      × Agrees P.list reply w'
Served-start P law links copies s n lt mask hosts dnsmasq answers can =
    reached-start P law links copies (Served-Reach P s) n lt mask hosts dnsmasq answers can
      (Served-IsFree P links s).free
