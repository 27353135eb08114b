-- ===== src/Ap/Cycle.antt =====
-- The access point of src/wifiAp.c is started, stopped, and started again.
use mathlib.Core.Path.{subst}
use wifiap_binding.Base.{
  ℕ, ◌≡◌, refl, sym, inl, inr, ap, ◌∙◌, false, done, fault, use_after_free, Outcome,
}
use wifiap_binding.System.{Env}
use wifiap_binding.Data.Types.{WifiApT, ApStatus, status_started}
use wifiap_binding.Replies.{success}
use wifiap_binding.Threads.{joined}
use wifiap_binding.Threads.Links.{CdsList, IsLawful}
use wifiap_binding.Ap.{World}
use wifiap_binding.Ap.Ends.{Ends}
use wifiap_binding.Ap.Frame.{service_verbs-Framed}
use wifiap_binding.Ap.Launch.{CanLaunch}
use wifiap_binding.Ap.Service.{IsReady}
use wifiap_binding.Ap.Start.{LaunchAnswers, start_ap}
use wifiap_binding.Ap.Status.{IsStarted, start_ap_lem}
use wifiap_binding.Ap.Stop.{StopAnswers, stop}
use wifiap_binding.Ap.Stopped.{CanStop, IsStopped, stop-dangling, stop_lem}

-- What a start and a stop rely on does not depend on the status.
status-IsReady :
    (env : Env) (s : WifiApT) (st : ApStatus)
    → IsReady env s
    → IsReady env (record s { status = st })
status-IsReady env s st h = record {
  well_formed = let ok = h.well_formed in assumption ok;
  interface = h.interface;
  host = h.host;
  domain = h.domain;
  netmask = h.netmask;
  opens_hosts = h.opens_hosts;
  opens_dnsmasq = h.opens_dnsmasq;
}

status-CanStop :
    (env : Env) (s : WifiApT) (st : ApStatus)
    → CanStop env s
    → CanStop env (record s { status = st })
status-CanStop env s st h = record { interface = h.interface; commands = h.commands }

module _ (L : CdsList) (law : IsLawful L) (env : Env) where
  done_inj : (r q : ℕ × World L) → ◌≡◌ {A = Outcome (ℕ × World L)} (done r) (done q) → r ≡ q
  done_inj r q e = cc

  -- What a step that returned 0 has reported.
  reported :
      (J : World L → Type 0) (m : Outcome (ℕ × World L)) (q : ℕ × World L)
      → Ends L J m
      → m ≡ done q
      → q.0 ≡ 0
      → J q.1
  reported J m q (r, runs, inl (zero_code, j)) e zero =
      subst J (ap (λ v. v.1) (done_inj r q (sym runs ∙ e))) j
  reported J m q (r, runs, inr (bad, failed)) e zero =
      absurd (bad (ap (λ v. v.0) (done_inj r q (sym runs ∙ e)) ∙ zero))

  -- Where the settings are ready, every command succeeds, and the calls that make, cancel and join the
  -- event thread succeed: once `startAp` has returned 0, `stop` replies success, with an empty thread
  -- list, a free mutex and the settings from before the start, but for the status; and `startAp` can
  -- be called again: it returns, and its code agrees with the status, as for the first start.
  pub start_stop_start :
      (answers again : LaunchAnswers) (stopping : StopAnswers) (w w' : World L)
      → IsReady env w.settings
      → CanStop env w.settings
      → CanLaunch answers
      → CanLaunch again
      → stopping.cancelling.pthread_cancel ≡ 0
      → stopping.joining ≡ joined
      → w.threads.locked ≡ false
      → start_ap L env answers w ≡ done (0, w')
      → (p : ℕ) × (w'' : World L) × (stop L env stopping w' ≡ done (success, w''))
        × IsStopped L p w''
        × (record w''.settings { status = w.settings.status } ≡ w.settings)
        × Ends L (IsStarted L env w''.settings) (start_ap L env again w'')
  start_stop_start answers again stopping w w' ready can launches relaunches cancels joins free
        runs =
      let started =
        reported (IsStarted L env w.settings) (start_ap L env answers w) (0, w')
          (start_ap_lem L law env answers w ready launches free) runs refl in
      let can' : CanStop env w'.settings =
        subst (CanStop env) (sym started.settings)
          (status-CanStop env w.settings status_started can) in
      let (w'', stops, stopped) =
        stop_lem L env law stopping started.p started.obj w' can' cancels joins started.points
          started.event_thread in
      let frame : record w''.settings { status = w'.settings.status } ≡ w'.settings =
        service_verbs-Framed L env again stopping w' w'' success (inr (inl stops)) in
      let ready' : IsReady env w'.settings =
        subst (IsReady env) (sym started.settings)
          (status-IsReady env w.settings status_started ready) in
      let ready'' : IsReady env w''.settings =
        status-IsReady env (record w''.settings { status = w'.settings.status }) w''.settings.status
          (subst (IsReady env) (sym frame) ready') in
      (
        started.p,
        w'',
        stops,
        stopped,
        ap {A = WifiApT} (λ v. record v { status = w.settings.status }) (frame ∙ started.settings),
        start_ap_lem L law env again w'' ready'' relaunches stopped.free,
      )

  -- Where the settings are ready, every command succeeds, and the calls that make, cancel and join the
  -- event thread succeed: once `startAp` has returned 0, a first `stop` replies success, and a second
  -- one reads the thread object that the first has freed.
  pub stop_again :
      (answers : LaunchAnswers) (stopping again : StopAnswers) (w w' : World L)
      → IsReady env w.settings
      → CanStop env w.settings
      → CanLaunch answers
      → stopping.cancelling.pthread_cancel ≡ 0
      → stopping.joining ≡ joined
      → w.threads.locked ≡ false
      → start_ap L env answers w ≡ done (0, w')
      → (w'' : World L) × (stop L env stopping w' ≡ done (success, w''))
        × (stop L env again w'' ≡ fault use_after_free)
  stop_again answers stopping again w w' ready can launches cancels joins free runs =
      let (p, w'', stops, stopped, frame, _) =
        start_stop_start answers answers stopping w w' ready can launches launches cancels joins
          free runs in
      let back : CanStop env (record w''.settings { status = w.settings.status }) =
        subst (CanStop env) (sym frame) can in
      (
        w'',
        stops,
        stop-dangling L env again p w''
            (status-CanStop env (record w''.settings { status = w.settings.status })
              w''.settings.status back)
            stopped,
      )
