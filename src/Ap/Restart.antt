-- ===== src/Ap/Restart.antt =====
-- The verb `restart` of src/wifiAp.c while an event thread runs: `startAp` makes a second one.
use wifiap_binding.Base.{
  ℕ, ◌<◌, ◌≡◌, ◌≢◌, ◌⊎◌, inl, inr, refl, ap, ◌∙◌, true, some, Outcome, done, ◌>>=◌, arith,
}
use wifiap_binding.System.{Env}
use wifiap_binding.Data.Types.{WifiApT, status_started, status_fail}
use wifiap_binding.Threads.{Threads, ThreadObj}
use wifiap_binding.Threads.Links.{CdsList, IsLawful}
use wifiap_binding.Ap.{World, set_status, and_then, command_wifiap_hostapd_stop}
use wifiap_binding.Ap.Ends.{Ends, Ends-and_then, IsSame}
use wifiap_binding.Ap.Service.{IsReady}
use wifiap_binding.Ap.Launch.{CanLaunch, IsEventThread, launch_thread_keeps}
use wifiap_binding.Ap.Status.{run_or_fail-Ends, start_ap-Ends}
use wifiap_binding.Ap.Start.{
  LaunchAnswers, was_configured, run_or_fail, start_ap, start_event_thread,
}
use wifiap_binding.Ap.Stop.{restart}

-- The access point is started with a second event thread; the object of the first one lives as it
-- was, and nothing leads to it.
pub record IsLost (L : CdsList) (env : Env) (p : ℕ) (obj : ThreadObj) (s : WifiApT) (w : World L)
    : Type 0 where
  pub settings : w.settings ≡ record s { status = status_started }
  pub second : ℕ
  pub other : second ≢ p
  pub second_obj : ThreadObj
  pub points : w.wifi_ap_thread_ptr ≡ some second
  pub event_thread : IsEventThread L env.script w.threads second second_obj
  pub lives : w.threads.heap p ≡ some obj

module _ (L : CdsList) (law : IsLawful L) (env : Env) where
  start_event_thread-IsLost :
      (answers : LaunchAnswers) (s : WifiApT) (t : Threads L) (p : ℕ) (obj : ThreadObj)
      (w : World L)
      → CanLaunch answers
      → IsEventThread L env.script t p obj
      → p < t.next
      → IsSame L s t w
      → Ends L (IsLost L env p obj s) (start_event_thread L env answers w)
  unfolding start_event_thread set_status
  start_event_thread-IsLost answers s t p obj w can running old same =
      let (t', obj', launches, event_thread, keeps) =
        launch_thread_keeps L law answers env.script w.settings.interface_name w.threads can
          (rw (same.threads) (running.one.free)) in
      let newer : p < w.threads.next = rw (same.threads) old in
      (
        (
          0,
          set_status L status_started
              (record w { threads = t'; wifi_ap_thread_ptr = some w.threads.next }),
        ),
        rw launches refl,
        inl (
          refl,
          record {
            settings = ap {A = WifiApT} (λ v. record v { status = status_started }) same.settings;
            second = w.threads.next;
            other = λ e. omega arith;
            second_obj = obj';
            points = refl;
            event_thread = event_thread;
            lives = keeps p (λ e. omega arith) ∙ rw (same.threads) (running.one.lives);
          },
        ),
      )

  -- What `restart` returns with.
  restarted :
      (J : World L → Type 0) (m : Outcome (ℕ × World L))
      → Ends L J m
      → (w' : World L) × ((m >>= λ r. done r.1) ≡ done w')
        × (J w' ⊎ (w'.settings.status ≡ status_fail))
  restarted J m (r, runs, inl (zero_code, j)) = (r.1, rw runs refl, inl j)
  restarted J m (r, runs, inr (bad, failed)) = (r.1, rw runs refl, inr failed)

  -- While an event thread is listed and running, and the access point was configured before,
  -- `restart` with settings that are ready for `startAp` and calls that make a thread with success
  -- returns, whatever the commands answer. The status is then "failure", or it is "started" with a
  -- second event thread behind the pointer and alone in the list, while the object of the first one
  -- still lives, running.
  pub restart_loses :
      (answers : LaunchAnswers) (w : World L) (p : ℕ) (obj : ThreadObj)
      → IsReady env w.settings
      → CanLaunch answers
      → IsEventThread L env.script w.threads p obj
      → p < w.threads.next
      → was_configured L env w ≡ true
      → (w' : World L) × (restart L env answers w ≡ done w')
        × (IsLost L env p obj w.settings w' ⊎ (w'.settings.status ≡ status_fail))
  unfolding restart
  restart_loses answers w p obj ready can running old configured =
      let s = w.settings in
      let J = IsLost L env p obj s in
      let (w', runs, ends) =
        restarted J
          (and_then L (run_or_fail L env command_wifiap_hostapd_stop 1 w)
            (λ w1. start_ap L env answers w1))
          (Ends-and_then L (IsSame L s w.threads) J _ _
            (run_or_fail-Ends L env s w.threads ready command_wifiap_hostapd_stop 1 w (ground arith)
              (record { settings = refl; threads = refl }))
            λ w1 same. start_ap-Ends L law env J answers w1 (rw (same.settings) ready) λ w7 s7.
              start_event_thread-IsLost answers s w.threads p obj w7 can running old (record {
                settings = s7.settings ∙ same.settings;
                threads = s7.threads ∙ same.threads;
              })) in
      (w', rw configured runs, ends)
