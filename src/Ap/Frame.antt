-- ===== src/Ap/Frame.antt =====
-- What `start`, `stop` and `restart` of src/wifiAp.c leave alone: every setting but the status.
use wifiap_binding.Base.{
  ℕ, ◌≡◌, ◌⊎◌, inl, inr, refl, Option, none, some, done, ◌>>=◌, ◌==◌, if◌then◌else◌, IfDone,
  IfDone-done, IfDone-bind, IfDone-after,
}
use wifiap_binding.System.{Env}
use wifiap_binding.Data.Types.{WifiApT}
use wifiap_binding.Threads.Links.{CdsList}
use wifiap_binding.Threads.{
  JoinAnswer, joined, edeadlk, esrch, other_error, read, cleanup_thread, cancel_thread, join_thread,
}
use wifiap_binding.Replies.{Reply}
use wifiap_binding.Ap.{World, set_status}
use wifiap_binding.Ap.Start.{LaunchAnswers, launch_thread, start_event_thread, start_ap, start}
use wifiap_binding.Ap.Stop.{
  StopAnswers, thread_ends, wait_for_end, join_ended, terminate_thread, stop, restart,
}
use wifiap_binding.Ap.Keep.{IsSettled, Keeps, done-Keeps, if-Keeps, after}
use wifiap_binding.Ap.Keep.Starting.{start_ap-Keeps, start-Keeps}
use wifiap_binding.Ap.Keep.Stopping.{destructors-keep, stop-Keeps, restart-Keeps}

module _ (L : CdsList) (s : WifiApT) where
  -- The settings are those of `s`, but for the status.
  abbrev pub IsFrame : World L → Type 0
  IsFrame w = record w.settings { status = s.status } ≡ s

module _ (L : CdsList) (s : WifiApT) (env : Env) where
  settled : IsSettled L (IsFrame L s)
  unfolding set_status
  settled = record { logs = λ w h same. same; marks = λ w st same. same }

  start_event_thread-Framed :
      (answers : LaunchAnswers) (w : World L)
      → IsFrame L s w
      → Keeps L (IsFrame L s) settled (start_event_thread L env answers w)
  unfolding start_event_thread set_status
  start_event_thread-Framed answers w h =
      after L (IsFrame L s) settled
        (launch_thread L answers env.script w.settings.interface_name w.threads) _
        λ r. done-Keeps L (IsFrame L s) settled 0 _ h

  -- Whatever `startAp` returns, it has changed no setting but the status.
  pub start_ap-Framed :
      (answers : LaunchAnswers) (w : World L)
      → IsFrame L s w
      → IfDone (λ r. IsFrame L s r.1) (start_ap L env answers w)
  start_ap-Framed answers w h =
      start_ap-Keeps L (IsFrame L s) settled env answers (start_event_thread-Framed answers) w h

  pub start-Framed :
      (answers : LaunchAnswers) (w : World L)
      → IsFrame L s w
      → IfDone (λ r. IsFrame L s r.1) (start L env answers w)
  start-Framed answers w h =
      start-Keeps L (IsFrame L s) settled env answers (start_event_thread-Framed answers) w h

  pub thread_ends-Framed :
      (p : ℕ) (w : World L) → IsFrame L s w → IfDone (IsFrame L s) (thread_ends L env p w)
  unfolding thread_ends
  thread_ends-Framed p w h = IfDone-after (IsFrame L s) (cleanup_thread L p w.threads) _ λ r.
      IfDone-done (IsFrame L s) _
        (destructors-keep L (IsFrame L s) settled env r.0 (record w { threads = r.1 }) h)

  wait_for_end-Framed :
      (answer : JoinAnswer) (p : ℕ) (w : World L)
      → IsFrame L s w
      → IfDone (IsFrame L s) (wait_for_end L env answer p w)
  unfolding wait_for_end
  wait_for_end-Framed joined p w h = thread_ends-Framed p w h
  wait_for_end-Framed edeadlk p w h = IfDone-done (IsFrame L s) w h
  wait_for_end-Framed esrch p w h = IfDone-done (IsFrame L s) w h
  wait_for_end-Framed other_error p w h = IfDone-done (IsFrame L s) w h

  join_ended-Framed :
      (answers : StopAnswers) (p : ℕ) (w : World L)
      → IsFrame L s w
      → Keeps L (IsFrame L s) settled (join_ended L env answers p w)
  unfolding join_ended
  join_ended-Framed answers p w h =
      IfDone-bind (IsFrame L s) (λ r. IsFrame L s r.1) _ _
        (wait_for_end-Framed answers.joining p w h)
        λ w1 h1. after L (IsFrame L s) settled (read L p w.threads) _ λ obj.
          after L (IsFrame L s) settled (join_thread L answers.joining obj.thread_id w1.threads) _
            λ r. IfDone-done (λ r. IsFrame L s r.1) _ h1

  cancelled-Framed :
      (o : Option ℕ) (answers : StopAnswers) (w : World L)
      → IsFrame L s w
      → Keeps L (IsFrame L s) settled {A = ℕ} (elim o [
        | none ↦ done (0, w)
        | some p ↦ read L p w.threads >>= λ obj.
            cancel_thread L answers.cancelling obj.thread_id w.threads >>= λ r.
            if r.0 == 0
            then join_ended L env answers p (record w { threads = r.1 })
            else done (0, record w { threads = r.1 })
      ])
  cancelled-Framed none answers w h = done-Keeps L (IsFrame L s) settled 0 w h
  cancelled-Framed (some p) answers w h =
      after L (IsFrame L s) settled (read L p w.threads) _ λ obj.
        after L (IsFrame L s) settled (cancel_thread L answers.cancelling obj.thread_id w.threads) _
          λ r.
            if-Keeps L (IsFrame L s) settled _ _ _ (join_ended-Framed answers p _ h)
              (done-Keeps L (IsFrame L s) settled 0 _ h)

  terminate_thread-Framed :
      (answers : StopAnswers) (w : World L)
      → IsFrame L s w
      → Keeps L (IsFrame L s) settled (terminate_thread L env answers w)
  unfolding terminate_thread
  terminate_thread-Framed answers w h = cancelled-Framed w.wifi_ap_thread_ptr answers w h

  pub stop-Framed :
      (answers : StopAnswers) (w : World L)
      → IsFrame L s w
      → IfDone (λ r. IsFrame L s r.1) (stop L env answers w)
  stop-Framed answers w h =
      stop-Keeps L (IsFrame L s) settled env answers (terminate_thread-Framed answers) w h

  pub restart-Framed :
      (answers : LaunchAnswers) (w : World L)
      → IsFrame L s w
      → IfDone (IsFrame L s) (restart L env answers w)
  restart-Framed answers w h =
      restart-Keeps L (IsFrame L s) settled env answers (start_event_thread-Framed answers) w h

-- A world that `start`, `stop` or `restart` returns with, on whatever path, has the settings from
-- before, but for the status.
pub service_verbs-Framed :
    (L : CdsList) (env : Env) (launching : LaunchAnswers) (stopping : StopAnswers) (w w' : World L)
    → (reply : Reply)
    → (start L env launching w ≡ done (reply, w'))
      ⊎ (stop L env stopping w ≡ done (reply, w'))
      ⊎ (restart L env launching w ≡ done w')
    → record w'.settings { status = w.settings.status } ≡ w.settings
service_verbs-Framed L env launching stopping w w' reply (inl started) =
    start-Framed L w.settings env launching w refl (reply, w') started
service_verbs-Framed L env launching stopping w w' reply (inr (inl stopped)) =
    stop-Framed L w.settings env stopping w refl (reply, w') stopped
service_verbs-Framed L env launching stopping w w' reply (inr (inr restarted)) =
    restart-Framed L w.settings env launching w refl w' restarted
