-- ===== src/Ap/Stop.antt =====
-- The verbs `stop` and `restart` of src/wifiAp.c, with the destructor of the event thread.
use wifiap_binding.Base.{
  ℕ, ◌+◌, ◌++◌, Option, none, some, List, [], ◌∷◌, Outcome, done, ◌>>=◌, ◌==◌, if◌then◌else◌,
}
use wifiap_binding.Base.Bytes.{Bytes, codes}
use wifiap_binding.Replies.{Reply, success, user_error}
use wifiap_binding.System.{Env, wexitstatus, succeeded}
use wifiap_binding.System.Format.{snprintf}
use wifiap_binding.Data.Types.{status_stopped, status_fail}
use wifiap_binding.Threads.{
  Answers, JoinAnswer, joined, read, cancel_thread, join_thread, cleanup_thread,
}
use wifiap_binding.Threads.Links.{CdsList}
use wifiap_binding.Ap.{
  World, run, set_status, and_then, command_line, text_of, path_max, command_wifi_hw_stop,
  command_wifi_unset_event, command_wifiap_hostapd_stop,
}
use wifiap_binding.Ap.Start.{LaunchAnswers, was_configured, run_or_fail, start_ap}

-- The answers to the calls of `stop`.
pub record StopAnswers : Type 0 where
  pub cancelling : Answers
  pub joining : JoinAnswer

module _ (L : CdsList) where
  -- `threadDestructorFunc` for each context, in order. A failing script only logs; the pipe of
  -- the thread is in Ap/Events.
  unfoldable pub thread_destructor_funcs : Env → List Bytes → World L → World L
  unfolding run
  thread_destructor_funcs env [] w = w
  thread_destructor_funcs env (context ∷ rest) w =
      thread_destructor_funcs env rest
        (run L env (snprintf path_max (context ++ codes " " ++ command_wifi_unset_event)) w).1

  -- The end of a cancelled thread: its cleanup handler.
  unfoldable pub thread_ends : Env → ℕ → World L → Outcome (World L)
  thread_ends env p w = cleanup_thread L p w.threads >>= λ r.
      done (thread_destructor_funcs env r.0 (record w { threads = r.1 }))

  -- `pthread_join` returns with success only when the thread has ended. A cancelled thread that is
  -- not waited for has not moved here.
  unfoldable pub wait_for_end : Env → JoinAnswer → ℕ → World L → Outcome (World L)
  wait_for_end env joined p w = thread_ends env p w
  wait_for_end env _ p w = done w

  -- `JoinThread` behind a cancel that has succeeded; an error has the code 2000.
  unfoldable pub join_ended : Env → StopAnswers → ℕ → World L → Outcome (ℕ × World L)
  join_ended env answers p w = do
    w1 ← wait_for_end env answers.joining p w
    obj ← read L p w.threads
    r ← join_thread L answers.joining obj.thread_id w1.threads
    let w2 : World L = record w1 { threads = r.1 }
    done (if r.0 == 0 then 0 else 2000, w2)

  -- A cancel that fails only logs.
  unfoldable pub terminate_thread : Env → StopAnswers → World L → Outcome (ℕ × World L)
  terminate_thread env answers w = elim w.wifi_ap_thread_ptr [
    | none ↦ done (0, w)
    | some p ↦ read L p w.threads >>= λ obj.
        cancel_thread L answers.cancelling obj.thread_id w.threads >>= λ r.
        if r.0 == 0
        then join_ended env answers p (record w { threads = r.1 })
        else done (0, record w { threads = r.1 })
  ]

  -- The script with one command; where it fails, the exit status with `base` added is the error.
  unfoldable pub run_or_reply : Env → Bytes → ℕ → World L → Outcome (Option Reply × World L)
  unfolding run set_status
  run_or_reply env command base w = text_of w.settings.interface_name >>= λ interface.
      let (status, w1) = run L env (command_line env command interface) w in
      if succeeded status
      then done (none, w1)
      else done (some (user_error (base + wexitstatus status)), set_status L status_fail w1)

  unfoldable pub unless_replied :
      Outcome (Option Reply × World L)
      → (World L → Outcome (Reply × World L))
      → Outcome (Reply × World L)
  unless_replied step rest =
      step >>= λ r. elim r.0 [ none ↦ rest r.1 | some reply ↦ done (reply, r.1) ]

  -- The verb `stop`.
  unfoldable pub stop : Env → StopAnswers → World L → Outcome (Reply × World L)
  unfolding set_status
  stop env answers w = unless_replied (run_or_reply env command_wifiap_hostapd_stop 0 w) λ w1.
      unless_replied (run_or_reply env command_wifi_hw_stop 1000 w1) λ w2.
        terminate_thread env answers w2 >>= λ r. done (
          if r.0 == 0
          then (success, set_status L status_stopped r.1)
          else (user_error r.0, set_status L status_fail r.1))

  -- The verb `restart`, which sends no reply on any path.
  unfoldable pub restart : Env → LaunchAnswers → World L → Outcome (World L)
  restart env answers w =
      if was_configured L env w
      then ((and_then L (run_or_fail L env command_wifiap_hostapd_stop 1 w)
            (λ w1. start_ap L env answers w1))
          >>= (λ r. done r.1))
      else done w
