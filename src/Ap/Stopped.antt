-- ===== src/Ap/Stopped.antt =====
-- The verb `stop`, after a start, and once more.
use wifiap_binding.Base.{
  ℕ, ◌≡◌, refl, true, false, Option, none, some, List, [], ◌∷◌, Outcome, done, fault, ◌>>=◌, ◌==◌,
  use_after_free, if◌then◌else◌, ap, ◌∙◌,
}
use wifiap_binding.Base.Bytes.{Bytes}
use wifiap_binding.System.{Env, History, succeeded}
use wifiap_binding.Data.Types.{WifiApT, status_stopped, status_fail}
use wifiap_binding.Threads.{
  Threads, ThreadObj, joined, read, write, thread_dying, cleanup_thread, cancel_thread, join_thread,
}
use wifiap_binding.Threads.Links.{CdsList, IsLawful}
use wifiap_binding.Threads.Lifecycle.{
  released, read_lem, cancel_thread_lem, write-OneThread, join_thread_lem,
}
use wifiap_binding.Threads.Cleanup.{cleanup_thread_joinable}
use wifiap_binding.Ap.{
  World, run, set_status, command_line, command_wifi_hw_stop, command_wifiap_hostapd_stop,
}
use wifiap_binding.Ap.Launch.{IsEventThread}
use wifiap_binding.Replies.{Reply, success}
use wifiap_binding.Ap.Start.{thread_destructor_func}
use wifiap_binding.Ap.Stop.{
  StopAnswers, thread_destructor_funcs, thread_ends, wait_for_end, join_ended, terminate_thread,
  run_or_reply, unless_replied, stop,
}

-- The interface has a name, and the two commands of `stop` succeed.
pub record CanStop (env : Env) (s : WifiApT) : Type 0 where
  pub interface : (name : Bytes) × (s.interface_name ≡ some name)
  pub commands : (h : History) (command : Bytes) → succeeded (env.system h command) ≡ true

-- The access point is marked stopped; the list is empty, the mutex is free, and the pointer still
-- points to the object, which is freed.
pub record IsStopped (L : CdsList) (p : ℕ) (w : World L) : Type 0 where
  pub status : w.settings.status ≡ status_stopped
  pub listed : L.entries w.threads.thread_list ≡ []
  pub free : w.threads.locked ≡ false
  pub points : w.wifi_ap_thread_ptr ≡ some p
  pub freed : w.threads.heap p ≡ none

module _ (L : CdsList) (env : Env) where
  -- Both commands of `stop` succeed: what is left is the end of the thread.
  run_or_reply_lem :
      (command : Bytes) (base : ℕ) (w : World L)
      → CanStop env w.settings
      → (h : History) × (run_or_reply L env command base w ≡ done (none, record w { history = h }))
  unfolding run_or_reply run
  run_or_reply_lem command base w can =
      let (name, e) = can.interface in
      (
        (run L env (command_line env command name) w).1.history,
        rw e (rw (can.commands w.history (command_line env command name)) refl),
      )

  stop-terminate :
      (answers : StopAnswers) (w : World L)
      → CanStop env w.settings
      → (h : History) × (stop L env answers w ≡ (
          terminate_thread L env answers (record w { history = h }) >>= λ r. done (
            if r.0 == 0
            then (success, set_status L status_stopped r.1)
            else (Reply.user_error r.0, set_status L status_fail r.1))))
  unfolding stop unless_replied
  stop-terminate answers w can =
      let (h1, first) = run_or_reply_lem command_wifiap_hostapd_stop 0 w can in
      let (h2, second) =
        run_or_reply_lem command_wifi_hw_stop 1000 (record w { history = h1 })
          (record { interface = can.interface; commands = can.commands }) in
      (h2, rw first (rw second refl))

  thread_destructor_funcs_lem :
      (contexts : List Bytes) (w : World L)
      → (h : History) × (thread_destructor_funcs L env contexts w ≡ record w { history = h })
  unfolding thread_destructor_funcs run
  thread_destructor_funcs_lem [] w = (w.history, refl)
  thread_destructor_funcs_lem (c ∷ cs) w = thread_destructor_funcs_lem cs _

  -- Where the object behind the pointer is freed, a `stop` whose commands succeed reads it.
  pub stop-dangling :
      (answers : StopAnswers) (p : ℕ) (w : World L)
      → CanStop env w.settings
      → IsStopped L p w
      → stop L env answers w ≡ fault use_after_free
  unfolding terminate_thread read
  stop-dangling answers p w can stopped =
      let (h, runs) = stop-terminate answers w can in
      rw runs (rw (stopped.points) (rw (stopped.freed) refl))

  bind_done {ℓ κ} :
      {A : Type ℓ} {B : Type κ} (m : Outcome A) (k : A → Outcome B) (a : A) {r : Outcome B}
      → m ≡ done a
      → k a ≡ r
      → (m >>= k) ≡ r
  bind_done m k a e e' = rw e e'

  -- The cancelled event thread runs its cleanup: its destructor runs the script.
  thread_ends_lem :
      (p : ℕ) (obj : ThreadObj) (w : World L)
      → IsEventThread L env.script w.threads p obj
      → (h : History) × (thread_ends L env p (record w { threads = released L w.threads })
          ≡ done (record w {
            threads =
                write L p
                  (record obj { state = thread_dying; destructor_list = [] })
                  (released L w.threads);
            history = h;
          }))
  unfolding thread_ends
  thread_ends_lem p obj w event =
      let t1 : Threads L = released L w.threads in
      let dying : ThreadObj = record obj { state = thread_dying; destructor_list = [] } in
      let (h, destructors) =
        thread_destructor_funcs_lem (env.script ∷ []) (record w { threads = write L p dying t1 }) in
      (
        h,
        bind_done (cleanup_thread L p t1) _ _
            (cleanup_thread_joinable L t1 p obj thread_destructor_func env.script event.one.lives
              event.joinable event.destructors)
            (ap done destructors),
      )

  pointer_lem :
      (o : Option ℕ) (p : ℕ) (x : Outcome (ℕ × World L)) (f : ℕ → Outcome (ℕ × World L))
      → o ≡ some p
      → elim o [ none ↦ x | some q ↦ f q ] ≡ f p
  pointer_lem o p x f e = rw e refl

  module _ (law : IsLawful L) where
    join_ended_lem :
        (answers : StopAnswers) (p : ℕ) (obj : ThreadObj) (w : World L)
        → answers.joining ≡ joined
        → IsEventThread L env.script w.threads p obj
        → (t' : Threads L) × (h : History) × (join_ended L env answers p
              (record w { threads = released L w.threads })
            ≡ done (0, record w { threads = t'; history = h }))
          × (L.entries t'.thread_list ≡ [])
          × (t'.heap p ≡ none)
          × (t'.locked ≡ false)
    unfolding join_ended wait_for_end
    join_ended_lem answers p obj w joins event =
        let t1 : Threads L = released L w.threads in
        let dying : ThreadObj = record obj { state = thread_dying; destructor_list = [] } in
        let t2 : Threads L = write L p dying t1 in
        let one2 = write-OneThread L w.threads p obj event.one dying event.one.numbered in
        let (h, ends) = thread_ends_lem p obj w event in
        let (t3, join_runs, listed, freed, free) =
          join_thread_lem L law t2 p dying one2 event.joinable in
        (
          t3,
          h,
          rw joins (
              bind_done (thread_ends L env p (record w { threads = t1 })) _ _ ends (
                bind_done (read L p t1) _ obj (read_lem L w.threads p obj event.one t1 refl) (
                  bind_done (join_thread L joined obj.thread_id t2) _ (0, t3)
                    (ap (λ id. join_thread L joined id t2) event.one.numbered ∙ join_runs) refl))),
          listed,
          freed,
          free,
        )

    terminate_thread_lem :
        (answers : StopAnswers) (p : ℕ) (obj : ThreadObj) (w : World L)
        → answers.cancelling.pthread_cancel ≡ 0
        → answers.joining ≡ joined
        → w.wifi_ap_thread_ptr ≡ some p
        → IsEventThread L env.script w.threads p obj
        → (t' : Threads L) × (h : History) × (terminate_thread L env answers w
            ≡ done (0, record w { threads = t'; history = h }))
          × (L.entries t'.thread_list ≡ [])
          × (t'.heap p ≡ none)
          × (t'.locked ≡ false)
    unfolding terminate_thread
    terminate_thread_lem answers p obj w cancels joins points event =
        let t = w.threads in
        let (t', h, join_runs, listed, freed, free) = join_ended_lem answers p obj w joins event in
        (
          t',
          h,
          pointer_lem w.wifi_ap_thread_ptr p _ _ points
              ∙ bind_done (read L p t) _ obj (read_lem L t p obj event.one t refl) (
                  bind_done (cancel_thread L answers.cancelling obj.thread_id t) _ (0, released L t)
                    (rw (event.one.numbered)
                      (cancel_thread_lem L t p obj event.one answers.cancelling cancels))
                    join_runs),
          listed,
          freed,
          free,
        )

    -- With the event thread behind the pointer, as `startAp` leaves it, if the commands, the cancel
    -- and the join succeed, `stop` replies success: the status is "stopped", the thread list is empty
    -- and the object is freed, but the pointer to it stays.
    pub stop_lem :
        (answers : StopAnswers) (p : ℕ) (obj : ThreadObj) (w : World L)
        → CanStop env w.settings
        → answers.cancelling.pthread_cancel ≡ 0
        → answers.joining ≡ joined
        → w.wifi_ap_thread_ptr ≡ some p
        → IsEventThread L env.script w.threads p obj
        → (w' : World L) × (stop L env answers w ≡ done (success, w')) × IsStopped L p w'
    unfolding set_status
    stop_lem answers p obj w can cancels joins points event =
        let (h, runs) = stop-terminate answers w can in
        let (t', h', terminates, listed, freed, free) =
          terminate_thread_lem answers p obj (record w { history = h }) cancels joins points
            event in
        (
          record w {
            settings = record w.settings { status = status_stopped };
            threads = t';
            history = h';
          },
          runs
              ∙ bind_done (terminate_thread L env answers (record w { history = h })) _ _ terminates
                  refl,
          record { status = refl; listed = listed; free = free; points = points; freed = freed },
        )
