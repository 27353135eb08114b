-- ===== src/Ap/Mutex/Verbs.antt =====
-- The verbs `start`, `stop` and `restart` of src/wifiAp.c leave the mutex of the threads free, as long
-- as the calls that make and cancel threads succeed.
use wifiap_binding.Base.{
  ℕ, ◌≡◌, ◌≢◌, inl, inr, refl, true, Option, none, some, done, fault, use_after_free, ◌>>=◌, ◌==◌,
  if◌then◌else◌, arith, Bool-cases, IfDone, IfDone-done, IfDone-bind,
}
use wifiap_binding.System.{Env}
use wifiap_binding.Threads.{
  Threads, ThreadObj, JoinAnswer, joined, edeadlk, esrch, other_error, read, cleanup_thread,
  cancel_thread, join_thread,
}
use wifiap_binding.Threads.Links.{CdsList, IsLawful}
use wifiap_binding.Threads.Lifecycle.{OneThread, released, read_lem, cancel_thread_lem}
use wifiap_binding.Ap.{World, set_status}
use wifiap_binding.Ap.Keep.{IsSettled, Keeps}
use wifiap_binding.Ap.Keep.Stopping.{destructors-keep}
use wifiap_binding.Ap.Launch.{CanLaunch, launch_thread_keeps}
use wifiap_binding.Ap.Start.{LaunchAnswers, start_event_thread}
use wifiap_binding.Ap.Stop.{StopAnswers, thread_ends, wait_for_end, join_ended, terminate_thread}
use wifiap_binding.Ap.Mutex.{
  JoinableCell, IsFree, IsFreeWorld, settled, cleanup-IsFree, join_thread-IsFree, cleanup-OneThread,
}

module _ (L : CdsList) where
  -- The heap behind a launch: a joinable object at the next address, and the others as before.
  launched_cell :
      (q : ℕ) (obj : ThreadObj) (t' t : Threads L)
      → t'.heap t.next ≡ some obj
      → obj.is_joinable ≡ true
      → (q ≢ t.next → t'.heap q ≡ t.heap q)
      → JoinableCell (t.heap q)
      → JoinableCell (t'.heap q)
  launched_cell q obj t' t lives joinable keeps old = elim (Bool-cases (q == t.next)) [
    | inl same ↦
        let e : q ≡ t.next = ground arith in
        let cell : t'.heap q ≡ some obj = rw e lives in rw cell joinable
    | inr other ↦ let cell = keeps (λ e. ground arith) in rw cell old
  ]

  read_gone : (p : ℕ) (t : Threads L) → t.heap p ≡ none → read L p t ≡ fault use_after_free
  unfolding read
  read_gone p t gone = rw gone refl

  -- The pointer's object is the one listed thread.
  StillOne : ℕ → World L → Type 0
  StillOne p w =
      (w.wifi_ap_thread_ptr ≡ some p)
      × ((obj : ThreadObj) × OneThread L w.threads p obj)
      × ((q : ℕ) → JoinableCell (w.threads.heap q))

  still : (p : ℕ) → IsSettled L (StillOne p)
  unfolding StillOne set_status
  still p = record { logs = λ w h one. one; marks = λ w st one. one }

module _ (L : CdsList) (law : IsLawful L) (env : Env) where
  wait_for_end-StillOne :
      (answer : JoinAnswer) (p : ℕ) (w : World L)
      → StillOne L p w
      → IfDone (StillOne L p) (wait_for_end L env answer p w)
  unfolding wait_for_end thread_ends StillOne
  wait_for_end-StillOne joined p w (ptr, (obj, one), cells) =
      IfDone-bind
        (λ r. (obj : ThreadObj) × OneThread L r.1 p obj × ((x : ℕ) → JoinableCell (r.1.heap x)))
        (StillOne L p) (cleanup_thread L p w.threads) _
        (cleanup-OneThread L p w.threads obj one cells)
        λ r (obj1, one1, cells1). IfDone-done (StillOne L p) _ (
          destructors-keep L (StillOne L p) (still L p) env r.0 (record w { threads = r.1 })
            (ptr, (obj1, one1), cells1))
  wait_for_end-StillOne edeadlk p w h = IfDone-done (StillOne L p) w h
  wait_for_end-StillOne esrch p w h = IfDone-done (StillOne L p) w h
  wait_for_end-StillOne other_error p w h = IfDone-done (StillOne L p) w h

  join_ended-IsFree :
      (answers : StopAnswers) (p : ℕ) (w : World L) (obj : ThreadObj)
      → w.wifi_ap_thread_ptr ≡ some p
      → OneThread L w.threads p obj
      → ((q : ℕ) → JoinableCell (w.threads.heap q))
      → Keeps L (IsFreeWorld L) (settled L) (join_ended L env answers p w)
  unfolding join_ended StillOne
  join_ended-IsFree answers p w obj ptr one cells =
      IfDone-bind (StillOne L p) (λ r. IsFreeWorld L r.1) (wait_for_end L env answers.joining p w) _
        (wait_for_end-StillOne answers.joining p w (ptr, (obj, one), cells))
        λ w1 (ptr1, (obj1, one1), cells1). rw (read_lem L w.threads p obj one w.threads refl) (
          rw (one.numbered) (
            IfDone-bind (λ r. IsFree L r.1 (some p)) (λ r. IsFreeWorld L r.1)
              (join_thread L answers.joining 1 w1.threads) _
              (join_thread-IsFree L law p w1.threads obj1 one1 cells1 answers.joining)
              λ r free. IfDone-done (λ r. IsFreeWorld L r.1) _ (rw ptr1 free)))

  cancelled-IsFree :
      (o : Option ℕ) (answers : StopAnswers) (w : World L)
      → answers.cancelling.pthread_cancel ≡ 0
      → w.wifi_ap_thread_ptr ≡ o
      → IsFree L w.threads o
      → Keeps L (IsFreeWorld L) (settled L) {A = ℕ} (elim o [
        | none ↦ done (0, w)
        | some p ↦ read L p w.threads >>= λ obj.
            cancel_thread L answers.cancelling obj.thread_id w.threads >>= λ r.
            if r.0 == 0
            then join_ended L env answers p (record w { threads = r.1 })
            else done (0, record w { threads = r.1 })
      ])
  cancelled-IsFree none answers w ok ptr h = IfDone-done (λ r. IsFreeWorld L r.1) (0, w) (rw ptr h)
  cancelled-IsFree (some p) answers w ok ptr h = elim h.points [
    | inl gone ↦ rw (read_gone L p w.threads gone) λ r e. absurd cc
    | inr (obj, one) ↦ rw (read_lem L w.threads p obj one w.threads refl) (
        rw (one.numbered) (
          rw (cancel_thread_lem L w.threads p obj one answers.cancelling ok) (
            join_ended-IsFree answers p (record w { threads = released L w.threads }) obj ptr
              (record {
                free = refl;
                listed = one.listed;
                lives = one.lives;
                numbered = one.numbered;
              })
              (h.cells))))
  ]

  -- With a cancel that succeeds, the thread that `stop` ends leaves the mutex free.
  pub terminate_thread-IsFree :
      (answers : StopAnswers)
      → answers.cancelling.pthread_cancel ≡ 0
      → (w : World L) → IsFreeWorld L w
      → Keeps L (IsFreeWorld L) (settled L) (terminate_thread L env answers w)
  unfolding terminate_thread
  terminate_thread-IsFree answers ok w h = cancelled-IsFree w.wifi_ap_thread_ptr answers w ok refl h

  pub thread_ends-IsFree :
      (p : ℕ) (w : World L) → IsFreeWorld L w → IfDone (IsFreeWorld L) (thread_ends L env p w)
  unfolding thread_ends
  thread_ends-IsFree p w h =
      IfDone-bind (λ r. IsFree L r.1 w.wifi_ap_thread_ptr) (IsFreeWorld L)
        (cleanup_thread L p w.threads) _ (cleanup-IsFree L w.wifi_ap_thread_ptr p w.threads h)
        λ r free.
          IfDone-done (IsFreeWorld L) _ (
            destructors-keep L (IsFreeWorld L) (settled L) env r.0 (record w { threads = r.1 })
              free)

  pub start_event_thread-IsFree :
      (answers : LaunchAnswers)
      → CanLaunch answers
      → (w : World L) → IsFreeWorld L w
      → Keeps L (IsFreeWorld L) (settled L) (start_event_thread L env answers w)
  unfolding start_event_thread set_status
  start_event_thread-IsFree answers can w h =
      let (t', obj, launches, event_thread, keeps) =
        launch_thread_keeps L law answers env.script w.settings.interface_name w.threads can
          (h.free) in
      rw launches (
        IfDone-done (λ r. IsFreeWorld L r.1) _
          (record {
            free = event_thread.one.free;
            cells = λ q.
                launched_cell L q obj t' w.threads event_thread.one.lives event_thread.joinable
                  (keeps q) (h.cells q);
            points = inr (obj, event_thread.one);
          }))
