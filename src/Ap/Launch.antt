-- ===== src/Ap/Launch.antt =====
-- The event thread: what `startAp` leaves of it.
use wifiap_binding.Base.{
  ℕ, ◌≡◌, ◌≢◌, refl, true, false, Option, some, [], ◌∷◌, done, ◌==◌, if◌then◌else◌, arith,
}
use wifiap_binding.Base.Bytes.{Bytes, codes}
use wifiap_binding.Utf8.Ascii.{IsAscii, ascii, ascii-IsAscii}
use wifiap_binding.Threads.{Threads, ThreadObj, thread_running, write}
use wifiap_binding.Threads.Links.{CdsList, IsLawful}
use wifiap_binding.Threads.Lifecycle.{
  OneThread, AllSucceed, created, created_obj, create_thread_lem, created-OneThread, released,
  read_lem, set_thread_joinable_lem, add_destructor_lem, start_thread_lem, write-OneThread,
}
use wifiap_binding.Ap.Start.{
  LaunchAnswers, launch_thread, wifi_ap_thread_main_func, thread_destructor_func,
}

-- Every call but `pthread_create` succeeds.
pub record CanLaunch (answers : LaunchAnswers) : Type 0 where
  pub creating : AllSucceed answers.creating
  pub joining : answers.joining.setdetachstate ≡ 0
  pub adding : answers.adding.calloc_ok ≡ true

-- The one listed thread is running and joinable, and its one destructor has the script's path.
pub record IsEventThread (L : CdsList) (script : Bytes) (t : Threads L) (p : ℕ) (obj : ThreadObj)
    : Type 0 where
  pub one : OneThread L t p obj
  pub joinable : obj.is_joinable ≡ true
  pub running : obj.state ≡ thread_running
  pub destructors :
      obj.destructor_list
      ≡ record { destructor = some thread_destructor_func; context = script } ∷ []

thread_name-IsAscii : IsAscii (codes "WifiApThread")
unfolding ascii
thread_name-IsAscii = ascii-IsAscii (codes "WifiApThread") refl

module _ (L : CdsList) (law : IsLawful L) where
  -- The new object has the next address, and no other object has changed.
  pub launch_thread_keeps :
      (answers : LaunchAnswers) (script : Bytes) (interface : Option Bytes) (t : Threads L)
      → CanLaunch answers
      → t.locked ≡ false
      → (t' : Threads L) × (obj : ThreadObj) × (launch_thread L answers script interface t
          ≡ done (t.next, t'))
        × IsEventThread L script t' t.next obj
        × ((q : ℕ) → q ≢ t.next → t'.heap q ≡ t.heap q)
  unfolding launch_thread write
  launch_thread_keeps answers script interface t can free =
      let p = t.next in
      let obj0 : ThreadObj =
        created_obj answers.creating (codes "WifiApThread") wifi_ap_thread_main_func interface in
      let t0 : Threads L = created L t obj0 in
      let one0 = created-OneThread L law t obj0 refl in
      let obj1 : ThreadObj = record obj0 { is_joinable = true } in
      let t1 : Threads L = write L p obj1 (released L t0) in
      let one1 = write-OneThread L t0 p obj0 one0 obj1 refl in
      let obj2 : ThreadObj = record obj1 {
        destructor_list =
            record { destructor = some thread_destructor_func; context = script } ∷ [];
      } in
      let t2 : Threads L = write L p obj2 (released L t1) in
      let one2 = write-OneThread L t1 p obj1 one1 obj2 refl in
      let obj3 : ThreadObj = record obj2 {
        state = thread_running;
        thread_handle =
            if answers.starting.pthread_create == 0 then answers.starting.new_handle else 0;
      } in
      let t3 : Threads L = write L p obj3 (released L t2) in
      (
        t3,
        obj3,
        rw
            (create_thread_lem L answers.creating (codes "WifiApThread") wifi_ap_thread_main_func
              interface t can.creating thread_name-IsAscii (omega arith) free)
            (rw (read_lem L t0 p obj0 one0 t0 refl) (
              rw (set_thread_joinable_lem L t0 p obj0 one0 answers.joining refl can.joining) (
                rw (read_lem L t1 p obj1 one1 t1 refl) (
                  rw
                    (add_destructor_lem L t1 p obj1 one1 answers.adding
                      (some thread_destructor_func) script refl can.adding)
                    (rw (read_lem L t2 p obj2 one2 t2 refl)
                      (rw (start_thread_lem L t2 p obj2 one2 answers.starting refl) refl)))))),
        record {
          one = write-OneThread L t2 p obj2 one2 obj3 refl;
          joinable = refl;
          running = refl;
          destructors = refl;
        },
        λ q other. ground arith,
      )

  -- With a free mutex, and if every call but `pthread_create` succeeds, the event thread is left as
  -- the one listed thread, marked running, joinable, with its destructor; this is so also where
  -- `pthread_create` fails.
  pub launch_thread_lem :
      (answers : LaunchAnswers) (script : Bytes) (interface : Option Bytes) (t : Threads L)
      → CanLaunch answers
      → t.locked ≡ false
      → (p : ℕ) × (t' : Threads L) × (obj : ThreadObj) × (launch_thread L answers script interface t
          ≡ done (p, t'))
        × IsEventThread L script t' p obj
  launch_thread_lem answers script interface t can free =
      let (t', obj, launches, event_thread, keeps) =
        launch_thread_keeps answers script interface t can free in
      (t.next, t', obj, launches, event_thread)
