-- ===== src/Threads/Lost.antt =====
-- What goes wrong in the thread functions: a thread that the list has lost, and a mutex left locked.
use wifiap_binding.Base.{
  ℕ, ◌<◌, ◌≡◌, ◌≢◌, refl, true, Option, none, some, [], ◌∷◌, done, fault, ◌>>=◌, deadlock, length,
  arith, if◌then◌else◌, ◌==◌, >>=-eq-done,
}
use wifiap_binding.Base.Bytes.{Bytes}
use wifiap_binding.Utf8.Ascii.{IsAscii}
use wifiap_binding.Threads.Links.{CdsList, IsLawful}
use wifiap_binding.Threads.{
  Threads, ThreadObj, Answers, lock, find_locked, create_thread, cancel_thread, cancel_found, live,
  read, unlock, find_thread_from_id_in_list, start_thread, set_thread_joinable, join_thread,
  JoinAnswer, add_destructor_to_thread,
}
use wifiap_binding.Threads.Lifecycle.{
  OneThread, AllSucceed, created, created_obj, create_thread_lem, created-OneThread, released,
  find_locked_lem,
}

module _ (L : CdsList) (law : IsLawful L) where
  -- A successful `CreateThread` while another thread is listed: both objects live and have the id 1,
  -- the list holds the new one alone, and a lookup of the old thread's id finds the new thread.
  pub create_thread_loses :
      (answers : Answers) (name : Bytes) (main_func : ℕ) (context : Option Bytes) (t : Threads L)
      (p : ℕ) (obj : ThreadObj)
      → AllSucceed answers
      → IsAscii name
      → length name < 24
      → OneThread L t p obj
      → p < t.next
      → (t' : Threads L) × (obj' : ThreadObj) × (create_thread L answers name main_func context t
          ≡ done (some t.next, t'))
        × (t'.heap p ≡ some obj)
        × (t'.heap t.next ≡ some obj')
        × (obj'.thread_id ≡ obj.thread_id)
        × (L.entries t'.thread_list ≡ t.next ∷ [])
        × (find_locked L obj.thread_id t' ≡ done (some t.next, released L t'))
  create_thread_loses answers name main_func context t p obj ok a lt h old =
      let obj' = created_obj answers name main_func context in
      let one = created-OneThread L law t obj' refl in
      (
        created L t obj',
        obj',
        create_thread_lem L answers name main_func context t ok a lt h.free,
        ground (arith, h.lives),
        one.lives,
        ground (arith, h.numbered),
        one.listed,
        rw (h.numbered) (find_locked_lem L (created L t obj') t.next obj' one),
      )

module _ (L : CdsList) where
  cancel_live_locked :
      (answers : Answers) (cell : Option ThreadObj) (t t' : Threads L) (n : ℕ)
      → t.locked ≡ true
      → ◌>>=◌ {B = ℕ × Threads L}
          (live L cell)
          (λ obj. if answers.pthread_cancel == 0 then done (0, unlock L t) else done (1, t))
        ≡ done (n, t')
      → n ≢ 0
      → t'.locked ≡ true
  cancel_live_locked answers none t t' n l e bad = cc
  cancel_live_locked answers (some obj) t t' n l e bad = ground arith

  cancel_found_locked :
      (answers : Answers) (found : Option ℕ) (t t' : Threads L) (n : ℕ)
      → t.locked ≡ true
      → cancel_found L answers found t ≡ done (n, t')
      → n ≢ 0
      → t'.locked ≡ true
  unfolding cancel_found read
  cancel_found_locked answers none t t' n l e bad = ground arith
  cancel_found_locked answers (some p) t t' n l e bad =
      cancel_live_locked answers (t.heap p) t t' n l e bad

  lock-locked : (t t1 : Threads L) → lock L t ≡ done t1 → t1.locked ≡ true
  unfolding lock
  lock-locked t t1 e = ground arith

  cancel_leaves_locked :
      (answers : Answers) (id : ℕ) (t t' : Threads L) (n : ℕ)
      → cancel_thread L answers id t ≡ done (n, t')
      → n ≢ 0
      → t'.locked ≡ true
  unfolding cancel_thread
  cancel_leaves_locked answers id t t' n e bad =
      let (t1, locks, rest) = >>=-eq-done (lock L t) _ e in
      let (found, finds, ends) =
        >>=-eq-done (find_thread_from_id_in_list L t1.thread_list id t1) _ rest in
      cancel_found_locked answers found t1 t' n (lock-locked t t1 locks) ends bad

  lock_twice : (t : Threads L) → t.locked ≡ true → lock L t ≡ fault deadlock
  unfolding lock
  lock_twice t e = rw e

  -- Whenever `cancelThread` reports an error it has left the mutex locked: every later call of
  -- `cancelThread`, `JoinThread`, `startThread`, `setThreadJoinable` and `addDestructorToThread`
  -- waits for ever.
  pub cancel_thread_deadlock :
      (answers : Answers) (id : ℕ) (t t' : Threads L) (n : ℕ)
      → cancel_thread L answers id t ≡ done (n, t')
      → n ≢ 0
      → (later : Answers) (any : ℕ) (answer : JoinAnswer) (f : Option ℕ) (c : Bytes)
      → (cancel_thread L later any t' ≡ fault deadlock)
        × (join_thread L answer any t' ≡ fault deadlock)
        × (start_thread L later any t' ≡ fault deadlock)
        × (set_thread_joinable L later any t' ≡ fault deadlock)
        × (add_destructor_to_thread L later any f c t' ≡ fault deadlock)
  unfolding cancel_thread join_thread start_thread set_thread_joinable add_destructor_to_thread
      find_locked
  cancel_thread_deadlock answers id t t' n e bad later any answer f c =
      let stuck = lock_twice t' (cancel_leaves_locked answers id t t' n e bad) in
      (rw stuck, rw stuck, rw stuck, rw stuck, rw stuck)
