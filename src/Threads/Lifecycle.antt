-- ===== src/Threads/Lifecycle.antt =====
-- What the thread functions do while the list holds the one thread that they are asked for.
use wifiap_binding.Base.{
  ℕ, ◌+◌, ◌<◌, ◌≡◌, ◌≢◌, refl, ◌++◌, true, false, Option, none, some, List, [], ◌∷◌, Outcome, done,
  ◌==◌, if◌then◌else◌, length, arith, ap,
}
use wifiap_binding.Base.Bytes.{Bytes, zeroed, length-zeroed, terminated, memcpy}
use wifiap_binding.Utf8
use wifiap_binding.Utf8.{le_ok}
use wifiap_binding.Utf8.Characters.{copied}
use wifiap_binding.Utf8.Ascii.{IsAscii, copy-ascii}
use wifiap_binding.Threads.Links.{CdsList, IsLawful}
use wifiap_binding.Threads.{
  Threads, ThreadObj, thread_new, thread_running, Answers, joined, update, lock, unlock, read,
  write, find_from, find_thread_from_id_in_list, find_locked, set_thread_joinable, create_thread,
  add_destructor_to_thread, start_thread, cancel_thread, join_thread, on_new, is_new, cancel_found,
  after_join, join_found,
}

module _ (L : CdsList) where
  -- The mutex is free, and the list holds one object, with this pointer and these fields.
  pub record OneThread (t : Threads L) (p : ℕ) (obj : ThreadObj) : Type 0 where
    pub free : t.locked ≡ false
    pub listed : L.entries t.thread_list ≡ p ∷ []
    pub lives : t.heap p ≡ some obj
    pub numbered : obj.thread_id ≡ 1

  find_from-first :
      (t : Threads L) (p id : ℕ) (rest : List ℕ) (obj : ThreadObj)
      → t.heap p ≡ some obj
      → obj.thread_id ≡ id
      → find_from L (p ∷ rest) id t ≡ done (some p)
  unfolding find_from
  find_from-first t p id rest obj e same = ground arith

  abbrev pub released : Threads L → Threads L
  released t = record t { locked = false }

  abbrev pub held : Threads L → Threads L
  held t = record t { locked = true }

  module _ (t : Threads L) (p : ℕ) (obj : ThreadObj) (h : OneThread t p obj) where
    lock-held : lock L t ≡ done (held t)
    unfolding lock
    lock-held = rw (h.free)

    find_held : find_thread_from_id_in_list L t.thread_list 1 (held t) ≡ done (some p)
    unfolding find_thread_from_id_in_list
    find_held = rw (h.listed) (find_from-first (held t) p 1 [] obj h.lives h.numbered)

    pub read_lem : (u : Threads L) → u.heap ≡ t.heap → read L p u ≡ done obj
    unfolding read
    read_lem u e = rw e (rw (h.lives))

    pub find_locked_lem : find_locked L 1 t ≡ done (some p, released t)
    unfolding find_locked unlock
    find_locked_lem = rw lock-held (rw find_held)

    -- What the functions for a new thread do to this one.
    on_new_lem :
        (change : ThreadObj → Outcome (ℕ × ThreadObj)) (result : ℕ) (obj' : ThreadObj)
        → obj.state ≡ thread_new
        → change obj ≡ done (result, obj')
        → on_new L change (some p) (released t) ≡ done (result, write L p obj' (released t))
    unfolding on_new
    on_new_lem change result obj' new e =
        rw (read_lem (released t) refl) (rw (ap is_new new) (rw e))

    pub set_thread_joinable_lem :
        (answers : Answers)
        → obj.state ≡ thread_new
        → answers.setdetachstate ≡ 0
        → set_thread_joinable L answers 1 t
          ≡ done (0, write L p (record obj { is_joinable = true }) (released t))
    unfolding set_thread_joinable
    set_thread_joinable_lem answers new ok = rw find_locked_lem (on_new_lem _ 0 _ new (rw ok))

    pub add_destructor_lem :
        (answers : Answers) (destructor : Option ℕ) (context : Bytes)
        → obj.state ≡ thread_new
        → answers.calloc_ok ≡ true
        → add_destructor_to_thread L answers 1 destructor context t
          ≡ done (
            0,
            write L p
                (record obj {
                  destructor_list =
                      obj.destructor_list
                      ++ record { destructor = destructor; context = context } ∷ [];
                })
                (released t),
          )
    unfolding add_destructor_to_thread
    add_destructor_lem answers destructor context new ok =
        rw find_locked_lem (on_new_lem _ 0 _ new (rw ok))

    pub start_thread_lem :
        (answers : Answers)
        → obj.state ≡ thread_new
        → start_thread L answers 1 t
          ≡ done (
            answers.pthread_create,
            write L p
                (record obj {
                  state = thread_running;
                  thread_handle =
                      if answers.pthread_create == 0 then answers.new_handle else obj.thread_handle;
                })
                (released t),
          )
    unfolding start_thread
    start_thread_lem answers new =
        rw find_locked_lem (on_new_lem _ answers.pthread_create _ new refl)

    pub write-OneThread :
        (obj' : ThreadObj) → obj'.thread_id ≡ 1 → OneThread (write L p obj' (released t)) p obj'
    unfolding write
    write-OneThread obj' e = record {
      free = refl;
      listed = h.listed;
      lives = ground arith;
      numbered = e;
    }

    -- Cancelling the one thread frees the mutex again if `pthread_cancel` succeeds.
    pub cancel_thread_lem :
        (answers : Answers)
        → answers.pthread_cancel ≡ 0
        → cancel_thread L answers 1 t ≡ done (0, released t)
    unfolding cancel_thread cancel_found unlock
    cancel_thread_lem answers ok = rw lock-held (rw find_held (rw (read_lem (held t) refl) (rw ok)))

    -- If `pthread_cancel` fails, or the id is another one, the mutex stays locked.
    pub cancel_thread_refused :
        (answers : Answers)
        → answers.pthread_cancel ≢ 0
        → cancel_thread L answers 1 t ≡ done (1, held t)
    unfolding cancel_thread cancel_found
    cancel_thread_refused answers bad =
        let refused : (answers.pthread_cancel == 0) ≡ false = ground arith in
        rw lock-held (rw find_held (rw (read_lem (held t) refl) (rw refused)))

-- Every call that `CreateThread` makes succeeds.
pub record AllSucceed (answers : Answers) : Type 0 where
  pub calloc_ok : answers.calloc_ok ≡ true
  pub attr_init : answers.attr_init ≡ 0
  pub setinheritsched : answers.setinheritsched ≡ 0
  pub setdetachstate : answers.setdetachstate ≡ 0

-- The object that `CreateThread` makes.
abbrev pub created_obj : Answers → Bytes → ℕ → Option Bytes → ThreadObj
created_obj answers name main_func context = record {
  thread_id = 1;
  name = memcpy (zeroed 24) (terminated name);
  priority = 0;
  is_joinable = false;
  state = thread_new;
  main_func = main_func;
  context = context;
  destructor_list = [];
  thread_handle = 0;
  thread_obj_list_change_count = 1;
  set_pid_on_start = false;
  proc_id = answers.inherited_proc_id;
}

copy_name :
    (name : Bytes)
    → IsAscii name
    → length name < 24
    → Utf8.copy (zeroed 24) (terminated name) 24 ≡ copied le_ok (zeroed 24) name
copy_name name a lt =
    rw (length-zeroed 24) at (copy-ascii (zeroed 24) name a (omega (arith, length-zeroed 24)))

module _ (L : CdsList) where
  -- The state behind a successful creation.
  abbrev pub created : Threads L → ThreadObj → Threads L
  created t obj = record {
    heap = update t.heap t.next (some obj);
    next = t.next + 1;
    thread_list = L.add_tail t.next L.empty;
    locked = false;
  }

  pub create_thread_lem :
      (answers : Answers) (name : Bytes) (main_func : ℕ) (context : Option Bytes) (t : Threads L)
      → AllSucceed answers
      → IsAscii name
      → length name < 24
      → t.locked ≡ false
      → create_thread L answers name main_func context t
        ≡ done (some t.next, created t (created_obj answers name main_func context))
  unfolding create_thread lock unlock
  create_thread_lem answers name main_func context t ok a lt free = rw (copy_name name a lt) (
      rw (ok.calloc_ok)
        (rw (ok.attr_init) (rw (ok.setinheritsched) (rw (ok.setdetachstate) (rw free)))))

  module _ (law : IsLawful L) where
    pub created-OneThread :
        (t : Threads L) (obj : ThreadObj)
        → obj.thread_id ≡ 1
        → OneThread L (created t obj) t.next obj
    created-OneThread t obj e = record {
      free = refl;
      listed = rw (law.entries-add_tail) (rw (law.entries-empty));
      lives = ground arith;
      numbered = e;
    }

    pub join_thread_joined :
        (t : Threads L) (p : ℕ) (obj : ThreadObj)
        → OneThread L t p obj
        → obj.is_joinable ≡ true
        → join_thread L joined 1 t
          ≡ done (
            0,
            record t {
              heap = update t.heap p none;
              thread_list = L.del p t.thread_list;
              locked = false;
            },
          )
    unfolding join_thread join_found after_join lock unlock
    join_thread_joined t p obj h joinable = rw (find_locked_lem L t p obj h) (
        rw (read_lem L t p obj h (released L t) refl)
          (rw joinable (rw (read_lem L t p obj h (held L t) refl))))

    -- Joining the one thread, if it is joinable and the join succeeds, empties the list, frees the
    -- object and leaves the mutex free.
    pub join_thread_lem :
        (t : Threads L) (p : ℕ) (obj : ThreadObj)
        → OneThread L t p obj
        → obj.is_joinable ≡ true
        → (t' : Threads L) × (join_thread L joined 1 t ≡ done (0, t'))
          × (L.entries t'.thread_list ≡ [])
          × (t'.heap p ≡ none)
          × (t'.locked ≡ false)
    join_thread_lem t p obj h joinable = (
      record t { heap = update t.heap p none; thread_list = L.del p t.thread_list; locked = false },
      join_thread_joined t p obj h joinable,
      law.entries-del p t.thread_list [] [] h.listed refl,
      ground arith,
      refl,
    )
