-- ===== src/Threads/Routine.antt =====
-- PThreadStartRoutine of src/lib/wifi-ap-thread.c: what a started thread does from its start to its
-- end, and who frees its object.
use wifiap_binding.Base.{
  ℕ, ◌%◌, ◌^◌, ◌≡◌, ◌⊎◌, refl, ◌∙◌, inl, inr, true, false, ◌||◌, Option, none, some, List, [], ◌∷◌,
  Outcome, done, ◌>>=◌, ◌==◌, if◌then◌else◌, arith, Bool-cases,
}
use wifiap_binding.Base.Int.{ℤ, pos, negsuc}
use wifiap_binding.Base.Bytes.{Bytes}
use wifiap_binding.Threads.Links.{CdsList, IsLawful}
use wifiap_binding.Threads.{
  Threads, ThreadObj, thread_dying, joined, read, write, update, cleanup_thread, join_thread,
}
use wifiap_binding.Threads.Cleanup.{cleanup_thread_joinable, cleanup_thread_detached}
use wifiap_binding.Threads.Lifecycle.{OneThread, join_thread_lem}

-- What the thread asks of the scheduler: SCHED_IDLE, a nice level, or nothing.
pub data Scheduling : Type 0 where
  idle : Scheduling
  nice : ℤ → Scheduling
  unchanged : Scheduling

unfoldable pub scheduling : ℕ → Scheduling
scheduling priority =
    if priority == 0
    then idle
    else if priority == 2 || priority == 1 || priority == 3
    then nice (if priority == 1 then pos 10 else if priority == 3 then negsuc 9 else pos 0)
    else unchanged

-- What the thread did: the scheduling, the value of its main function, the contexts of the
-- destructors that were called.
pub record Life : Type 0 where
  pub scheduled : Scheduling
  pub value : ℕ
  pub destroyed : List Bytes

-- The cast of the handle to `pid_t` keeps its low 32 bits.
unfoldable pub with_proc_id : ThreadObj → ThreadObj
with_proc_id obj =
    if obj.set_pid_on_start then record obj { proc_id = obj.thread_handle % 2 ^ 32 } else obj

module _ (L : CdsList) where
  -- The main functions are a parameter: what the function of a number returns for a context. A call
  -- to name or schedule the thread that fails only logs.
  unfoldable pub start_routine : (ℕ → Option Bytes → ℕ) → ℕ → Threads L → Outcome (Life × Threads L)
  start_routine main p t = do
    obj ← read L p t
    let t1 : Threads L = write L p (with_proc_id obj) t
    let value : ℕ = main obj.main_func obj.context
    cleaned ← cleanup_thread L p t1
    let life : Life = record {
      scheduled = scheduling obj.priority;
      value = value;
      destroyed = cleaned.0;
    }
    done (life, cleaned.1)

  -- No thread is listed, the object is freed, and the mutex is free.
  pub record IsGone (p : ℕ) (t : Threads L) : Type 0 where
    pub listed : L.entries t.thread_list ≡ []
    pub freed : t.heap p ≡ none
    pub free : t.locked ≡ false

  module _ (law : IsLawful L) (main : ℕ → Option Bytes → ℕ) (t : Threads L) (p : ℕ)
      (obj : ThreadObj) (c : Bytes) (f : ℕ) (one : OneThread L t p obj)
      (ds : obj.destructor_list ≡ record { destructor = some f; context = c } ∷ []) where
    abbrev named : ThreadObj
    named = with_proc_id obj

    abbrev dying : ThreadObj
    dying = record named { state = thread_dying; destructor_list = [] }

    abbrev ready : Threads L
    ready = write L p named t

    named-joinable : named.is_joinable ≡ obj.is_joinable
    unfolding with_proc_id
    named-joinable = elim (Bool-cases obj.set_pid_on_start) [
      | inl set ↦ rw (with_proc_id, set) refl
      | inr unset ↦ rw (with_proc_id, unset) refl
    ]

    named-destructors : named.destructor_list ≡ record { destructor = some f; context = c } ∷ []
    unfolding with_proc_id
    named-destructors = elim (Bool-cases obj.set_pid_on_start) [
      | inl set ↦ rw (with_proc_id, set) ds
      | inr unset ↦ rw (with_proc_id, unset) ds
    ]

    named-numbered : named.thread_id ≡ 1
    unfolding with_proc_id
    named-numbered = elim (Bool-cases obj.set_pid_on_start) [
      | inl set ↦ rw (with_proc_id, set) (one.numbered)
      | inr unset ↦ rw (with_proc_id, unset) (one.numbered)
    ]

    ready-lives : ready.heap p ≡ some named
    unfolding write
    ready-lives = ground arith

    routine_lem :
        (r : List Bytes × Threads L)
        → cleanup_thread L p ready ≡ done r
        → start_routine main p t
          ≡ done (
            record {
              scheduled = scheduling obj.priority;
              value = main obj.main_func obj.context;
              destroyed = r.0;
            },
            r.1,
          )
    unfolding start_routine read
    routine_lem r cleaned = rw (one.lives) (rw cleaned refl)

    dying-OneThread : OneThread L (write L p dying ready) p dying
    unfolding write
    dying-OneThread = record {
      free = one.free;
      listed = one.listed;
      lives = ground arith;
      numbered = named-numbered;
    }

    abbrev freed : Threads L
    freed = record (write L p dying ready) {
      thread_list = L.del p t.thread_list;
      locked = false;
      heap = update (write L p dying ready).heap p none;
    }

    cleanup_detached : obj.is_joinable ≡ false → cleanup_thread L p ready ≡ done (c ∷ [], freed)
    unfolding write
    cleanup_detached detached =
        cleanup_thread_detached L ready p named f c ready-lives (named-joinable ∙ detached)
          named-destructors one.free

    -- A listed thread with one destructor that runs to its end has called its main function with its
    -- context, and then the destructor once. If it is detached it has then freed itself; if not, it is joined
    -- with success, which frees it.
    pub start_routine_lem :
        (life : Life) × (t1 : Threads L) × (start_routine main p t ≡ done (life, t1))
        × (life.value ≡ main obj.main_func obj.context)
        × (life.destroyed ≡ c ∷ [])
        × (((obj.is_joinable ≡ false) × IsGone p t1)
            ⊎ ((obj.is_joinable ≡ true)
                × (t2 : Threads L) × (join_thread L joined 1 t1 ≡ done (0, t2))
                × IsGone p t2))
    unfolding write
    start_routine_lem = elim (Bool-cases obj.is_joinable) [
      | inl joinable ↦
          let cleaned =
            cleanup_thread_joinable L ready p named f c ready-lives (named-joinable ∙ joinable)
              named-destructors in
          let (t2, runs, listed, lost, free) =
            join_thread_lem L law (write L p dying ready) p dying dying-OneThread
              (named-joinable ∙ joinable) in
          (
            _,
            _,
            routine_lem _ cleaned,
            refl,
            refl,
            inr (joinable, t2, runs, record { listed = listed; freed = lost; free = free }),
          )
      | inr detached ↦ (
        _,
        _,
        routine_lem _ (cleanup_detached detached),
        refl,
        refl,
        inl (
          detached,
          record {
            listed = law.entries-del p t.thread_list [] [] one.listed refl;
            freed = ground arith;
            free = refl;
          },
        ),
      )
    ]
