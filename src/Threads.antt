-- ===== src/Threads.antt =====
-- src/lib/wifi-ap-thread.c: thread objects, their list and the mutex that guards it.
-- Objects live in a heap, so that a pointer kept after `free` is seen as such.
pub mod Links
pub mod Lifecycle
pub mod Lost
pub mod Cleanup
pub mod Routine
use wifiap_binding.Base.{
  ℕ, zero, suc, ◌+◌, ◌++◌, Bool, true, false, not, ◌&&◌, Option, none, some, List, [], ◌∷◌, Outcome,
  done, fault, null_pointer, use_after_free, deadlock, assertion_failed, ◌>>=◌, ◌>>◌, ◌==◌,
  if◌then◌else◌,
}
use wifiap_binding.Base.Bytes.{Bytes, terminated, zeroed}
use wifiap_binding.Utf8
use wifiap_binding.Threads.Links.{CdsList}

abbrev pub max_thread_name_size : ℕ
max_thread_name_size = 24

pub data ThreadState : Type 0 where
  thread_new thread_running thread_dying : ThreadState

-- `Destructor_t`: a function and the argument for it. Functions are told apart by numbers.
pub record Destructor : Type 0 where
  pub destructor : Option ℕ
  pub context : Bytes

-- `thread_Obj_t`
pub record ThreadObj : Type 0 where
  pub thread_id : ℕ
  pub name : Bytes
  pub priority : ℕ
  pub is_joinable : Bool
  pub state : ThreadState
  pub main_func : ℕ
  pub context : Option Bytes
  pub destructor_list : List Destructor
  pub thread_handle : ℕ
  pub thread_obj_list_change_count : ℕ
  pub set_pid_on_start : Bool
  pub proc_id : ℕ

-- What the C library answers to one call: 0 is success.
pub record Answers : Type 0 where
  pub calloc_ok : Bool
  pub attr_init : ℕ
  pub setinheritsched : ℕ
  pub setdetachstate : ℕ
  pub inherited_proc_id : ℕ
  pub pthread_create : ℕ
  pub new_handle : ℕ
  pub pthread_cancel : ℕ

pub data JoinAnswer : Type 0 where
  joined edeadlk esrch other_error : JoinAnswer

abbrev pub is_new : ThreadState → Bool
is_new thread_new = true
is_new _ = false

abbrev pub update : (ℕ → Option ThreadObj) → ℕ → Option ThreadObj → ℕ → Option ThreadObj
update heap p cell q = if q == p then cell else heap q

-- A node of a destructor list in memory: its destructor, and the address that its link holds. The
-- address 0 is the head of the list, which stands in the thread object.
pub record DestructorNode : Type 0 where
  pub item : Destructor
  pub link : ℕ

abbrev pub NodeMemory : Type 0
NodeMemory = ℕ → Option DestructorNode

-- The nodes of a destructor list, from an address on.
unfoldable pub nodes_at : ℕ → List Destructor → NodeMemory
nodes_at a [] = λ q. none
nodes_at a (d ∷ []) = λ q. if q == a then some (record { item = d; link = 0 }) else none
nodes_at a (d ∷ e ∷ rest) =
    λ q. if q == a then some (record { item = d; link = a + 1 }) else nodes_at (a + 1) (e ∷ rest) q

-- A node whose memory was freed cannot be read.
unfoldable pub node_at : NodeMemory → ℕ → Outcome DestructorNode
node_at memory a = elim (memory a) [ none ↦ fault use_after_free | some node ↦ done node ]

-- `GetNumberOfNodesInList`, from the first node. A list bounds the rounds.
unfoldable pub number_of_nodes : List Destructor → NodeMemory → ℕ → ℕ
number_of_nodes [] memory a = 0
number_of_nodes (d ∷ bound) memory a =
    if a == 0
    then 0
    else elim (memory a) [ none ↦ 0 | some node ↦ number_of_nodes bound memory node.link + 1 ]

-- The loop of `CleanupThread` at a node: the contexts of the destructors that it calls, in order.
-- The node is taken off the list, whose first node is then the next one, and is freed; if nodes are
-- left, the `for` header reads the link of the node that was freed. The list that stood there bounds
-- the rounds.
unfoldable pub sweep : List Destructor → NodeMemory → ℕ → Outcome (List Bytes)
sweep [] memory a = done []
sweep (d ∷ bound) memory a = if a == 0 then done [] else (do
  node ← node_at memory a
  let called : List Bytes = elim node.item.destructor [
    | none ↦ []
    | some f ↦ node.item.context ∷ []
  ]
  let freed : NodeMemory = λ q. if q == a then none else memory q
  if number_of_nodes bound freed node.link == 0
      then done called
      else (do next ← node_at freed a; rest ← sweep bound freed next.link; done (called ++ rest)))

unfoldable pub run_destructors : List Destructor → Outcome (List Bytes)
run_destructors [] = done []
run_destructors (d ∷ rest) = sweep (d ∷ rest) (nodes_at 1 (d ∷ rest)) 1

module _ (L : CdsList) where
  open L use {Head, empty, add_tail, del, entries}

  -- The module's variables, and the heap: `none` where no object lives.
  pub record Threads : Type 0 where
    pub heap : ℕ → Option ThreadObj
    pub next : ℕ
    pub thread_list : Head
    pub locked : Bool

  -- The mutex is a plain one: a second lock by its holder waits for ever.
  unfoldable pub lock : Threads → Outcome Threads
  lock t = if t.locked then fault deadlock else done (record t { locked = true })

  unfoldable pub unlock : Threads → Threads
  unlock t = record t { locked = false }

  abbrev pub live : Option ThreadObj → Outcome ThreadObj
  live none = fault use_after_free
  live (some obj) = done obj

  -- `*p`
  unfoldable pub read : ℕ → Threads → Outcome ThreadObj
  read p t = live (t.heap p)

  unfoldable pub write : ℕ → ThreadObj → Threads → Threads
  write p obj t = record t { heap = update t.heap p (some obj) }

  -- The walk of `findThreadFromIdInList`.
  unfoldable pub find_from : List ℕ → ℕ → Threads → Outcome (Option ℕ)
  unfolding read
  find_from [] id t = done none
  find_from (p ∷ rest) id t = read p t >>= λ obj. elim (obj.thread_id == id) [
    | true ↦ done (some p)
    | false ↦ find_from rest id t
  ]

  unfoldable pub find_thread_from_id_in_list : Head → ℕ → Threads → Outcome (Option ℕ)
  find_thread_from_id_in_list head id t = find_from (entries head) id t

  -- The first lines of most functions: the lookup under the lock.
  unfoldable pub find_locked : ℕ → Threads → Outcome (Option ℕ × Threads)
  find_locked id t = do
    t1 ← lock t
    p ← find_thread_from_id_in_list t1.thread_list id t1
    done (p, unlock t1)

  -- Results are the returned `int` without its sign: 0, or the number of the error.
  unfoldable pub on_new :
      (ThreadObj → Outcome (ℕ × ThreadObj)) → Option ℕ → Threads → Outcome (ℕ × Threads)
  on_new change none t = done (1, t)
  on_new change (some p) t = read p t >>= λ obj.
      if not (is_new obj.state)
      then done (2, t)
      else (change obj >>= λ r. done (r.0, write p r.1 t))

  unfoldable pub set_thread_joinable : Answers → ℕ → Threads → Outcome (ℕ × Threads)
  set_thread_joinable answers id t = do
    found ← find_locked id t
    on_new
        (λ obj.
          done (if answers.setdetachstate == 0 then 0 else 3, record obj { is_joinable = true }))
        found.0 found.1

  -- `CreateThread`: the pointer, `none` for NULL.
  unfoldable pub create_thread :
      Answers → Bytes → ℕ → Option Bytes → Threads → Outcome (Option ℕ × Threads)
  create_thread answers name main_func context t =
      if not answers.calloc_ok
      then fault null_pointer
      else if not (answers.attr_init == 0)
      then fault assertion_failed
      else (do
        copied ← Utf8.copy (zeroed max_thread_name_size) (terminated name) max_thread_name_size
        if not (answers.setinheritsched == 0)
            then done (none, record t { next = t.next + 1 })
            else if not (answers.setdetachstate == 0)
            then done (none, record t { next = t.next + 1 })
            else (do
              t1 ← lock t
              let obj : ThreadObj = record {
                thread_id = 0 + 1;
                name = copied.dest;
                priority = 0;
                is_joinable = false;
                state = thread_new;
                main_func = main_func;
                context = context;
                destructor_list = [];
                thread_handle = 0;
                thread_obj_list_change_count = 0 + 1;
                set_pid_on_start = false;
                proc_id = answers.inherited_proc_id;
              }
              let t2 : Threads = record t1 {
                heap = update t1.heap t1.next (some obj);
                next = t1.next + 1;
                thread_list = add_tail t1.next empty;
              }
              done (some t1.next, unlock t2)))

  -- `AddDestructor` behind the checks of `addDestructorToThread`.
  unfoldable pub add_destructor_to_thread :
      Answers → ℕ → Option ℕ → Bytes → Threads → Outcome (ℕ × Threads)
  add_destructor_to_thread answers id destructor context t = do
    found ← find_locked id t
    on_new
        (λ obj.
          if not answers.calloc_ok
          then fault null_pointer
          else done (
            0,
            record obj {
              destructor_list =
                  obj.destructor_list ++ record { destructor = destructor; context = context } ∷ [];
            },
          ))
        found.0 found.1

  -- `startThread`; where `pthread_create` fails its own code is the result.
  unfoldable pub start_thread : Answers → ℕ → Threads → Outcome (ℕ × Threads)
  start_thread answers id t = do
    found ← find_locked id t
    on_new
        (λ obj. done (
          answers.pthread_create,
          record obj {
            state = thread_running;
            thread_handle =
                if answers.pthread_create == 0 then answers.new_handle else obj.thread_handle;
          },
        ))
        found.0 found.1

  unfoldable pub cancel_found : Answers → Option ℕ → Threads → Outcome (ℕ × Threads)
  cancel_found answers none t = done (1, t)
  cancel_found answers (some p) t =
      read p t >>= λ obj. if answers.pthread_cancel == 0 then done (0, unlock t) else done (1, t)

  -- `cancelThread`; its error path returns with the mutex held.
  unfoldable pub cancel_thread : Answers → ℕ → Threads → Outcome (ℕ × Threads)
  cancel_thread answers id t = do
    t1 ← lock t
    p ← find_thread_from_id_in_list t1.thread_list id t1
    cancel_found answers p t1

  -- The cases of the `switch` on the code of `pthread_join`.
  unfoldable pub after_join : JoinAnswer → ℕ → Threads → Outcome (ℕ × Threads)
  after_join joined p t = do
    t1 ← lock t
    obj ← read p t1
    let t2 : Threads = record t1 { thread_list = del p t1.thread_list }
    done (0, record (unlock t2) { heap = update t2.heap p none })
  after_join edeadlk p t = done (3, t)
  after_join esrch p t = done (1, t)
  after_join other_error p t = done (2, t)

  unfoldable pub join_found : JoinAnswer → Option ℕ → Threads → Outcome (ℕ × Threads)
  join_found answer none t = done (1, t)
  join_found answer (some p) t =
      read p t >>= λ obj. if not obj.is_joinable then done (2, t) else after_join answer p t

  -- `JoinThread`: the object is read under the lock, and the join waits outside it.
  unfoldable pub join_thread : JoinAnswer → ℕ → Threads → Outcome (ℕ × Threads)
  join_thread answer id t = do found ← find_locked id t; join_found answer found.0 found.1

  -- `CleanupThread`, run by the thread itself as it ends, with the destructors that it has called.
  unfoldable pub cleanup_thread : ℕ → Threads → Outcome (List Bytes × Threads)
  cleanup_thread p t = do
    obj ← read p t
    called ← run_destructors obj.destructor_list
    let t1 : Threads = write p (record obj { state = thread_dying; destructor_list = [] }) t
    if obj.is_joinable then done (called, t1) else (do
      t2 ← lock t1
      let t3 : Threads = unlock (record t2 { thread_list = del p t2.thread_list })
      done (called, record t3 { heap = update t3.heap p none }))
