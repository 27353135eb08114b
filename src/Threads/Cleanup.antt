-- ===== src/Threads/Cleanup.antt =====
-- `CleanupThread`: one destructor is run once; with more it reads a freed node.
use wifiap_binding.Base.{
  ℕ, ◌≡◌, refl, true, false, none, some, List, [], ◌∷◌, done, fault, use_after_free, arith, ◌==◌,
  if◌then◌else◌,
}
use wifiap_binding.Base.Bytes.{Bytes}
use wifiap_binding.Threads.Links.{CdsList}
use wifiap_binding.Threads.{
  Threads, ThreadObj, thread_dying, Destructor, read, write, update, lock, unlock, run_destructors,
  number_of_nodes, nodes_at, node_at, sweep, cleanup_thread,
}

module _ (L : CdsList) where
  -- A live joinable thread with one destructor calls it once, with its context, and is left dying
  -- with no destructor, for its joiner to free.
  pub cleanup_thread_joinable :
      (t : Threads L) (p : ℕ) (obj : ThreadObj) (f : ℕ) (c : Bytes)
      → t.heap p ≡ some obj
      → obj.is_joinable ≡ true
      → obj.destructor_list ≡ record { destructor = some f; context = c } ∷ []
      → cleanup_thread L p t
        ≡ done (c ∷ [], write L p (record obj { state = thread_dying; destructor_list = [] }) t)
  unfolding cleanup_thread read run_destructors sweep node_at number_of_nodes nodes_at
  cleanup_thread_joinable t p obj f c lives joinable ds = rw lives (rw joinable (rw ds))

  next_is_left :
      (d e : Destructor) (rest : List Destructor)
      → (number_of_nodes (e ∷ rest) (λ q. if q == 1 then none else nodes_at 1 (d ∷ e ∷ rest) q) 2
          == 0)
        ≡ false
  unfolding number_of_nodes nodes_at
  next_is_left d e [] = refl
  next_is_left d e (f ∷ rest) = ground arith

  -- A live thread with two or more destructors reads the link of a freed node.
  pub cleanup_thread_use_after_free :
      (t : Threads L) (p : ℕ) (obj : ThreadObj) (d e : Destructor) (rest : List Destructor)
      → t.heap p ≡ some obj
      → obj.destructor_list ≡ d ∷ e ∷ rest
      → cleanup_thread L p t ≡ fault use_after_free
  unfolding cleanup_thread read run_destructors sweep node_at number_of_nodes nodes_at
  cleanup_thread_use_after_free t p obj d e rest lives ds =
      rw lives (rw ds (rw (next_is_left d e rest) refl))

  -- A live detached thread with one destructor calls it once and frees itself.
  pub cleanup_thread_detached :
      (t : Threads L) (p : ℕ) (obj : ThreadObj) (f : ℕ) (c : Bytes)
      → t.heap p ≡ some obj
      → obj.is_joinable ≡ false
      → obj.destructor_list ≡ record { destructor = some f; context = c } ∷ []
      → t.locked ≡ false
      → cleanup_thread L p t
        ≡ done (
          c ∷ [],
          record t {
            heap =
                update
                  (write L p (record obj { state = thread_dying; destructor_list = [] }) t).heap
                  p
                  none;
            thread_list = L.del p t.thread_list;
            locked = false;
          },
        )
  unfolding cleanup_thread read run_destructors sweep node_at number_of_nodes nodes_at lock unlock
      write
  cleanup_thread_detached t p obj f c lives detached ds free =
      rw lives (rw detached (rw ds (rw free refl)))
