-- ===== src/Ap/Mutex.antt =====
-- The mutex of the threads is free between the verbs of src/wifiAp.c, as long as the calls that make
-- and cancel threads succeed.
pub mod Verbs
use mathlib.Core.Path.{subst}
use wifiap_binding.Base.{
  ℕ, ◌≡◌, ◌⊎◌, inl, inr, refl, sym, ap, ◌∙◌, List, Bool, true, false, Option, none, some, [],
  Outcome, done, ◌==◌, if◌then◌else◌, arith, Bool-cases, IfDone, IfDone-done, >>=-eq-done,
}
use wifiap_binding.Base.Bytes.{Bytes}
use wifiap_binding.Threads.{
  Threads, ThreadObj, thread_dying, JoinAnswer, joined, edeadlk, esrch, other_error, live, read,
  write, update, run_destructors, cleanup_thread, join_found, after_join, join_thread,
}
use wifiap_binding.Threads.Links.{CdsList, IsLawful}
use wifiap_binding.Threads.Lifecycle.{
  OneThread, released, read_lem, find_locked_lem, join_thread_joined,
}
use wifiap_binding.Ap.{World, set_status}
use wifiap_binding.Ap.Keep.{IsSettled}

-- An object that is there is that of a joinable thread.
abbrev pub JoinableCell : Option ThreadObj → Type 0
JoinableCell none = Unit
JoinableCell (some obj) = obj.is_joinable ≡ true

chosen {ℓ} :
    {A : Type ℓ} (b : Bool) (a r : A) (k : Outcome A)
    → (if b then done a else k) ≡ done r
    → b ≡ true
    → r ≡ a
chosen true a r k e h = cc
chosen false a r k e h = absurd cc

some_inj : (a b : ThreadObj) → ◌≡◌ {A = Option ThreadObj} (some a) (some b) → a ≡ b
some_inj a b e = cc

module _ (L : CdsList) where
  -- A pointer is NULL, or its object is freed, or is the one listed thread.
  abbrev pub Points : Threads L → Option ℕ → Type 0
  Points t none = Unit
  Points t (some p) = (t.heap p ≡ none) ⊎ ((obj : ThreadObj) × OneThread L t p obj)

  pub record IsFree (t : Threads L) (o : Option ℕ) : Type 0 where
    pub free : t.locked ≡ false
    pub cells : (q : ℕ) → JoinableCell (t.heap q)
    pub points : Points t o

  abbrev pub IsFreeWorld : World L → Type 0
  IsFreeWorld w = IsFree w.threads w.wifi_ap_thread_ptr

  pub settled : IsSettled L IsFreeWorld
  unfolding set_status
  settled = record { logs = λ w h free. free; marks = λ w st free. free }

  cells-update :
      (heap : ℕ → Option ThreadObj) (p : ℕ) (cell : Option ThreadObj) (q : ℕ)
      → JoinableCell cell
      → JoinableCell (heap q)
      → JoinableCell (update heap p cell q)
  cells-update heap p cell q new old = elim (Bool-cases (q == p)) [
    | inl same ↦ rw same new
    | inr other ↦ rw other old
  ]

  pub live-done : (c : Option ThreadObj) (obj : ThreadObj) → live L c ≡ done obj → c ≡ some obj
  live-done none obj e = cc
  live-done (some obj') obj e = ground arith

  abbrev dying : ThreadObj → ThreadObj
  dying obj = record obj { state = thread_dying; destructor_list = [] }

  -- The cleanup of a joinable thread only changes its object.
  cleaned :
      (q : ℕ) (t : Threads L)
      → ((x : ℕ) → JoinableCell (t.heap x))
      → IfDone
          (λ r.
            (obj : ThreadObj) × (t.heap q ≡ some obj)
            × (obj.is_joinable ≡ true)
            × (r.1 ≡ write L q (dying obj) t))
          (cleanup_thread L q t)
  unfolding cleanup_thread read
  cleaned q t cells r runs =
      let (obj, reads, rest) = >>=-eq-done (read L q t) _ runs in
      let (called, ran, ends) = >>=-eq-done (run_destructors obj.destructor_list) _ rest in
      let lives = live-done (t.heap q) obj reads in
      let joinable : obj.is_joinable ≡ true = subst JoinableCell lives (cells q) in
      (
        obj,
        lives,
        joinable,
        ap {A = List Bytes × Threads L} (λ v. v.1)
            (chosen obj.is_joinable (called, write L q (dying obj) t) r _ ends joinable),
      )

  write-cells :
      (q : ℕ) (obj : ThreadObj) (t : Threads L) (x : ℕ)
      → obj.is_joinable ≡ true
      → JoinableCell (t.heap x)
      → JoinableCell ((write L q obj t).heap x)
  unfolding write
  write-cells q obj t x new old = cells-update t.heap q (some obj) x new old

  -- The object that is written lives already.
  written-OneThread :
      (p : ℕ) (obj obj' : ThreadObj) (t : Threads L)
      → t.heap p ≡ some obj
      → OneThread L t p obj'
      → OneThread L (write L p (dying obj) t) p (dying obj)
  unfolding write
  written-OneThread p obj obj' t lives one =
      let same_obj : obj ≡ obj' = some_inj obj obj' (sym lives ∙ one.lives) in
      record {
        free = one.free;
        listed = one.listed;
        lives = ground arith;
        numbered = rw same_obj (one.numbered);
      }

  write-Points :
      (o : Option ℕ) (q : ℕ) (obj : ThreadObj) (t : Threads L)
      → t.heap q ≡ some obj
      → Points t o
      → Points (write L q (dying obj) t) o
  unfolding write
  write-Points none q obj t lives h = tt
  write-Points (some p) q obj t lives (inl gone) = elim (Bool-cases (p == q)) [
    | inl same ↦ absurd (let e : p ≡ q = ground arith in cc)
    | inr other ↦ inl (rw other gone)
  ]
  write-Points (some p) q obj t lives (inr (obj', one)) = elim (Bool-cases (p == q)) [
    | inl same ↦
        let e : p ≡ q = ground arith in
        let cell : t.heap p ≡ some obj = rw e lives in
        let written = written-OneThread p obj obj' t cell one in
        inr (
          dying obj,
          record {
            free = one.free;
            listed = one.listed;
            lives = rw same refl;
            numbered = written.numbered;
          },
        )
    | inr other ↦ inr (
      obj',
      record {
        free = one.free;
        listed = one.listed;
        lives = rw other (one.lives);
        numbered = one.numbered;
      },
    )
  ]

  -- The end of any thread.
  pub cleanup-IsFree :
      (o : Option ℕ) (q : ℕ) (t : Threads L)
      → IsFree t o
      → IfDone (λ r. IsFree r.1 o) (cleanup_thread L q t)
  unfolding write
  cleanup-IsFree o q t h r runs =
      let (obj, lives, joinable, same) = cleaned q t (h.cells) r runs in
      rw same (cleaned-IsFree obj lives joinable)
    where
      cleaned-IsFree :
          (obj : ThreadObj)
          → t.heap q ≡ some obj
          → obj.is_joinable ≡ true
          → IsFree (write L q (dying obj) t) o
      cleaned-IsFree obj lives joinable = record {
        free = h.free;
        cells = λ x. write-cells q (dying obj) t x joinable (h.cells x);
        points = write-Points o q obj t lives h.points;
      }

  -- The end of the listed thread leaves it listed.
  pub cleanup-OneThread :
      (p : ℕ) (t : Threads L) (obj' : ThreadObj)
      → OneThread L t p obj'
      → ((x : ℕ) → JoinableCell (t.heap x))
      → IfDone
          (λ r. (obj : ThreadObj) × OneThread L r.1 p obj × ((x : ℕ) → JoinableCell (r.1.heap x)))
          (cleanup_thread L p t)
  cleanup-OneThread p t obj' one cells r runs =
      let (obj, lives, joinable, same) = cleaned p t cells r runs in
      (
        dying obj,
        rw same (written-OneThread p obj obj' t lives one),
        rw same λ x. write-cells p (dying obj) t x joinable (cells x),
      )

  module _ (law : IsLawful L) (p : ℕ) (t : Threads L) (obj : ThreadObj) (one : OneThread L t p obj)
      (cells : (q : ℕ) → JoinableCell (t.heap q)) where
    released-IsFree : IsFree (released L t) (some p)
    released-IsFree = record {
      free = refl;
      cells = cells;
      points = inr (
        obj,
        record { free = refl; listed = one.listed; lives = one.lives; numbered = one.numbered },
      );
    }

    joinable : obj.is_joinable ≡ true
    joinable = subst JoinableCell (one.lives) (cells p)

    refused-IsFree :
        (answer : JoinAnswer) (n : ℕ)
        → after_join L answer p (released L t) ≡ done (n, released L t)
        → IfDone (λ r. IsFree r.1 (some p)) (join_thread L answer 1 t)
    unfolding join_thread join_found
    refused-IsFree answer n e = rw (find_locked_lem L t p obj one) (
        rw (read_lem L t p obj one (released L t) refl) (
          rw joinable
            (rw e (IfDone-done (λ r. IsFree r.1 (some p)) (n, released L t) released-IsFree))))

    -- `JoinThread` of the listed thread.
    pub join_thread-IsFree :
        (answer : JoinAnswer) → IfDone (λ r. IsFree r.1 (some p)) (join_thread L answer 1 t)
    unfolding after_join
    join_thread-IsFree joined = rw (join_thread_joined L law t p obj one joinable) (
        IfDone-done (λ r. IsFree r.1 (some p)) (0, _)
          (record {
            free = refl;
            cells = λ q. cells-update t.heap p none q tt (cells q);
            points = inl (ground arith);
          }))
    join_thread-IsFree edeadlk = refused-IsFree edeadlk 3 refl
    join_thread-IsFree esrch = refused-IsFree esrch 1 refl
    join_thread-IsFree other_error = refused-IsFree other_error 2 refl
