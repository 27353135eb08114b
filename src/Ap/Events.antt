-- ===== src/Ap/Events.antt =====
-- The event threads of src/wifiAp.c as they share the pipe of `iw event`: the steps of
-- `WifiApThreadMainFunc` and of `threadDestructorFunc` between which another thread may move, the
-- cancellation of a thread, and runs of any schedule.
pub mod Alone
pub mod Schedules
pub mod Ending
pub mod Shared
use wifiap_binding.Base.{
  ℕ, ◌+◌, ◌++◌, Bool, true, false, Option, none, some, List, [], ◌∷◌, Outcome, done, fault, ◌>>=◌,
  null_pointer, use_after_free, ◌==◌, if◌then◌else◌,
}
use wifiap_binding.Base.Int.{ℤ, pos}
use wifiap_binding.Base.Bytes.{Bytes}
use wifiap_binding.Ap.Clients.{ClientEvent, handle_line, push}

-- Where a thread is: before `popen`, before a call of `fgets` with its count, before the test of
-- the pointer in its destructor, before `pclose`, before the reset of the pointer, at its end. The
-- flag tells whether the cleanup runs because of a cancel; a thread in the cleanup behind its own
-- return can still be cancelled, which drops the rest of its destructor.
pub data Pc : Type 0 where
  opening : Pc
  reading : ℤ → Pc
  leaving : Bool → Pc
  closing : Bool → Pc
  clearing : Pc
  ended : Pc
  aborted : Pc

-- What the threads share: the one pointer of the file, the open pipes with the lines that are not
-- read yet, the events in the order they are pushed.
pub record Pipes : Type 0 where
  pub iw_thread_pipe_ptr : Option ℕ
  pub streams : ℕ → Option (List Bytes)
  pub next : ℕ
  pub pc : ℕ → Pc
  pub events : List ClientEvent

unfoldable pub assign {ℓ} : {A : Type ℓ} → ℕ → A → (ℕ → A) → ℕ → A
assign i x f j = if j == i then x else f j

unfoldable pub goto : ℕ → Pc → Pipes → Pipes
goto i pc s = record s { pc = assign i pc s.pc }

-- `IwThreadPipePtr = popen(…)`, and the test behind it.
unfoldable pub open_pipe : Option (List Bytes) → ℕ → Pipes → Pipes
open_pipe none i s = goto i (leaving false) (record s { iw_thread_pipe_ptr = none })
open_pipe (some lines) i s = goto i (reading (pos 0)) (record s {
  iw_thread_pipe_ptr = some s.next;
  streams = assign s.next (some lines) s.streams;
  next = s.next + 1;
})

-- The stream that a pointer names, for `fgets` and `pclose`.
unfoldable pub stream : Option ℕ → Pipes → Outcome (ℕ × List Bytes)
stream none s = fault null_pointer
stream (some p) s = elim (s.streams p) [
  | none ↦ fault use_after_free
  | some lines ↦ done (p, lines)
]

-- A round of the loop, with what `fgets` finds: the end of the pipe or a line.
unfoldable pub next_line : Bytes → ℕ → ℤ → ℕ → List Bytes → Pipes → Pipes
next_line interface i n p [] s = goto i (leaving false) s
next_line interface i n p (line ∷ rest) s =
    let (n1, event) = handle_line interface line n in
    goto i (reading n1)
      (record s { streams = assign p (some rest) s.streams; events = s.events ++ push event [] })

-- One step of thread `i`: its interface and what `popen` answers it are parameters.
unfoldable pub advance_thread : Bytes → Option (List Bytes) → ℕ → Pc → Pipes → Outcome Pipes
advance_thread interface popened i opening s = done (open_pipe popened i s)
advance_thread interface popened i (reading n) s =
    stream s.iw_thread_pipe_ptr s >>= λ r. done (next_line interface i n r.0 r.1 s)
advance_thread interface popened i (leaving c) s = elim s.iw_thread_pipe_ptr [
  | none ↦ done (goto i ended s)
  | some p ↦ done (goto i (closing c) s)
]
advance_thread interface popened i (closing c) s = stream s.iw_thread_pipe_ptr s >>= λ r.
    done (goto i clearing (record s { streams = assign r.0 none s.streams }))
advance_thread interface popened i clearing s =
    done (goto i ended (record s { iw_thread_pipe_ptr = none }))
advance_thread interface popened i ended s = done s
advance_thread interface popened i aborted s = done s

-- The cancel of a thread takes effect at its next call that can be cancelled: the cleanup begins.
unfoldable pub cancelled : Pc → Pc
cancelled opening = leaving true
cancelled (reading n) = leaving true
cancelled (leaving false) = aborted
cancelled (leaving true) = leaving true
cancelled (closing false) = aborted
cancelled (closing true) = closing true
cancelled clearing = clearing
cancelled ended = ended
cancelled aborted = aborted

pub data Action : Type 0 where
  advance : Action
  cancel : Action

pub record Move : Type 0 where
  pub thread : ℕ
  pub action : Action

module _ (interface : ℕ → Bytes) (popened : ℕ → Option (List Bytes)) where
  unfoldable pub act : ℕ → Action → Pipes → Outcome Pipes
  act i advance s = advance_thread (interface i) (popened i) i (s.pc i) s
  act i cancel s = done (goto i (cancelled (s.pc i)) s)

  -- A schedule: which thread moves next, and how.
  unfoldable pub run_schedule : List Move → Pipes → Outcome Pipes
  run_schedule [] s = done s
  run_schedule (move ∷ moves) s = act move.thread move.action s >>= λ s1. run_schedule moves s1
