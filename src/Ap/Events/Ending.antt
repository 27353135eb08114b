-- ===== src/Ap/Events/Ending.antt =====
-- An event thread that is not cancelled comes to its end.
use mathlib.Core.List.{append_assoc, append-nil}
use wifiap_binding.Base.{
  ℕ, ◌+◌, ◌≤◌, ◌≡◌, refl, sym, ap, ◌∙◌, ◌++◌, Bool, false, Option, none, some, List, [], ◌∷◌,
  Outcome, done, arith, All, length,
}
use wifiap_binding.Base.Int.{ℤ, pos}
use wifiap_binding.Base.Bytes.{Bytes}
use wifiap_binding.Ap.Clients.{ClientEvent, handle_line, push, main_loop}
use wifiap_binding.Ap.Events.{
  Pc, opening, reading, leaving, closing, clearing, ended, Pipes, assign, goto, open_pipe,
  next_line, advance_thread, advance, Move, act, run_schedule,
}
use wifiap_binding.Ap.Events.Alone.{assign-same, stream_lem}

module _ (interface : ℕ → Bytes) (popened : ℕ → Option (List Bytes)) (i : ℕ) where
  -- The thread has ended with these events pushed behind those before.
  pub record EndsWith (before told : List ClientEvent) (r : Outcome Pipes) : Type 0 where
    pub last : Pipes
    pub runs : r ≡ done last
    pub at_end : last.pc i ≡ ended
    pub null : last.iw_thread_pipe_ptr ≡ none
    pub events : last.events ≡ before ++ told

  abbrev IsAdvance : Move → Type 0
  IsAdvance m = m ≡ record { thread = i; action = advance }

  -- One move of the thread at a known place.
  run_schedule-advance :
      (pc : Pc) (m : Move) (moves : List Move) (s t : Pipes)
      → IsAdvance m
      → s.pc i ≡ pc
      → advance_thread (interface i) (popened i) i pc s ≡ done t
      → run_schedule interface popened (m ∷ moves) s ≡ run_schedule interface popened moves t
  unfolding run_schedule act
  run_schedule-advance pc m moves s t same e steps = rw (same, e, steps) refl

  ended-EndsWith :
      (moves : List Move) (s : Pipes) (before told : List ClientEvent)
      → All IsAdvance moves
      → s.pc i ≡ ended
      → s.iw_thread_pipe_ptr ≡ none
      → s.events ≡ before ++ told
      → EndsWith before told (run_schedule interface popened moves s)
  unfolding run_schedule advance_thread
  ended-EndsWith [] s before told only e null events = record {
    last = s;
    runs = refl;
    at_end = e;
    null = null;
    events = events;
  }
  ended-EndsWith (m ∷ moves) s before told (same, only) e null events =
      rw (run_schedule-advance ended m moves s s same e refl)
        (ended-EndsWith moves s before told only e null events)

  clearing-EndsWith :
      (moves : List Move) (s : Pipes) (before told : List ClientEvent)
      → All IsAdvance moves
      → 1 ≤ length moves
      → s.pc i ≡ clearing
      → s.events ≡ before ++ told
      → EndsWith before told (run_schedule interface popened moves s)
  unfolding advance_thread goto
  clearing-EndsWith [] s before told only enough e events = absurd (omega arith)
  clearing-EndsWith (m ∷ moves) s before told (same, only) enough e events =
      let t : Pipes = goto i ended (record s { iw_thread_pipe_ptr = none }) in
      rw (run_schedule-advance clearing m moves s t same e refl)
        (ended-EndsWith moves t before told only (assign-same i ended s.pc) refl events)

  closing-EndsWith :
      (c : Bool) (moves : List Move) (s : Pipes) (before told : List ClientEvent) (p : ℕ)
      (lines : List Bytes)
      → All IsAdvance moves
      → 2 ≤ length moves
      → s.pc i ≡ closing c
      → s.iw_thread_pipe_ptr ≡ some p
      → s.streams p ≡ some lines
      → s.events ≡ before ++ told
      → EndsWith before told (run_schedule interface popened moves s)
  unfolding advance_thread goto
  closing-EndsWith c [] s before told p lines only enough e ptr opened events = absurd (omega arith)
  closing-EndsWith c (m ∷ moves) s before told p lines (same, only) enough e ptr opened events =
      let t : Pipes = goto i clearing (record s { streams = assign p none s.streams }) in
      rw
        (run_schedule-advance (closing c) m moves s t same e
          (rw (stream_lem s p lines ptr opened) refl))
        (clearing-EndsWith moves t before told only (omega arith) (assign-same i clearing s.pc)
          events)

  leaving-EndsWith :
      (c : Bool) (moves : List Move) (s : Pipes) (before told : List ClientEvent) (p : ℕ)
      (lines : List Bytes)
      → All IsAdvance moves
      → 3 ≤ length moves
      → s.pc i ≡ leaving c
      → s.iw_thread_pipe_ptr ≡ some p
      → s.streams p ≡ some lines
      → s.events ≡ before ++ told
      → EndsWith before told (run_schedule interface popened moves s)
  unfolding advance_thread goto
  leaving-EndsWith c [] s before told p lines only enough e ptr opened events = absurd (omega arith)
  leaving-EndsWith c (m ∷ moves) s before told p lines (same, only) enough e ptr opened events =
      let t : Pipes = goto i (closing c) s in
      rw (run_schedule-advance (leaving c) m moves s t same e (rw ptr refl)) (
        closing-EndsWith c moves t before told p lines only (omega arith)
          (assign-same i (closing c) s.pc) ptr opened events)

  push-append : (e : Option ClientEvent) (xs : List ClientEvent) → push e [] ++ xs ≡ push e xs
  push-append none xs = refl
  push-append (some e) xs = refl

  EndsWith-push :
      (e : Option ClientEvent) (before told : List ClientEvent) (r : Outcome Pipes)
      → EndsWith (before ++ push e []) told r
      → EndsWith before (push e told) r
  EndsWith-push e before told r h = record {
    last = h.last;
    runs = h.runs;
    at_end = h.at_end;
    null = h.null;
    events =
        h.events
        ∙ append_assoc before (push e []) told
        ∙ ap (λ l. before ++ l) (push-append e told);
  }

  reading-EndsWith :
      (rest : List Bytes) (n : ℤ) (moves : List Move) (s : Pipes) (before : List ClientEvent)
      (p : ℕ)
      → All IsAdvance moves
      → length rest + 4 ≤ length moves
      → s.pc i ≡ reading n
      → s.iw_thread_pipe_ptr ≡ some p
      → s.streams p ≡ some rest
      → s.events ≡ before
      → EndsWith before (main_loop (interface i) rest n).1 (run_schedule interface popened moves s)
  unfolding advance_thread goto next_line main_loop
  reading-EndsWith rest n [] s before p only enough e ptr opened events = absurd (omega arith)
  reading-EndsWith [] n (m ∷ moves) s before p (same, only) enough e ptr opened events =
      let t : Pipes = goto i (leaving false) s in
      rw
        (run_schedule-advance (reading n) m moves s t same e
          (rw (stream_lem s p [] ptr opened) refl))
        (leaving-EndsWith false moves t before [] p [] only (omega arith)
          (assign-same i (leaving false) s.pc) ptr opened (events ∙ sym (append-nil before)))
  reading-EndsWith (line ∷ rest) n (m ∷ moves) s before p (same, only) enough e ptr opened events =
      let (n1, event) = handle_line (interface i) line n in
      let t : Pipes = goto i (reading n1) (record s {
        streams = assign p (some rest) s.streams;
        events = s.events ++ push event [];
      }) in
      rw
        (run_schedule-advance (reading n) m moves s t same e
          (rw (stream_lem s p (line ∷ rest) ptr opened) refl))
        (EndsWith-push event before (main_loop (interface i) rest n1).1
          (run_schedule interface popened moves t)
          (reading-EndsWith rest n1 moves t (before ++ push event []) p only (omega arith)
            (assign-same i (reading n1) s.pc) ptr (assign-same p (some rest) s.streams)
            (ap (λ l. l ++ push event []) events)))

  -- A thread to which `popen` gives a pipe, and which is not cancelled and moves often enough: once
  -- for `popen`, once for each line, once for the end of the pipe and three times in its destructor.
  -- It then has ended, has pushed the events of the sequential loop over all lines behind those
  -- before, and the pointer of the pipe is NULL.
  pub run_schedule_ends :
      (lines : List Bytes) (moves : List Move) (s : Pipes)
      → popened i ≡ some lines
      → s.pc i ≡ opening
      → All IsAdvance moves
      → length lines + 5 ≤ length moves
      → EndsWith s.events
          (main_loop (interface i) lines (pos 0)).1
          (run_schedule interface popened moves s)
  unfolding advance_thread goto open_pipe
  run_schedule_ends lines [] s gives e only enough = absurd (omega arith)
  run_schedule_ends lines (m ∷ moves) s gives e (same, only) enough =
      let t : Pipes = goto i (reading (pos 0)) (record s {
        iw_thread_pipe_ptr = some s.next;
        streams = assign s.next (some lines) s.streams;
        next = s.next + 1;
      }) in
      rw (run_schedule-advance opening m moves s t same e (rw gives refl)) (
        reading-EndsWith lines (pos 0) moves t s.events s.next only (omega arith)
          (assign-same i (reading (pos 0)) s.pc) refl (assign-same s.next (some lines) s.streams)
          refl)
