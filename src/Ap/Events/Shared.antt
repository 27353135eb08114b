-- ===== src/Ap/Events/Shared.antt =====
-- Two event threads at a time: they share the pointer of the pipe.
use wifiap_binding.Base.{
  ℕ, ◌≡◌, ◌≢◌, Option, some, List, [], ◌∷◌, fault, null_pointer, use_after_free, arith,
}
use wifiap_binding.Base.Int.{ℤ}
use wifiap_binding.Base.Bytes.{Bytes}
use wifiap_binding.Ap.Events.{
  reading, Pipes, assign, goto, stream, advance_thread, cancelled, advance, cancel, Move, act,
  run_schedule,
}

assign-other {ℓ} : {A : Type ℓ} (i j : ℕ) (x : A) (f : ℕ → A) → i ≢ j → assign i x f j ≡ f j
unfolding assign
assign-other i j x f other = ground arith

module _ (interface : ℕ → Bytes) (popened : ℕ → Option (List Bytes)) (i j : ℕ) where
  abbrev moves_of_end : List Move
  moves_of_end =
      record { thread = i; action = cancel }
      ∷ record { thread = i; action = advance }
      ∷ record { thread = i; action = advance }
      ∷ []

  -- While two threads read, the cancel of one of them takes the pipe from the other. If the other
  -- reads its next line behind `pclose` it reads a closed stream, and behind the reset of the
  -- pointer it reads through NULL.
  pub run_schedule_faults :
      (s : Pipes) (n m : ℤ) (p : ℕ) (lines : List Bytes)
      → i ≢ j
      → s.pc i ≡ reading n
      → s.pc j ≡ reading m
      → s.iw_thread_pipe_ptr ≡ some p
      → s.streams p ≡ some lines
      → (run_schedule interface popened
            (record { thread = i; action = cancel }
              ∷ record { thread = i; action = advance }
              ∷ record { thread = i; action = advance }
              ∷ record { thread = j; action = advance }
              ∷ [])
            s
          ≡ fault use_after_free)
        × (run_schedule interface popened
              (record { thread = i; action = cancel }
                ∷ record { thread = i; action = advance }
                ∷ record { thread = i; action = advance }
                ∷ record { thread = i; action = advance }
                ∷ record { thread = j; action = advance }
                ∷ [])
              s
            ≡ fault null_pointer)
  unfolding run_schedule act advance_thread goto cancelled stream assign
  run_schedule_faults s n m p lines other at_i at_j ptr opened = (ground arith, ground arith)
