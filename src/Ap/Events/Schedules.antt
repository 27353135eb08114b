-- ===== src/Ap/Events/Schedules.antt =====
-- Schedules of one event thread.
use mathlib.Core.Path.{subst}
use mathlib.Core.List.{append_assoc, append-nil}
use wifiap_binding.Base.{
  ℕ, zero, suc, ◌≡◌, ◌⊎◌, false, inl, inr, refl, sym, ap, ◌∙◌, ◌++◌, Option, List, [], ◌∷◌, Outcome,
  done, All, take, drop, Option-cases,
}
use wifiap_binding.Base.Int.{ℤ, pos}
use wifiap_binding.Base.Bytes.{Bytes}
use wifiap_binding.Ap.Clients.{ClientEvent, handle_line, main_loop}
use wifiap_binding.Ap.Events.{
  Pc, opening, reading, leaving, Pipes, goto, cancelled, Action, advance, cancel, Move, act,
  advance_thread, run_schedule,
}
use wifiap_binding.Ap.Events.Alone.{
  IsNullOrOpen, lines_of, IsAt, Follows, ReadsNoMore, Leads, open-Leads, no_pipe-Leads, line-Leads,
  last-Leads, advance-Leads, cancel-Leads,
}

-- How often the thread moves before the first cancel.
abbrev counted : Action → ℕ → ℕ
counted advance n = suc n
counted cancel n = 0

pub advances : List Move → ℕ
advances [] = 0
advances (move ∷ moves) = counted move.action (advances moves)

-- The rounds of its loop that it has begun: its first move opens the pipe.
abbrev behind_first : ℕ → ℕ
behind_first zero = 0
behind_first (suc n) = n

pub rounds : List Move → ℕ
rounds moves = behind_first (advances moves)

Action-cases : (a : Action) → (a ≡ advance) ⊎ (a ≡ cancel)
Action-cases advance = inl refl
Action-cases cancel = inr refl

List-cases :
    (lines : List Bytes)
    → (lines ≡ []) ⊎ ((line : Bytes) × (rest : List Bytes) × (lines ≡ line ∷ rest))
List-cases [] = inl refl
List-cases (line ∷ rest) = inr (line, rest, refl)

take-nil : (n : ℕ) → take {A = Bytes} n [] ≡ []
take-nil zero = refl
take-nil (suc n) = refl

drop-nil : (n : ℕ) → drop {A = Bytes} n [] ≡ []
drop-nil zero = refl
drop-nil (suc n) = refl

module _ (interface : ℕ → Bytes) (popened : ℕ → Option (List Bytes)) (i : ℕ)
    (before : List ClientEvent) where
  -- The run returns, with these lines read and left.
  abbrev pub Ran : List Bytes → List Bytes → Outcome Pipes → Type 0
  Ran consumed rest m =
      (t : Pipes) × (m ≡ done t) × Follows (interface i) consumed rest before (t.pc i) t

  abbrev Led : List Bytes → List Bytes → Pc → Outcome Pipes → Type 0
  Led = Leads (interface i) (popened i) i before

  run-nil :
      (pc : Pc) (s : Pipes) (consumed rest : List Bytes)
      → s.pc i ≡ pc
      → Follows (interface i) consumed rest before pc s
      → Ran consumed rest (run_schedule interface popened [] s)
  unfolding run_schedule
  run-nil pc s consumed rest e h =
      (s, refl, subst (λ c. Follows (interface i) consumed rest before c s) (sym e) h)

  -- The first move, and then the others.
  run-cons :
      (a : Action) (m : Move) (moves : List Move) (s t : Pipes) (consumed rest : List Bytes)
      → m.thread ≡ i
      → m.action ≡ a
      → act interface popened i a s ≡ done t
      → Ran consumed rest (run_schedule interface popened moves t)
      → Ran consumed rest (run_schedule interface popened (m ∷ moves) s)
  unfolding run_schedule
  run-cons a m moves s t consumed rest same does acts (u, runs, follows) =
      (u, rw (same, does, acts) runs, follows)

  act-advance :
      (pc : Pc) (s : Pipes) (r : Outcome Pipes)
      → s.pc i ≡ pc
      → advance_thread (interface i) (popened i) i pc s ≡ r
      → act interface popened i advance s ≡ r
  unfolding act
  act-advance pc s r e steps = rw e steps

  act-cancel :
      (pc : Pc) (s : Pipes)
      → s.pc i ≡ pc
      → act interface popened i cancel s ≡ done (goto i (cancelled pc) s)
  unfolding act
  act-cancel pc s e = rw e refl

  -- A thread that reads no more.
  run-past :
      (moves : List Move) (pc : Pc) (s : Pipes) (consumed rest : List Bytes)
      → All (λ m. m.thread ≡ i) moves
      → ReadsNoMore pc
      → s.pc i ≡ pc
      → Follows (interface i) consumed rest before pc s
      → Ran consumed rest (run_schedule interface popened moves s)
  run-past [] pc s consumed rest only past e h = run-nil pc s consumed rest e h
  run-past (m ∷ moves) pc s consumed rest (same, only) past e h = elim (Action-cases m.action) [
    | inl does ↦
        let (next, further, (t, steps, at, follows)) =
          advance-Leads (interface i) (popened i) i before pc s consumed rest past e h in
        run-cons advance m moves s t consumed rest same does (act-advance pc s (done t) e steps)
          (run-past moves next t consumed rest only further at follows)
    | inr does ↦
        let (further, (t, steps, at, follows)) =
          cancel-Leads (interface i) (popened i) i before pc s consumed rest h in
        run-cons cancel m moves s t consumed rest same does (act-cancel pc s e ∙ steps)
          (run-past moves (cancelled pc) t consumed rest only further at follows)
  ]

  -- A cancel ends the reading.
  run-cancel :
      (m : Move) (moves : List Move) (pc : Pc) (s : Pipes) (consumed rest : List Bytes)
      → m.thread ≡ i
      → All (λ m. m.thread ≡ i) moves
      → m.action ≡ cancel
      → s.pc i ≡ pc
      → Follows (interface i) consumed rest before pc s
      → Ran consumed rest (run_schedule interface popened (m ∷ moves) s)
  run-cancel m moves pc s consumed rest same only does e h =
      let (further, (t, steps, at, follows)) =
        cancel-Leads (interface i) (popened i) i before pc s consumed rest h in
      run-cons cancel m moves s t consumed rest same does (act-cancel pc s e ∙ steps)
        (run-past moves (cancelled pc) t consumed rest only further at follows)

  Ran-parts :
      (c c' r r' : List Bytes) (m : Outcome Pipes) → c ≡ c' → r ≡ r' → Ran c r m → Ran c' r' m
  Ran-parts c c' r r' m ec er ran = subst (λ x. Ran x r' m) ec (subst (λ x. Ran c x m) er ran)

  -- A thread in its loop.
  run-reading :
      (moves : List Move) (rest : List Bytes) (n : ℤ) (s : Pipes) (consumed : List Bytes)
      → All (λ m. m.thread ≡ i) moves
      → s.pc i ≡ reading n
      → Follows (interface i) consumed rest before (reading n) s
      → Ran
          (consumed ++ take (advances moves) rest)
          (drop (advances moves) rest)
          (run_schedule interface popened moves s)
  unfolding advances
  run-reading [] rest n s consumed only e h =
      Ran-parts consumed (consumed ++ []) rest rest _ (sym (append-nil consumed)) refl
        (run-nil (reading n) s consumed rest e h)
  run-reading (m ∷ moves) rest n s consumed (same, only) e h = elim (Action-cases m.action) [
    | inr does ↦
        subst
          (λ k.
            Ran (consumed ++ take k rest) (drop k rest)
              (run_schedule interface popened (m ∷ moves) s))
          (sym (ap (λ a. counted a (advances moves)) does))
          (Ran-parts consumed (consumed ++ []) rest rest _ (sym (append-nil consumed)) refl
            (run-cancel m moves (reading n) s consumed rest same only does e h))
    | inl does ↦
        subst
          (λ k.
            Ran (consumed ++ take k rest) (drop k rest)
              (run_schedule interface popened (m ∷ moves) s))
          (sym (ap (λ a. counted a (advances moves)) does))
          (elim (List-cases rest) [
            | inl empty ↦
                let (t, steps, at, follows) =
                  last-Leads (interface i) (popened i) i before n s consumed
                    (subst (λ r. Follows (interface i) consumed r before (reading n) s) empty h) in
                Ran-parts consumed _ [] _ _
                  (sym (append-nil consumed)
                    ∙ ap (λ r. consumed ++ take (suc (advances moves)) r) (sym empty))
                  (ap (drop (suc (advances moves))) (sym empty))
                  (run-cons advance m moves s t consumed [] same does
                    (act-advance (reading n) s (done t) e steps)
                    (run-past moves (leaving false) t consumed [] only tt at follows))
            | inr (line, others, more) ↦
                let (t, steps, at, follows) =
                  line-Leads (interface i) (popened i) i before line n s consumed others
                    (subst (λ r. Follows (interface i) consumed r before (reading n) s) more h) in
                let next = consumed ++ line ∷ [] in
                Ran-parts (next ++ take (advances moves) others) _ (drop (advances moves) others) _
                  _
                  (append_assoc consumed (line ∷ []) (take (advances moves) others)
                    ∙ ap (λ r. consumed ++ take (suc (advances moves)) r) (sym more))
                  (ap (drop (suc (advances moves))) (sym more))
                  (run-cons advance m moves s t _ _ same does
                    (act-advance (reading n) s (done t) e steps)
                    (run-reading moves others (handle_line (interface i) line n).0 t next only at
                      follows))
          ])
  ]

  -- A thread at its start.
  run-opening :
      (moves : List Move) (s : Pipes)
      → All (λ m. m.thread ≡ i) moves
      → s.pc i ≡ opening
      → IsNullOrOpen s
      → s.events ≡ before
      → Ran
          (take (rounds moves) (lines_of (popened i)))
          (drop (rounds moves) (lines_of (popened i)))
          (run_schedule interface popened moves s)
  unfolding rounds advances main_loop
  run-opening [] s only e opened told =
      run-nil opening s [] (lines_of (popened i)) e
        (record { told = told ∙ sym (append-nil before); place = (refl, opened) })
  run-opening (m ∷ moves) s (same, only) e opened told = elim (Action-cases m.action) [
    | inr does ↦
        subst
          (λ k.
            Ran (take (behind_first k) (lines_of (popened i)))
              (drop (behind_first k) (lines_of (popened i)))
              (run_schedule interface popened (m ∷ moves) s))
          (sym (ap (λ a. counted a (advances moves)) does))
          (run-cancel m moves opening s [] (lines_of (popened i)) same only does e
            (record { told = told ∙ sym (append-nil before); place = (refl, opened) }))
    | inl does ↦
        subst
          (λ k.
            Ran (take (behind_first k) (lines_of (popened i)))
              (drop (behind_first k) (lines_of (popened i)))
              (run_schedule interface popened (m ∷ moves) s))
          (sym (ap (λ a. counted a (advances moves)) does))
          (elim (Option-cases (popened i)) [
            | inl fails ↦
                let (t, steps, at, follows) =
                  no_pipe-Leads (interface i) (popened i) i before s fails told in
                Ran-parts [] _ [] _ _
                  (sym (take-nil (advances moves))
                    ∙ ap (λ o. take (advances moves) (lines_of o)) (sym fails))
                  (sym (drop-nil (advances moves))
                    ∙ ap (λ o. drop (advances moves) (lines_of o)) (sym fails))
                  (run-cons advance m moves s t [] [] same does
                    (act-advance opening s (done t) e steps)
                    (run-past moves (leaving false) t [] [] only tt at follows))
            | inr (lines, gives) ↦
                let (t, steps, at, follows) =
                  open-Leads (interface i) (popened i) i before lines s gives told in
                Ran-parts (take (advances moves) lines) _ (drop (advances moves) lines) _ _
                  (ap (λ o. take (advances moves) (lines_of o)) (sym gives))
                  (ap (λ o. drop (advances moves) (lines_of o)) (sym gives))
                  (run-cons advance m moves s t _ _ same does
                    (act-advance opening s (done t) e steps)
                    (run-reading moves lines (pos 0) t [] only at follows))
          ])
  ]

-- From a state in which the pointer of the pipe is NULL or names an open pipe, a schedule of the
-- moves and cancels of one event thread, which is at its start, never goes wrong: no read or close
-- of a pipe that is closed or not there. Its first move opens the pipe, and each further move before
-- the first cancel reads one line, as long as there are lines: the events that the thread has pushed
-- are those of the sequential loop over exactly these lines. While it reads, the pointer names an
-- open pipe that holds exactly the other lines, and its count is that of the loop. Behind its whole
-- cleanup the pointer is NULL, and outside the two statements that close the pipe it is NULL or
-- names an open pipe.
pub run_schedule_alone_lem :
    (interface : ℕ → Bytes) (popened : ℕ → Option (List Bytes)) (i : ℕ) (moves : List Move)
    (s : Pipes)
    → s.pc i ≡ opening
    → IsNullOrOpen s
    → All (λ m. m.thread ≡ i) moves
    → (t : Pipes) × (run_schedule interface popened moves s ≡ done t)
      × (t.events
          ≡ s.events
            ++ (main_loop (interface i) (take (rounds moves) (lines_of (popened i))) (pos 0)).1)
      × IsAt
          (interface i)
          (take (rounds moves) (lines_of (popened i)))
          (drop (rounds moves) (lines_of (popened i)))
          (t.pc i)
          t
run_schedule_alone_lem interface popened i moves s fresh opened only =
    let (t, runs, h) = run-opening interface popened i s.events moves s only fresh opened refl in
    (t, runs, h.told, h.place)
