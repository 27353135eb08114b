-- ===== src/Ap/Events/Alone.antt =====
-- One event thread at a time: no schedule goes wrong, and the events are those of the sequential
-- loop.
use mathlib.Core.List.{append_assoc, append-nil}
use wifiap_binding.Base.{
  ℕ, ◌+◌, ◌≡◌, ◌⊎◌, inl, inr, refl, sym, ap, ◌∙◌, ◌++◌, true, false, Option, none, some, List, [],
  ◌∷◌, done, arith, Outcome,
}
use wifiap_binding.Base.Int.{ℤ, pos}
use wifiap_binding.Base.Bytes.{Bytes}
use wifiap_binding.Ap.Clients.{ClientEvent, handle_line, push, main_loop}
use wifiap_binding.Ap.Events.{
  Pc, opening, reading, leaving, closing, clearing, ended, aborted, Pipes, assign, goto, open_pipe,
  stream, next_line, advance_thread, cancelled,
}

-- The pointer is NULL or names an open pipe.
abbrev pub IsNullOrOpen : Pipes → Type 0
IsNullOrOpen s =
    (s.iw_thread_pipe_ptr ≡ none)
    ⊎ ((p : ℕ) × (lines : List Bytes) × (s.iw_thread_pipe_ptr ≡ some p)
        × (s.streams p ≡ some lines))

abbrev pub lines_of : Option (List Bytes) → List Bytes
lines_of none = []
lines_of (some lines) = lines

-- The pipe of a thread with what is left to read of it, by where the thread is.
abbrev pub IsAt : Bytes → List Bytes → List Bytes → Pc → Pipes → Type 0
IsAt interface consumed rest opening s = (consumed ≡ []) × IsNullOrOpen s
IsAt interface consumed rest (reading n) s =
    (p : ℕ) × (s.iw_thread_pipe_ptr ≡ some p)
    × (s.streams p ≡ some rest)
    × (n ≡ (main_loop interface consumed (pos 0)).0)
IsAt interface consumed rest (leaving c) s = IsNullOrOpen s
IsAt interface consumed rest (closing c) s =
    (p : ℕ) × (lines : List Bytes) × (s.iw_thread_pipe_ptr ≡ some p) × (s.streams p ≡ some lines)
IsAt interface consumed rest clearing s = Unit
IsAt interface consumed rest ended s = s.iw_thread_pipe_ptr ≡ none
IsAt interface consumed rest aborted s = IsNullOrOpen s

-- What is known of a thread at `pc` that has read the lines `consumed`, before the lines `rest`.
pub record Follows (interface : Bytes) (consumed rest : List Bytes) (before : List ClientEvent)
    (pc : Pc) (s : Pipes) : Type 0 where
  pub told : s.events ≡ before ++ (main_loop interface consumed (pos 0)).1
  pub place : IsAt interface consumed rest pc s

push-append :
    (e : Option ClientEvent) (xs ys : List ClientEvent) → push e (xs ++ ys) ≡ push e xs ++ ys
push-append none xs ys = refl
push-append (some e) xs ys = refl

-- The loop on one line more.
main_loop_snoc :
    (interface line : Bytes) (lines : List Bytes) (n : ℤ)
    → ((main_loop interface (lines ++ line ∷ []) n).0
        ≡ (handle_line interface line (main_loop interface lines n).0).0)
      × ((main_loop interface (lines ++ line ∷ []) n).1
          ≡ (main_loop interface lines n).1
            ++ push (handle_line interface line (main_loop interface lines n).0).1 [])
unfolding main_loop
main_loop_snoc interface line [] n = (refl, refl)
main_loop_snoc interface line (first ∷ lines) n =
    let (n1, event) = handle_line interface first n in
    let (count, events) = main_loop_snoc interface line lines n1 in
    (
      count,
      ap (push event) events
          ∙ push-append event (main_loop interface lines n1).1
              (push (handle_line interface line (main_loop interface lines n1).0).1 []),
    )

pub assign-same {ℓ} : {A : Type ℓ} (i : ℕ) (x : A) (f : ℕ → A) → assign i x f i ≡ x
unfolding assign
assign-same i x f = ground arith

pub stream_lem :
    (s : Pipes) (p : ℕ) (lines : List Bytes)
    → s.iw_thread_pipe_ptr ≡ some p
    → s.streams p ≡ some lines
    → stream s.iw_thread_pipe_ptr s ≡ done (p, lines)
unfolding stream
stream_lem s p lines ptr opened = rw ptr (rw opened refl)

pub still_open :
    (s : Pipes) (p : ℕ) (lines : List Bytes)
    → s.iw_thread_pipe_ptr ≡ some p
    → s.streams p ≡ some lines
    → IsNullOrOpen s
still_open s p lines ptr opened = inr (p, lines, ptr, opened)

-- Behind its loop, or aborted: the thread reads no more.
abbrev pub ReadsNoMore : Pc → Type 0
ReadsNoMore opening = ⊥
ReadsNoMore (reading n) = ⊥
ReadsNoMore _ = Unit

module _ (interface : Bytes) (popened : Option (List Bytes)) (i : ℕ)
    (before : List ClientEvent) where
  -- The step leads to the place `pc`, with these lines read and left.
  abbrev pub Leads : List Bytes → List Bytes → Pc → Outcome Pipes → Type 0
  Leads consumed rest pc m =
      (t : Pipes) × (m ≡ done t) × (t.pc i ≡ pc) × Follows interface consumed rest before pc t

  leads :
      (pc : Pc) (s : Pipes) (consumed rest : List Bytes)
      → s.events ≡ before ++ (main_loop interface consumed (pos 0)).1
      → IsAt interface consumed rest pc (goto i pc s)
      → Leads consumed rest pc (done (goto i pc s))
  unfolding goto
  leads pc s consumed rest told place =
      (goto i pc s, refl, assign-same i pc s.pc, record { told = told; place = place })

  pub open-Leads :
      (lines : List Bytes) (s : Pipes)
      → popened ≡ some lines
      → s.events ≡ before
      → Leads [] lines (reading (pos 0)) (advance_thread interface popened i opening s)
  unfolding advance_thread open_pipe goto main_loop
  open-Leads lines s gives told = rw gives (
      leads (reading (pos 0))
        (record s {
          iw_thread_pipe_ptr = some s.next;
          streams = assign s.next (some lines) s.streams;
          next = s.next + 1;
        })
        [] lines (told ∙ sym (append-nil before))
        (s.next, refl, assign-same s.next (some lines) s.streams, refl))

  pub no_pipe-Leads :
      (s : Pipes)
      → popened ≡ none
      → s.events ≡ before
      → Leads [] [] (leaving false) (advance_thread interface popened i opening s)
  unfolding advance_thread open_pipe goto main_loop
  no_pipe-Leads s fails told = rw fails (
      leads (leaving false) (record s { iw_thread_pipe_ptr = none }) [] []
        (told ∙ sym (append-nil before)) (inl refl))

  pub line-Leads :
      (line : Bytes) (n : ℤ) (s : Pipes) (consumed rest : List Bytes)
      → Follows interface consumed (line ∷ rest) before (reading n) s
      → Leads
          (consumed ++ line ∷ [])
          rest
          (reading (handle_line interface line n).0)
          (advance_thread interface popened i (reading n) s)
  unfolding advance_thread next_line goto
  line-Leads line n s consumed rest h =
      let (p, ptr, opened, count) = h.place in
      let (counts, events) = main_loop_snoc interface line consumed (pos 0) in
      rw (stream_lem s p (line ∷ rest) ptr opened) (
        leads (reading (handle_line interface line n).0)
          (record s {
            streams = assign p (some rest) s.streams;
            events = s.events ++ push (handle_line interface line n).1 [];
          })
          (consumed ++ line ∷ []) rest (rw (h.told, count, events) (append_assoc before _ _))
          (p, ptr, assign-same p (some rest) s.streams, rw (count, counts) refl))

  pub last-Leads :
      (n : ℤ) (s : Pipes) (consumed : List Bytes)
      → Follows interface consumed [] before (reading n) s
      → Leads consumed [] (leaving false) (advance_thread interface popened i (reading n) s)
  unfolding advance_thread next_line goto
  last-Leads n s consumed h =
      let (p, ptr, opened, count) = h.place in
      rw (stream_lem s p [] ptr opened)
        (leads (leaving false) s consumed [] h.told (still_open s p [] ptr opened))

  -- Behind the loop a step of the thread returns, reads nothing and tells nothing.
  pub advance-Leads :
      (pc : Pc) (s : Pipes) (consumed rest : List Bytes)
      → ReadsNoMore pc
      → s.pc i ≡ pc
      → Follows interface consumed rest before pc s
      → (next : Pc) × ReadsNoMore next
        × Leads consumed rest next (advance_thread interface popened i pc s)
  unfolding advance_thread goto
  advance-Leads opening s consumed rest past e h = absurd past
  advance-Leads (reading n) s consumed rest past e h = absurd past
  advance-Leads (leaving c) s consumed rest past e h = elim h.place [
    | inl null ↦
        let (t, runs, at, follows) = leads ended s consumed rest h.told null in
        let steps : advance_thread interface popened i (leaving c) s ≡ done (goto i ended s) =
          rw null refl in
        (ended, tt, (t, steps ∙ runs, at, follows))
    | inr (p, lines, ptr, opened) ↦
        let (t, runs, at, follows) =
          leads (closing c) s consumed rest h.told (p, lines, ptr, opened) in
        let steps : advance_thread interface popened i (leaving c) s ≡ done (goto i (closing c) s) =
          rw ptr refl in
        (closing c, tt, (t, steps ∙ runs, at, follows))
  ]
  advance-Leads (closing c) s consumed rest past e h =
      let (p, lines, ptr, opened) = h.place in
      let s1 : Pipes = record s { streams = assign p none s.streams } in
      (
        clearing,
        tt,
        rw (stream_lem s p lines ptr opened) (leads clearing s1 consumed rest h.told tt),
      )
  advance-Leads clearing s consumed rest past e h =
      (ended, tt, leads ended (record s { iw_thread_pipe_ptr = none }) consumed rest h.told refl)
  advance-Leads ended s consumed rest past e h = (ended, tt, (s, refl, e, h))
  advance-Leads aborted s consumed rest past e h = (aborted, tt, (s, refl, e, h))

  -- A cancel sends it into its cleanup, or out of it.
  pub cancel-Leads :
      (pc : Pc) (s : Pipes) (consumed rest : List Bytes)
      → Follows interface consumed rest before pc s
      → ReadsNoMore (cancelled pc)
        × Leads consumed rest (cancelled pc) (done (goto i (cancelled pc) s))
  unfolding cancelled goto
  cancel-Leads pc s consumed rest h =
      (no_more pc, leads (cancelled pc) s consumed rest h.told (place pc h.place))
    where
      no_more : (c : Pc) → ReadsNoMore (cancelled c)
      no_more opening = tt
      no_more (reading n) = tt
      no_more (leaving true) = tt
      no_more (leaving false) = tt
      no_more (closing true) = tt
      no_more (closing false) = tt
      no_more clearing = tt
      no_more ended = tt
      no_more aborted = tt

      place :
          (c : Pc)
          → IsAt interface consumed rest c s
          → IsAt interface consumed rest (cancelled c) (goto i (cancelled pc) s)
      place opening h = h.1
      place (reading n) (p, ptr, opened, count) = still_open s p rest ptr opened
      place (leaving true) h = h
      place (leaving false) h = h
      place (closing true) h = h
      place (closing false) (p, lines, ptr, opened) = still_open s p lines ptr opened
      place clearing h = h
      place ended h = h
      place aborted h = h
