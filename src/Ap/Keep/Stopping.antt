-- ===== src/Ap/Keep/Stopping.antt =====
-- A property of the world through the verbs `stop` and `restart` of src/wifiAp.c.
use wifiap_binding.Base.{
  ℕ, Option, none, some, List, [], ◌∷◌, Outcome, done, ◌==◌, Bool-cases, inl, inr, IfDone,
  IfDone-done, IfDone-bind, IfDone-after,
}
use wifiap_binding.Base.Bytes.{Bytes}
use wifiap_binding.System.{Env, succeeded}
use wifiap_binding.Threads.Links.{CdsList}
use wifiap_binding.Replies.{Reply}
use wifiap_binding.Ap.{World, run, set_status, text_of, command_line}
use wifiap_binding.Ap.Start.{LaunchAnswers, was_configured, start_event_thread}
use wifiap_binding.Ap.Stop.{
  StopAnswers, thread_destructor_funcs, terminate_thread, run_or_reply, unless_replied, stop,
  restart,
}
use wifiap_binding.Ap.Keep.{IsSettled, Keeps, and_then-Keeps}
use wifiap_binding.Ap.Keep.Starting.{run_or_fail-Keeps, start_ap-Keeps}

module _ (L : CdsList) (Q : World L → Type 0) (settled : IsSettled L Q) (env : Env) where
  open settled use {logs, marks}

  pub destructors-keep :
      (contexts : List Bytes) (w : World L) → Q w → Q (thread_destructor_funcs L env contexts w)
  unfolding thread_destructor_funcs run
  destructors-keep [] w h = h
  destructors-keep (context ∷ rest) w h = destructors-keep rest _ (logs w _ h)

  run_or_reply-Keeps :
      (command : Bytes) (base : ℕ) (w : World L)
      → Q w
      → IfDone (λ r. Q r.1) (run_or_reply L env command base w)
  unfolding run_or_reply run set_status
  run_or_reply-Keeps command base w h =
      IfDone-after (λ r. Q r.1) (text_of w.settings.interface_name) _
        λ interface.
          elim (Bool-cases
            (succeeded (env.system w.history (command_line env command interface)))) [
              | inl well ↦ rw well (IfDone-done (λ r. Q r.1) _ (logs w _ h))
              | inr failed ↦ rw failed (IfDone-done (λ r. Q r.1) _ (marks _ _ (logs w _ h)))
            ]

  unless_replied-Keeps :
      (m : Outcome (Option Reply × World L)) (k : World L → Outcome (Reply × World L))
      → IfDone (λ r. Q r.1) m
      → ((w : World L) → Q w → IfDone (λ r. Q r.1) (k w))
      → IfDone (λ r. Q r.1) (unless_replied L m k)
  unfolding unless_replied
  unless_replied-Keeps m k p q =
      IfDone-bind (λ r. Q r.1) (λ r. Q r.1) m _ p λ r h. replied r.0 r.1 h
    where
      replied :
          (o : Option Reply) (w : World L)
          → Q w
          → IfDone (λ r. Q r.1) (elim o [ none ↦ k w | some reply ↦ done (reply, w) ])
      replied none w h = q w h
      replied (some reply) w h = IfDone-done (λ r. Q r.1) (reply, w) h

  pub stop-Keeps :
      (answers : StopAnswers)
      → ((w : World L) → Q w → Keeps L Q settled (terminate_thread L env answers w))
      → (w : World L) → Q w
      → IfDone (λ r. Q r.1) (stop L env answers w)
  unfolding stop set_status
  stop-Keeps answers terminated w h = unless_replied-Keeps _ _ (run_or_reply-Keeps _ 0 w h) λ w1 h1.
      unless_replied-Keeps _ _ (run_or_reply-Keeps _ 1000 w1 h1) λ w2 h2.
        IfDone-bind (λ r. Q r.1) (λ r. Q r.1) _ _ (terminated w2 h2)
          λ r p. elim (Bool-cases (r.0 == 0)) [
            | inl well ↦ rw well (IfDone-done (λ r. Q r.1) _ (marks r.1 _ p))
            | inr failed ↦ rw failed (IfDone-done (λ r. Q r.1) _ (marks r.1 _ p))
          ]

  pub restart-Keeps :
      (answers : LaunchAnswers)
      → ((w : World L) → Q w → Keeps L Q settled (start_event_thread L env answers w))
      → (w : World L) → Q w
      → IfDone Q (restart L env answers w)
  unfolding restart
  restart-Keeps answers launched w h = elim (Bool-cases (was_configured L env w)) [
    | inl present ↦ rw present (
        IfDone-bind (λ r. Q r.1) Q _ _
          (and_then-Keeps L Q settled _ _ (run_or_fail-Keeps L Q settled env _ 1 w h)
            λ w1 h1. start_ap-Keeps L Q settled env answers launched w1 h1)
          λ r p. IfDone-done Q r.1 p)
    | inr absent ↦ rw absent (IfDone-done Q w h)
  ]
