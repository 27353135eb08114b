-- ===== src/Ap/Verbs.antt =====
-- The verb `start` of src/wifiAp.c as its caller sees it.
use mathlib.Core.Bool.{false≢true}
use wifiap_binding.Base.{
  ℕ, ◌≡◌, ◌≢◌, ◌⊎◌, refl, inl, inr, true, false, done, ◌==◌, arith, Bool-cases, ap, ◌∙◌, sym,
}
use wifiap_binding.Replies.{Reply, success, user_error_string}
use wifiap_binding.System.{Env}
use wifiap_binding.Data.Types.{
  WifiApT, ApStatus, status_init, status_started, status_stopped, status_fail,
}
use wifiap_binding.Threads.Links.{CdsList, IsLawful}
use wifiap_binding.Ap.{World}
use wifiap_binding.Ap.Start.{LaunchAnswers, error_text, is_started, start_ap, start}
use wifiap_binding.Ap.Service.{IsReady}
use wifiap_binding.Ap.Launch.{CanLaunch}
use wifiap_binding.Ap.Status.{start_ap_lem}

is_started_sound : (status : ApStatus) → is_started status ≡ true → status ≡ status_started
unfolding is_started
is_started_sound status_init h = absurd (ground arith)
is_started_sound status_started h = refl
is_started_sound status_stopped h = absurd (ground arith)
is_started_sound status_fail h = absurd (ground arith)

is_started-started : is_started status_started ≡ true
unfolding is_started
is_started-started = refl

module _ (L : CdsList) where
  -- The reply and the status tell the same.
  abbrev pub Agrees : Reply → World L → Type 0
  Agrees success w = w.settings.status ≡ status_started
  Agrees (user_error_string n text) w =
      (n ≢ 0) × (w.settings.status ≡ status_fail) × (text ≡ error_text n)
  Agrees _ w = ⊥

  -- What the verb replies for a result of `startAp`: success for 0, else the code and its text.
  abbrev pub IsReplyTo : Reply → ℕ → Type 0
  IsReplyTo reply code =
      (code ≡ 0) × (reply ≡ success)
      ⊎ (code ≢ 0) × (reply ≡ user_error_string code (error_text code))

  -- Under the conditions of `start_ap_lem`, the verb `start` sends a reply: success with the status
  -- "started", or an error with the status "failure". A started access point is left alone, and the
  -- reply is success. Otherwise `startAp` returns, the state afterwards is the one it has left, and
  -- the reply is success if its code is 0, else that very code with the text of that code.
  pub start_lem :
      (law : IsLawful L) (env : Env) (answers : LaunchAnswers) (w : World L)
      → IsReady env w.settings
      → CanLaunch answers
      → w.threads.locked ≡ false
      → (reply : Reply) × (w' : World L) × (start L env answers w ≡ done (reply, w'))
        × Agrees reply w'
        × ((w.settings.status ≡ status_started) × (reply ≡ success) × (w' ≡ w)
            ⊎ (w.settings.status ≢ status_started)
              × (code : ℕ) × (start_ap L env answers w ≡ done (code, w'))
              × IsReplyTo reply code)
  unfolding start
  start_lem law env answers w ready can free = elim (Bool-cases (is_started w.settings.status)) [
    | inl already ↦
        let started = is_started_sound w.settings.status already in
        (success, w, rw already refl, started, inl (started, refl, refl))
    | inr other ↦
        let (r, runs, reports) = start_ap_lem L law env answers w ready can free in
        let refuted : w.settings.status ≢ status_started =
          λ e. false≢true (sym other ∙ ap is_started e ∙ is_started-started) in
        elim reports [
          | inl (code, started) ↦ (
            success,
            r.1,
            rw other (rw runs (rw code refl)),
            ap {A = WifiApT} (λ s. s.status) started.settings,
            inr (refuted, r.0, runs, inl (code, refl)),
          )
          | inr (code, failed) ↦
              let bad : (r.0 == 0) ≡ false = ground arith in
              (
                user_error_string r.0 (error_text r.0),
                r.1,
                rw other (rw runs (rw bad refl)),
                (code, failed, refl),
                inr (refuted, r.0, runs, inr (code, refl)),
              )
        ]
  ]
