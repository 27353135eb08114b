-- ===== src/Ap/Ends.antt =====
-- A step of `startAp`: how it ends, and how the ends of two steps combine.
use wifiap_binding.Base.{
  ℕ, ◌≡◌, ◌≢◌, ◌⊎◌, inl, inr, refl, Bool, true, false, Outcome, done, ◌>>=◌, ◌==◌, if◌then◌else◌,
  arith,
}
use wifiap_binding.Data.Types.{WifiApT, status_fail}
use wifiap_binding.Threads.{Threads}
use wifiap_binding.Threads.Links.{CdsList}
use wifiap_binding.Ap.{World, set_status, fail, and_then}

module _ (L : CdsList) where
  -- The code is 0 and the world meets `I`, or it is an error and the status says so.
  abbrev pub Reports : (World L → Type 0) → ℕ × World L → Type 0
  Reports I r = ((r.0 ≡ 0) × I r.1) ⊎ ((r.0 ≢ 0) × (r.1.settings.status ≡ status_fail))

  -- The step returns, and reports.
  abbrev pub Ends : (World L → Type 0) → Outcome (ℕ × World L) → Type 0
  Ends I m = (r : ℕ × World L) × (m ≡ done r) × Reports I r

  pub Ends-fail :
      (I : World L → Type 0) (code : ℕ) (w : World L) → code ≢ 0 → Ends I (fail L code w)
  unfolding fail set_status
  Ends-fail I code w bad = ((code, set_status L status_fail w), refl, inr (bad, refl))

  pub Ends-done : (I : World L → Type 0) (w : World L) → I w → Ends I (done (0, w))
  Ends-done I w i = ((0, w), refl, inl (refl, i))

  pub Ends-and_then :
      (I J : World L → Type 0) (m : Outcome (ℕ × World L)) (k : World L → Outcome (ℕ × World L))
      → Ends I m
      → ((w : World L) → I w → Ends J (k w))
      → Ends J (and_then L m k)
  unfolding and_then
  Ends-and_then I J m k (r, runs, inl (zero_code, i)) h =
      let (r', runs', reports) = h r.1 i in (r', rw runs (rw zero_code runs'), reports)
  Ends-and_then I J m k (r, runs, inr (bad, failed)) h =
      let code : (r.0 == 0) ≡ false = ground arith in (r, rw runs (rw code refl), inr (bad, failed))

  pub Ends-if :
      (I : World L → Type 0) (b : Bool) (m k : Outcome (ℕ × World L))
      → Ends I m
      → Ends I k
      → Ends I (if b then m else k)
  Ends-if I true m k p q = p
  Ends-if I false m k p q = q

  -- A call that returns, before the rest of a step.
  pub Ends-bind {ℓ} :
      {A : Type ℓ} (I : World L → Type 0) (m : Outcome A) (k : A → Outcome (ℕ × World L))
      → (a : A) × (m ≡ done a)
      → ((a : A) → Ends I (k a))
      → Ends I (m >>= k)
  Ends-bind I m k (a, runs) h = let (r, ends, reports) = h a in (r, rw runs ends, reports)

  -- A step under another error code.
  pub Ends-recode :
      (I : World L → Type 0) (code : ℕ) (m : Outcome (ℕ × World L))
      → code ≢ 0
      → Ends I m
      → Ends I (m >>= λ r. if r.0 == 0 then done (0, r.1) else fail L code r.1)
  Ends-recode I code m bad (r, runs, inl (zero_code, i)) =
      ((0, r.1), rw runs (rw zero_code refl), inl (refl, i))
  Ends-recode I code m bad (r, runs, inr (error, failed)) =
      let other : (r.0 == 0) ≡ false = ground arith in
      let (r', fails, reports) = Ends-fail I code r.1 bad in (r', rw runs (rw other fails), reports)

  -- What no step before the last one changes when it succeeds: the settings and the threads.
  pub record IsSame (s : WifiApT) (t : Threads L) (w : World L) : Type 0 where
    pub settings : w.settings ≡ s
    pub threads : w.threads ≡ t
