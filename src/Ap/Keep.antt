-- ===== src/Ap/Keep.antt =====
-- A property of the world that logged commands and the status do not matter for, through the steps of
-- `startAp`, `start`, `stop` and `restart` of src/wifiAp.c.
pub mod Starting
pub mod Stopping
use wifiap_binding.Base.{
  ℕ, ◌≡◌, refl, Bool, true, false, Outcome, done, ◌>>=◌, ◌==◌, if◌then◌else◌, IfDone, IfDone-done,
  IfDone-bind, IfDone-after,
}
use wifiap_binding.Base.Bytes.{Bytes}
use wifiap_binding.System.{History}
use wifiap_binding.Data.Types.{ApStatus, status_fail}
use wifiap_binding.Threads.Links.{CdsList}
use wifiap_binding.Ap.{World, set_status, fail, and_then}

-- The property is kept by what is logged and by a change of the status.
pub record IsSettled (L : CdsList) (Q : World L → Type 0) : Type 0 where
  pub logs : (w : World L) (h : History) → Q w → Q (record w { history = h })
  pub marks : (w : World L) (st : ApStatus) → Q w → Q (set_status L st w)

module _ (L : CdsList) (Q : World L → Type 0) (settled : IsSettled L Q) where
  -- The property holds of the world that a call returns.
  abbrev pub Keeps {ℓ} : {A : Type ℓ} → Outcome (A × World L) → Type ℓ
  Keeps = IfDone (λ r. Q r.1)

  pub done-Keeps {ℓ} : {A : Type ℓ} (a : A) (w : World L) → Q w → Keeps (done (a, w))
  done-Keeps a w h = IfDone-done (λ r. Q r.1) (a, w) h

  pub fail-Keeps : (code : ℕ) (w : World L) → Q w → Keeps (fail L code w)
  unfolding fail
  fail-Keeps code w h = done-Keeps code _ (settled.marks w status_fail h)

  pub if-Keeps {ℓ} :
      {A : Type ℓ} (b : Bool) (m k : Outcome (A × World L))
      → Keeps m
      → Keeps k
      → Keeps (if b then m else k)
  if-Keeps true m k p q = p
  if-Keeps false m k p q = q

  pub and_then-Keeps :
      (m : Outcome (ℕ × World L)) (k : World L → Outcome (ℕ × World L))
      → Keeps m
      → ((w : World L) → Q w → Keeps (k w))
      → Keeps (and_then L m k)
  unfolding and_then
  and_then-Keeps m k p q =
      IfDone-bind (λ r. Q r.1) (λ r. Q r.1) m _ p
        λ r h. if-Keeps (r.0 == 0) (k r.1) (done r) (q r.1 h) (done-Keeps r.0 r.1 h)

  pub after {ℓ κ} :
      {A : Type ℓ} {B : Type κ} (m : Outcome A) (k : A → Outcome (B × World L))
      → ((a : A) → Keeps (k a))
      → Keeps (m >>= k)
  after m k h = IfDone-after (λ r. Q r.1) m k h
