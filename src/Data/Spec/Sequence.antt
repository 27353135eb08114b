-- ===== src/Data/Spec/Sequence.antt =====
-- Calls of setters one after the other do what the documentation says of the changes.
use mathlib.Core.Path.{subst}
use wifiap_binding.Base.{
  ◌%◌, ◌≡◌, refl, sym, inl, inr, Option, some, List, [], ◌∷◌, All, Outcome, done, ◌>>=◌,
}
use wifiap_binding.Base.Bytes.{Bytes}
use wifiap_binding.Utf8.Ascii.{IsAscii-IsCString}
use wifiap_binding.Data.Types.{WifiApT, Status}
use wifiap_binding.Data.Calls.Defs.{perform, IsCall}
use wifiap_binding.Data.Calls.Invariant.{IsWellFormed, Returns, perform-Keeps}
use wifiap_binding.Data.Standards.{IsHardwareMode}
use wifiap_binding.Data.Spec.{Settings, view, Change, call, IsPlain, IsAccepted, changed, Meets}
use wifiap_binding.Data.Spec.Refine.{perform-Refines}
use wifiap_binding.Data.Spec.Texts.{Works}

-- The calls in order, with their statuses.
unfoldable pub performs :
    (Bytes → Option Bytes) → List Change → WifiApT → Outcome (List Status × WifiApT)
performs strdup [] w = done ([], w)
performs strdup (c ∷ cs) w =
    perform strdup (call c) w >>= λ r. performs strdup cs r.1 >>= λ q. done (r.0 ∷ q.0, q.1)

-- The statuses, and the settings at the end, are those of the documented changes in order.
abbrev pub MeetAll : List Change → Settings → List Status → Settings → Type 0
MeetAll [] a [] b = b ≡ a
MeetAll [] a (s ∷ ss) b = ⊥
MeetAll (c ∷ cs) a [] b = ⊥
MeetAll (c ∷ cs) a (s ∷ ss) b = (m : Settings) × Meets c a s m × MeetAll cs m ss b

call-IsCall : (c : Change) → IsPlain c → IsCall (call c)
call-IsCall (Change.host_name s) h = IsAscii-IsCString s h
call-IsCall (Change.domain_name s) h = IsAscii-IsCString s h
call-IsCall (Change.interface_name s) h = IsAscii-IsCString s h
call-IsCall (Change.ssid s) h = IsAscii-IsCString s h
call-IsCall (Change.pass_phrase s) h = IsAscii-IsCString s h
call-IsCall (Change.pre_shared_key s) h = IsAscii-IsCString s h
call-IsCall (Change.security_protocol s) h = IsAscii-IsCString s h
call-IsCall (Change.country_code s) h = IsAscii-IsCString s h
call-IsCall (Change.ip_ap s) h = IsAscii-IsCString s h
call-IsCall (Change.ip_start s) h = IsAscii-IsCString s h
call-IsCall (Change.ip_stop s) h = IsAscii-IsCString s h
call-IsCall (Change.ip_net_mask s) h = IsAscii-IsCString s h
call-IsCall (Change.ip_range a b c d) (pa, pb, pc, pd) =
    (IsAscii-IsCString a pa, IsAscii-IsCString b pb, IsAscii-IsCString c pc, IsAscii-IsCString d pd)
call-IsCall (Change.channel n) h = h
call-IsCall (Change.ieee_standard m) h = h
call-IsCall (Change.max_clients n) h = h
call-IsCall (Change.discoverable b) h = h

abbrev HasMode : Settings → Type 0
HasMode a = IsHardwareMode (a.ieee_std_mask % 16)

changed-HasMode : (c : Change) (a : Settings) → IsAccepted c a → HasMode a → HasMode (changed c a)
unfolding changed
changed-HasMode (Change.host_name s) a p h = h
changed-HasMode (Change.domain_name s) a p h = h
changed-HasMode (Change.interface_name s) a p h = h
changed-HasMode (Change.ssid s) a p h = h
changed-HasMode (Change.pass_phrase s) a p h = h
changed-HasMode (Change.pre_shared_key s) a p h = h
changed-HasMode (Change.security_protocol s) a p h = h
changed-HasMode (Change.country_code s) a p h = h
changed-HasMode (Change.ip_ap s) a p h = h
changed-HasMode (Change.ip_start s) a p h = h
changed-HasMode (Change.ip_stop s) a p h = h
changed-HasMode (Change.ip_net_mask s) a p h = h
changed-HasMode (Change.ip_range q r s t) a p h = h
changed-HasMode (Change.channel n) a p h = h
changed-HasMode (Change.ieee_standard m) a p h = p.0
changed-HasMode (Change.max_clients n) a p h = h
changed-HasMode (Change.discoverable b) a p h = h

Meets-HasMode :
    (c : Change) (a b : Settings) (sts : Status) → Meets c a sts b → HasMode a → HasMode b
Meets-HasMode c a b sts (inl (p, _, e)) h = subst HasMode (sym e) (changed-HasMode c a p h)
Meets-HasMode c a b sts (inr (_, _, e)) h = subst HasMode (sym e) h

-- From well-formed settings with one hardware mode, when `strdup` has memory, any sequence of calls
-- of setters with ASCII texts and 32-bit numbers returns, and leaves well-formed settings. The statuses and what
-- the structure then stands for are those of the documented changes, made one after the other, each
-- if it is allowed at its turn.
pub performs-MeetAll :
    (strdup : Bytes → Option Bytes) (cs : List Change) (w : WifiApT)
    → Works strdup
    → All IsPlain cs
    → IsWellFormed w
    → IsHardwareMode (w.ieee_std_mask % 16)
    → (r : List Status × WifiApT) × (performs strdup cs w ≡ done r)
      × MeetAll cs (view w) r.0 (view r.1)
      × IsWellFormed r.1
unfolding performs
performs-MeetAll strdup [] w works plain h mode = (([], w), refl, refl, h)
performs-MeetAll strdup (c ∷ cs) w works (p, plain) h mode =
    let (r, runs, meets) = perform-Refines strdup c w works p h mode in
    let kept : IsWellFormed r.1 =
      subst (Returns (λ r. IsWellFormed r.1)) runs
        (perform-Keeps strdup (call c) w (λ s t e. copy s t e) (call-IsCall c p) h) in
    let (q, rest, all, end) =
      performs-MeetAll strdup cs r.1 works plain kept
        (Meets-HasMode c (view w) (view r.1) r.0 meets mode) in
    ((r.0 ∷ q.0, q.1), rw runs (rw rest refl), (view r.1, meets, all), end)
  where
    copy : (s t : Bytes) → strdup s ≡ some t → t ≡ s
    copy s t e = let known = works s in cc
