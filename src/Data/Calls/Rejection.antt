-- ===== src/Data/Calls/Rejection.antt =====
-- A refused setting changes nothing; the channel setter may renew the channel bounds.
use mathlib.Core.Path.{subst}
use wifiap_binding.Base.{
  ℕ, ◌≡◌, ◌≢◌, refl, Option, none, some, [], ◌∷◌, length, arith, Outcome, done, fault, ◌>>=◌,
  Bool-cases, ltb, inl, inr, ◌||◌, ap,
}
use wifiap_binding.Base.Bytes.{Bytes, terminated}
use wifiap_binding.Utf8
use wifiap_binding.Utf8.{Copied}
use wifiap_binding.Data.Types.{WifiApT, Status, no_error}
use wifiap_binding.Data.Setters.{
  set_string_copy, set_buffer, set_host_name_parameter, set_domain_name_parameter,
  set_interface_name_parameter, set_ssid_parameter, set_pass_phrase_parameter,
  set_pre_shared_key_parameter, set_security_protocol_parameter, set_country_code_parameter,
  set_max_number_clients, set_discoverable_parameter, copy_ip_range, set_ip_range_parameters,
  set_ip_ap_parameter, set_ip_start_parameter, set_ip_stop_parameter, set_ip_net_mask_parameter,
  too_short, too_long,
}
use wifiap_binding.Data.Radio.{channel_bounds, set_channel_parameter, set_ieee_standard_parameter}
use wifiap_binding.Data.Calls.Defs.{Call, perform}

-- The structure with the channel bounds of another.
abbrev pub with_bounds_of : WifiApT → WifiApT → WifiApT
with_bounds_of v w = record w {
  min_channel_value = v.min_channel_value;
  max_channel_value = v.max_channel_value;
}

-- If the result reports an error, the structures before and after are related so.
abbrev RejectsAs : (WifiApT → WifiApT → Type 0) → WifiApT → Outcome (Status × WifiApT) → Type 0
RejectsAs K v (done (sts, w)) = sts ≢ no_error → K v w
RejectsAs K v (fault e) = Unit

abbrev IsSame : WifiApT → WifiApT → Type 0
IsSame v w = w ≡ v

abbrev IsSameButBounds : WifiApT → WifiApT → Type 0
IsSameButBounds v w = with_bounds_of v w ≡ v

-- The structure after a call that reports an error is the one before; for a call of the channel
-- setter it is so but for the channel bounds.
abbrev pub Kept : Call → WifiApT → WifiApT → Type 0
Kept (Call.channel n) = IsSameButBounds
Kept _ = IsSame

-- The same but for the channel bounds, for any call.
abbrev pub Rejects : WifiApT → Outcome (Status × WifiApT) → Type 0
Rejects = RejectsAs IsSameButBounds

set_buffer_rejected :
    (dest : Bytes) (src : Option Bytes) (lo hi : ℕ)
    → (set_buffer dest src lo hi).0 ≢ no_error
    → (set_buffer dest src lo hi).1 ≡ dest
unfolding set_buffer
set_buffer_rejected dest none lo hi h = refl
set_buffer_rejected dest (some src) lo hi h = ground arith

set_string_copy_rejected :
    (strdup : Bytes → Option Bytes) (dest src : Option Bytes)
    → (set_string_copy strdup dest src).0 ≢ no_error
    → (set_string_copy strdup dest src).1 ≡ dest
unfolding set_string_copy
set_string_copy_rejected strdup dest none h = refl
set_string_copy_rejected strdup dest (some []) h = refl
set_string_copy_rejected strdup dest (some (c ∷ src)) h = ground arith

RejectsAs-stored :
    (v : WifiApT) (m : Outcome WifiApT) → RejectsAs IsSame v (m >>= λ w. done (no_error, w))
RejectsAs-stored v (done w) = λ bad. absurd (bad refl)
RejectsAs-stored v (fault e) = tt

module _ (w : WifiApT) where
  pre_shared_key-RejectsAs :
      (s : Option Bytes) → RejectsAs IsSame w (set_pre_shared_key_parameter w s)
  unfolding set_pre_shared_key_parameter
  pre_shared_key-RejectsAs none = tt
  pre_shared_key-RejectsAs (some s) = elim (Bool-cases (ltb 64 (length s))) [
    | inl long ↦ rw long (λ _. refl)
    | inr fits ↦ rw fits (stored (Utf8.copy w.preshared_key (terminated s) 65))
  ]
    where
      stored :
          (m : Outcome Copied)
          → RejectsAs IsSame w (m >>= λ r. done (no_error, record w { preshared_key = r.dest }))
      stored (done r) = λ bad. absurd (bad refl)
      stored (fault e) = tt

  ip_range-RejectsAs :
      (ap start stop mask : Option Bytes)
      → RejectsAs IsSame w (set_ip_range_parameters w ap start stop mask)
  unfolding set_ip_range_parameters
  ip_range-RejectsAs none start stop mask = tt
  ip_range-RejectsAs (some ap) none stop mask = tt
  ip_range-RejectsAs (some ap) (some start) none mask = tt
  ip_range-RejectsAs (some ap) (some start) (some stop) none = tt
  ip_range-RejectsAs (some ap) (some start) (some stop) (some mask) =
      elim (Bool-cases (too_short ap || too_short start || too_short stop || too_short mask)) [
        | inl short ↦ rw short (λ _. refl)
        | inr enough ↦
            rw enough
              (elim (Bool-cases (too_long ap || too_long start || too_long stop || too_long mask)) [
                | inl long ↦ rw long (λ _. refl)
                | inr fits ↦ rw fits (RejectsAs-stored w (copy_ip_range w ap start stop mask))
              ])
      ]

perform-RejectsAs :
    (strdup : Bytes → Option Bytes) (c : Call) (w : WifiApT)
    → RejectsAs (Kept c) w (perform strdup c w)
unfolding perform set_host_name_parameter set_domain_name_parameter set_interface_name_parameter
    set_ssid_parameter set_pass_phrase_parameter set_country_code_parameter
    set_discoverable_parameter set_ip_ap_parameter set_ip_start_parameter set_ip_stop_parameter
    set_ip_net_mask_parameter set_channel_parameter channel_bounds set_ieee_standard_parameter
    set_max_number_clients set_security_protocol_parameter
perform-RejectsAs strdup (Call.host_name s) w =
    λ bad. rw (set_string_copy_rejected strdup w.host_name s bad)
perform-RejectsAs strdup (Call.domain_name s) w =
    λ bad. rw (set_string_copy_rejected strdup w.domain_name s bad)
perform-RejectsAs strdup (Call.interface_name s) w =
    λ bad. rw (set_string_copy_rejected strdup w.interface_name s bad)
perform-RejectsAs strdup (Call.ssid s) w = λ bad. rw (set_buffer_rejected w.ssid s 1 32 bad)
perform-RejectsAs strdup (Call.pass_phrase s) w =
    λ bad. rw (set_buffer_rejected w.passphrase s 8 63 bad)
perform-RejectsAs strdup (Call.pre_shared_key s) w = pre_shared_key-RejectsAs w s
perform-RejectsAs strdup (Call.security_protocol none) w = λ bad. refl
perform-RejectsAs strdup (Call.security_protocol (some s)) w = ground arith
perform-RejectsAs strdup (Call.country_code s) w =
    λ bad. rw (set_buffer_rejected w.country_code s 2 2 bad)
perform-RejectsAs strdup (Call.ip_ap s) w = λ bad. rw (set_buffer_rejected w.ip_ap s 1 15 bad)
perform-RejectsAs strdup (Call.ip_start s) w = λ bad. rw (set_buffer_rejected w.ip_start s 1 15 bad)
perform-RejectsAs strdup (Call.ip_stop s) w = λ bad. rw (set_buffer_rejected w.ip_stop s 1 15 bad)
perform-RejectsAs strdup (Call.ip_net_mask s) w =
    λ bad. rw (set_buffer_rejected w.ip_netmask s 1 15 bad)
perform-RejectsAs strdup (Call.ip_range ap start stop mask) w =
    ip_range-RejectsAs w ap start stop mask
perform-RejectsAs strdup (Call.channel n) w = ground arith
perform-RejectsAs strdup (Call.ieee_standard m) w = ground arith
perform-RejectsAs strdup (Call.max_clients n) w = ground arith
perform-RejectsAs strdup (Call.discoverable b) w = λ bad. absurd (bad refl)

-- A setter that returns an error leaves the whole structure as it was; only the channel setter may
-- have renewed the two channel bounds, and leaves the rest as it was.
pub perform-Kept :
    (strdup : Bytes → Option Bytes) (c : Call) (v w : WifiApT) (sts : Status)
    → perform strdup c v ≡ done (sts, w)
    → sts ≢ no_error
    → Kept c v w
perform-Kept strdup c v w sts runs bad =
    subst (RejectsAs (Kept c) v) runs (perform-RejectsAs strdup c v) bad

Kept-IsSameButBounds : (c : Call) (v w : WifiApT) → Kept c v w → with_bounds_of v w ≡ v
Kept-IsSameButBounds (Call.channel n) v w same = same
Kept-IsSameButBounds _ v w same = ap (with_bounds_of v) same

-- Whichever the setter.
pub perform-Rejects :
    (strdup : Bytes → Option Bytes) (c : Call) (w : WifiApT) → Rejects w (perform strdup c w)
perform-Rejects strdup c w = rejects (perform strdup c w) (perform-RejectsAs strdup c w)
  where
    rejects : (m : Outcome (Status × WifiApT)) → RejectsAs (Kept c) w m → Rejects w m
    rejects (done (sts, w')) h = λ bad. Kept-IsSameButBounds c w w' (h bad)
    rejects (fault e) h = tt
