-- ===== src/Data/Calls/Usable.antt =====
-- The three names of the settings, once given, are never lost, and the mask stays a documented one.
use mathlib.Core.Path.{ap₂, sym, subst}
use wifiap_binding.Base.{
  ℕ, ◌≡◌, refl, Bool, true, false, Option, none, some, [], ◌∷◌, Outcome, done, inl, inr,
  if◌then◌else◌, ◌||◌, Option-cases, IfDone, IfDone-done, IfDone-bind, IfDone-after, arith,
}
use wifiap_binding.Base.Bytes.{Bytes, terminated, codes}
use wifiap_binding.Utf8
use wifiap_binding.Data.Types.{
  WifiApT, Status, no_error, error_invalid, security_none, security_wpa2,
}
use wifiap_binding.Data.Setters.{
  set_string_copy, set_host_name_parameter, set_domain_name_parameter, set_interface_name_parameter,
  set_ssid_parameter, set_pass_phrase_parameter, set_pre_shared_key_parameter,
  set_security_protocol_parameter, set_country_code_parameter, set_max_number_clients,
  set_discoverable_parameter, copy_ip_range, set_ip_range_parameters, set_ip_ap_parameter,
  set_ip_start_parameter, set_ip_stop_parameter, set_ip_net_mask_parameter, too_short, too_long,
  ip_size, same_text, non_null,
}
use wifiap_binding.Data.Radio.{channel_bounds, set_channel_parameter, set_ieee_standard_parameter}
use wifiap_binding.Data.Standards.{IsIeeeMask, set_ieee_standard_accepts}
use wifiap_binding.Data.Stored.{Status-cases, mask_lem, mask_refused}
use wifiap_binding.Data.Calls.Defs.{Call, perform}

abbrev pub IsGiven : Option Bytes → Type 0
IsGiven o = (name : Bytes) × (o ≡ some name)

-- The interface, the domain and the host have their names, and the mask is a documented one.
abbrev pub IsUsable : WifiApT → Type 0
IsUsable w =
    IsGiven w.interface_name
    × IsGiven w.domain_name
    × IsGiven w.host_name
    × IsIeeeMask w.ieee_std_mask

abbrev Usable : Outcome (Status × WifiApT) → Type 0
Usable = IfDone (λ r. IsUsable r.1)

set_string_copy-IsGiven :
    (strdup : Bytes → Option Bytes) (dest src : Option Bytes)
    → IsGiven dest
    → IsGiven (set_string_copy strdup dest src).1
unfolding set_string_copy
set_string_copy-IsGiven strdup dest none g = g
set_string_copy-IsGiven strdup dest (some []) g = g
set_string_copy-IsGiven strdup dest (some (c ∷ src)) g = elim (Option-cases (strdup (c ∷ src))) [
  | inl empty ↦ rw empty g
  | inr (t, e) ↦ rw e (t, refl)
]

result : (r : Status × WifiApT) → IsUsable r.1 → Usable (done r)
result r h = IfDone-done (λ r. IsUsable r.1) r h

either :
    (b : Bool) (m k : Outcome (Status × WifiApT))
    → Usable m
    → Usable k
    → Usable (if b then m else k)
either true m k p q = p
either false m k p q = q

module _ (w : WifiApT) (h : IsUsable w) where
  pre_shared_key-Usable : (s : Option Bytes) → Usable (set_pre_shared_key_parameter w s)
  unfolding set_pre_shared_key_parameter
  pre_shared_key-Usable none = λ r e. absurd cc
  pre_shared_key-Usable (some s) = either _ _ _ (result _ h) (
      IfDone-after (λ r. IsUsable r.1) (Utf8.copy w.preshared_key (terminated s) 65) _
        λ r. result _ h)

  security_protocol-Usable : (s : Option Bytes) → Usable (set_security_protocol_parameter w s)
  unfolding set_security_protocol_parameter
  security_protocol-Usable none = result _ h
  security_protocol-Usable (some s) =
      either (same_text s (codes "none")) _ _
        (result (no_error, record w { security_protocol = security_none }) h)
        (either (same_text s (codes "WPA2")) _ _
          (result (no_error, record w { security_protocol = security_wpa2 }) h)
          (result (error_invalid, w) h))

  copy_ip_range-Usable :
      (ap start stop mask : Bytes) → IfDone IsUsable (copy_ip_range w ap start stop mask)
  unfolding copy_ip_range
  copy_ip_range-Usable ap start stop mask =
      IfDone-after IsUsable (Utf8.copy w.ip_ap (terminated ap) ip_size) _ λ r1.
        IfDone-after IsUsable (Utf8.copy w.ip_start (terminated start) ip_size) _ λ r2.
          IfDone-after IsUsable (Utf8.copy w.ip_stop (terminated stop) ip_size) _ λ r3.
            IfDone-after IsUsable (Utf8.copy w.ip_netmask (terminated mask) ip_size) _
              λ r4. IfDone-done IsUsable _ h

  ip_range-Usable :
      (ap start stop mask : Option Bytes) → Usable (set_ip_range_parameters w ap start stop mask)
  unfolding set_ip_range_parameters
  ip_range-Usable ap start stop mask =
      IfDone-after (λ r. IsUsable r.1) (non_null ap) _
        λ a.
          IfDone-after (λ r. IsUsable r.1) (non_null start) _
            λ b.
              IfDone-after (λ r. IsUsable r.1) (non_null stop) _
                λ c.
                  IfDone-after (λ r. IsUsable r.1) (non_null mask) _
                    λ d.
                      either (too_short a || too_short b || too_short c || too_short d) _ _
                        (result _ h)
                        (either (too_long a || too_long b || too_long c || too_long d) _ _
                          (result _ h)
                          (IfDone-bind IsUsable (λ r. IsUsable r.1) (copy_ip_range w a b c d) _
                            (copy_ip_range-Usable a b c d) λ w' p. result _ p))

  channel-IsUsable : (n : ℕ) → IsUsable (set_channel_parameter w n).1
  unfolding set_channel_parameter channel_bounds
  channel-IsUsable n = ground arith

  ieee_standard-IsUsable : (m : ℕ) → IsUsable (set_ieee_standard_parameter w m).1
  ieee_standard-IsUsable m = elim (Status-cases (set_ieee_standard_parameter w m).0) [
    | inl good ↦
        let stored : record w { ieee_std_mask = m } ≡ (set_ieee_standard_parameter w m).1 =
          mask_lem w m good in
        let documented =
          (set_ieee_standard_accepts w m).0 (ap₂ (λ s v. (s, v)) good (sym stored)) in
        subst IsUsable stored (h.0, h.1, h.2, documented)
    | inr bad ↦ subst IsUsable (mask_refused w m bad) h
  ]

  max_clients-IsUsable : (n : ℕ) → IsUsable (set_max_number_clients w n).1
  unfolding set_max_number_clients
  max_clients-IsUsable n = ground arith

-- No call of a setter takes a name away, or sets an undocumented mask.
pub perform-IsUsable :
    (strdup : Bytes → Option Bytes) (c : Call) (w : WifiApT)
    → IsUsable w
    → IfDone (λ r. IsUsable r.1) (perform strdup c w)
unfolding perform set_host_name_parameter set_domain_name_parameter set_interface_name_parameter
    set_ssid_parameter set_pass_phrase_parameter set_country_code_parameter
    set_discoverable_parameter set_ip_ap_parameter set_ip_start_parameter set_ip_stop_parameter
    set_ip_net_mask_parameter
perform-IsUsable strdup (Call.host_name s) w (i, d, h, m) =
    result _ (i, d, set_string_copy-IsGiven strdup w.host_name s h, m)
perform-IsUsable strdup (Call.domain_name s) w (i, d, h, m) =
    result _ (i, set_string_copy-IsGiven strdup w.domain_name s d, h, m)
perform-IsUsable strdup (Call.interface_name s) w (i, d, h, m) =
    result _ (set_string_copy-IsGiven strdup w.interface_name s i, d, h, m)
perform-IsUsable strdup (Call.ssid s) w h = result _ h
perform-IsUsable strdup (Call.pass_phrase s) w h = result _ h
perform-IsUsable strdup (Call.pre_shared_key s) w h = pre_shared_key-Usable w h s
perform-IsUsable strdup (Call.security_protocol s) w h = security_protocol-Usable w h s
perform-IsUsable strdup (Call.country_code s) w h = result _ h
perform-IsUsable strdup (Call.ip_ap s) w h = result _ h
perform-IsUsable strdup (Call.ip_start s) w h = result _ h
perform-IsUsable strdup (Call.ip_stop s) w h = result _ h
perform-IsUsable strdup (Call.ip_net_mask s) w h = result _ h
perform-IsUsable strdup (Call.ip_range ap start stop mask) w h =
    ip_range-Usable w h ap start stop mask
perform-IsUsable strdup (Call.channel n) w h = result _ (channel-IsUsable w h n)
perform-IsUsable strdup (Call.ieee_standard m) w h = result _ (ieee_standard-IsUsable w h m)
perform-IsUsable strdup (Call.max_clients n) w h = result _ (max_clients-IsUsable w h n)
perform-IsUsable strdup (Call.discoverable b) w h = result _ h
