-- ===== src/Init/Filled.antt =====
-- The loop of createWifiApData of src/wifiAp.c always ends, with well-formed settings.
use wifiap_binding.Base.{
  ℕ, ◌<◌, ◌^◌, ◌≡◌, refl, Bool, true, false, inl, inr, Option, none, some, List, [], ◌∷◌, Outcome,
  done, ◌>>=◌, All, leb, if◌then◌else◌, Bool-cases, arith,
}
use wifiap_binding.Base.Int.{ℤ, pos, negsuc}
use wifiap_binding.Base.Bytes.{Bytes, codes}
use wifiap_binding.Data.Types.{
  WifiApT, Status, no_error, error_invalid, security_none, security_wpa2,
}
use wifiap_binding.Data.{
  same_text, set_host_name_parameter, set_domain_name_parameter, set_interface_name_parameter,
  set_ssid_parameter, set_pass_phrase_parameter, set_security_protocol_parameter,
  set_country_code_parameter, set_discoverable_parameter, set_ip_ap_parameter,
  set_ip_start_parameter, set_ip_stop_parameter, set_ip_net_mask_parameter,
}
use wifiap_binding.Data.Calls.{Call, perform, IsArgument, IsCall}
use wifiap_binding.Data.Calls.Buffers.{Copies}
use wifiap_binding.Data.Calls.Invariant.{
  IsWellFormed, Keeps, perform-Keeps, channel-Keeps, ieee_standard-Keeps, max_clients-Keeps,
}
use wifiap_binding.Binder.{Binder, IsLawful}
use wifiap_binding.Requests.{uint32_max}
use wifiap_binding.Init.{
  Setter, set_s, set_u, set_b, Desc, descs, set_int64, set_value, set_found, fill,
}

-- The call returns well-formed settings.
abbrev pub Fills {ℓ} : {A : Type ℓ} → Outcome (A × WifiApT) → Type ℓ
Fills {A} m = (r : A × WifiApT) × (m ≡ done r) × IsWellFormed r.1

Fills-bind {ℓ κ} :
    {A : Type ℓ} {B : Type κ} (m : Outcome (A × WifiApT)) (f : A × WifiApT → Outcome (B × WifiApT))
    → Fills m
    → ((r : A × WifiApT) → IsWellFormed r.1 → Fills (f r))
    → Fills (m >>= f)
Fills-bind m f (r, e, h) k = let (r', e', h') = k r h in (r', rw e e', h')

-- Every setter of `descs` returns, with well-formed settings.
abbrev Sound : Setter → Type 0
Sound (set_s set) =
    (s : Option Bytes) (w : WifiApT) → IsArgument s → IsWellFormed w → Fills (set w s)
Sound (set_u set) = (n : ℕ) (w : WifiApT) → n < 2 ^ 32 → IsWellFormed w → IsWellFormed (set w n).1
Sound (set_b set) = (b : Bool) (w : WifiApT) → IsWellFormed w → IsWellFormed (set w b).1

set_int64-Keeps :
    (set : WifiApT → ℕ → Status × WifiApT) (x : ℤ) (w : WifiApT)
    → Sound (set_u set)
    → IsWellFormed w
    → IsWellFormed (set_int64 set x w).1
unfolding set_int64
set_int64-Keeps set (negsuc n) w sound h = h
set_int64-Keeps set (pos x) w sound h = elim (Bool-cases (leb x uint32_max)) [
  | inl fits ↦ rw fits (sound x w (ground arith) h)
  | inr large ↦ rw large h
]

security-Fills :
    (s : Option Bytes) (w : WifiApT)
    → Keeps (set_security_protocol_parameter w s)
    → Fills (set_security_protocol_parameter w s)
unfolding set_security_protocol_parameter
security-Fills none w h = ((error_invalid, w), refl, h)
security-Fills (some s) w h = chosen (same_text s (codes "none")) (same_text s (codes "WPA2")) h
  where
    chosen :
        (a b : Bool)
        → Keeps (
            if a
            then done (no_error, record w { security_protocol = security_none })
            else if b
            then done (no_error, record w { security_protocol = security_wpa2 })
            else done (error_invalid, w))
        → Fills (
            if a
            then done (no_error, record w { security_protocol = security_none })
            else if b
            then done (no_error, record w { security_protocol = security_wpa2 })
            else done (error_invalid, w))
    chosen true b h = (_, refl, h)
    chosen false true h = (_, refl, h)
    chosen false false h = (_, refl, h)

module _ (strdup : Bytes → Option Bytes) (copies : Copies strdup) where
  kept : (c : Call) (w : WifiApT) → IsCall c → IsWellFormed w → Keeps (perform strdup c w)
  kept c w a h = perform-Keeps strdup c w copies a h

  pub descs-Sound : All (λ d. Sound d.setter) (descs strdup)
  unfolding descs perform set_host_name_parameter set_domain_name_parameter
      set_interface_name_parameter set_ssid_parameter set_pass_phrase_parameter
      set_country_code_parameter set_discoverable_parameter set_ip_ap_parameter
      set_ip_start_parameter set_ip_stop_parameter set_ip_net_mask_parameter
  descs-Sound = (
    (λ s w a h. (_, refl, kept (Call.interface_name s) w a h)),
    (
      (λ s w a h. (_, refl, kept (Call.domain_name s) w a h)),
      (
        (λ s w a h. (_, refl, kept (Call.host_name s) w a h)),
        (
          (λ s w a h. (_, refl, kept (Call.ssid s) w a h)),
          (
            (λ s w a h. (_, refl, kept (Call.pass_phrase s) w a h)),
            (
              (λ s w a h. (_, refl, kept (Call.pass_phrase s) w a h)),
              (
                (λ s w a h. (_, refl, kept (Call.country_code s) w a h)),
                (
                  (λ s w a h. security-Fills s w (kept (Call.security_protocol s) w a h)),
                  (
                    (λ s w a h. (_, refl, kept (Call.ip_ap s) w a h)),
                    (
                      (λ s w a h. (_, refl, kept (Call.ip_start s) w a h)),
                      (
                        (λ s w a h. (_, refl, kept (Call.ip_stop s) w a h)),
                        (
                          (λ s w a h. (_, refl, kept (Call.ip_net_mask s) w a h)),
                          (
                            (λ b w h. kept (Call.discoverable b) w tt h),
                            (
                              (λ n w lt h. max_clients-Keeps w h n),
                              (
                                (λ n w lt h. ieee_standard-Keeps w h n lt),
                                ((λ n w lt h. channel-Keeps w h n), tt),
                              ),
                            ),
                          ),
                        ),
                      ),
                    ),
                  ),
                ),
              ),
            ),
          ),
        ),
      ),
    ),
  )

module _ (B : Binder) (law : IsLawful B) where
  pub json_string-IsArgument : (j : B.Json) (s : Option Bytes) → B.json_string j ≡ s → IsArgument s
  json_string-IsArgument j none e = tt
  json_string-IsArgument j (some s) e = law.json_string-IsCString j s e

  set_value-Fills :
      (set : Setter) (val : B.Json) (w : WifiApT)
      → Sound set
      → IsWellFormed w
      → Fills (set_value B set val w)
  unfolding set_value
  set_value-Fills (set_s set) val w sound h = elim (Bool-cases (B.is_string val)) [
    | inl string ↦ rw string (
        Fills-bind (set w (B.json_string val)) _ (sound _ w (json_string-IsArgument val _ refl) h)
          λ r p. (_, refl, p))
    | inr other ↦ rw other (_, refl, h)
  ]
  set_value-Fills (set_b set) val w sound h = elim (Bool-cases (B.is_boolean val)) [
    | inl boolean ↦ rw boolean (_, refl, sound _ w h)
    | inr other ↦ rw other (_, refl, h)
  ]
  set_value-Fills (set_u set) val w sound h = elim (Bool-cases (B.is_int val)) [
    | inl int ↦ rw int (_, refl, set_int64-Keeps set (B.json_int64 val) w sound h)
    | inr other ↦ rw other (_, refl, h)
  ]

  set_found-Fills :
      (d : Desc) (o : Option B.Json) (w : WifiApT)
      → Sound d.setter
      → IsWellFormed w
      → Fills (set_found B d o w)
  unfolding set_found
  set_found-Fills d none w sound h = (_, refl, h)
  set_found-Fills d (some val) w sound h = set_value-Fills d.setter val w sound h

  -- The loop always returns, with well-formed settings, whatever the object holds.
  pub fill-Fills :
      (ds : List Desc) (obj : B.Json) (err : ℕ) (w : WifiApT)
      → All (λ d. Sound d.setter) ds
      → IsWellFormed w
      → Fills (fill B ds obj err w)
  unfolding fill
  fill-Fills [] obj err w sound h = ((err, w), refl, h)
  fill-Fills (d ∷ ds) obj err w (s, sound) h =
      Fills-bind (set_found B d (B.json_field obj d.key) w) _
        (set_found-Fills d (B.json_field obj d.key) w s h) λ r p. fill-Fills ds obj _ r.1 sound p
