-- ===== src/Config/Hostapd.antt =====
-- `GenerateHostApConfFile`: nothing is cut, and the file holds all of the text or is gone.
use mathlib.Core.List.{append-nil}
use mathlib.Core.Bool.{false≢true}
use Prim.Native.Nat.{bit_and}
use wifiap_binding.Base.{
  ℕ, suc, ◌<◌, ◌≡◌, ◌⊎◌, inl, inr, refl, ◌++◌, Bool, true, false, not, Option, none, some, [], ◌∷◌,
  done, ◌≢◌, if◌then◌else◌, length, arith, length-append, Bool-cases, ltb,
}
use wifiap_binding.Base.Bytes.{Bytes, codes, c_str}
use wifiap_binding.System.{Env, hostapd_file, opened, closed, removed, History}
use wifiap_binding.System.Files.{content}
use wifiap_binding.System.Format.{snprintf_fits, length-decimal}
use wifiap_binding.Data.Types.{
  WifiApT, SecurityProtocol, security_none, security_wpa2, hardware_mode_mask,
}
use wifiap_binding.Data.Calls.Invariant.{IsWellFormed}
use wifiap_binding.Config.{
  common_text, security_section, write_ap_config_file, hw_mode_line, ieee_flags,
  generate_host_ap_conf_file, is_set, hostapd_config_security_none, hostapd_config_security_wpa2,
}
use wifiap_binding.Config.Ieee.{chosen, ieee_section_lem}

-- The security lines that the settings call for; `none` where WPA2 has neither passphrase nor key.
abbrev pub security_text : SecurityProtocol → Bytes → Bytes → Option Bytes
security_text security_none passphrase key = some hostapd_config_security_none
security_text security_wpa2 passphrase key =
    if is_set passphrase
    then some
        (hostapd_config_security_wpa2 ++ codes "wpa_passphrase=" ++ c_str passphrase ++ codes "\n")
    else if is_set key
    then some (hostapd_config_security_wpa2 ++ codes "wpa_psk=" ++ c_str key ++ codes "\n")
    else none

abbrev pub ieee_text : ℕ → Bytes
ieee_text mask = hw_mode_line (bit_and mask hardware_mode_mask) ++ chosen (ieee_flags mask)

abbrev pub join_sections : Bytes → Option Bytes → Bytes → Option Bytes
join_sections common none ieee = none
join_sections common (some security) ieee = some (common ++ security ++ ieee)

-- The whole file, with no buffer in sight.
abbrev pub hostapd_text : WifiApT → Option Bytes
hostapd_text w =
    join_sections (common_text w) (security_text w.security_protocol w.passphrase w.preshared_key)
      (ieee_text w.ieee_std_mask)

common_fits : (w : WifiApT) → IsWellFormed w → length (common_text w) < 1024
unfolding common_text
common_fits w h =
    let n1 = length-decimal w.channel_number in
    let n2 = length-decimal w.max_number_client in
    let n3 = length-decimal (if w.discoverable then 0 else 1) in
    let n4 = h.ssid.has_terminator in
    let n5 = h.country_code.has_terminator in simp length-append (omega arith)

security_section-text :
    (w : WifiApT)
    → IsWellFormed w
    → security_section w.security_protocol w.passphrase w.preshared_key
      ≡ security_text w.security_protocol w.passphrase w.preshared_key
unfolding security_section
security_section-text w h = go w.security_protocol
  where
    pass :
        length (
          hostapd_config_security_wpa2
          ++ codes "wpa_passphrase="
          ++ c_str w.passphrase
          ++ codes "\n")
        < 1024
    pass = let n = h.passphrase.has_terminator in simp length-append (omega arith)

    psk :
        length
          (hostapd_config_security_wpa2 ++ codes "wpa_psk=" ++ c_str w.preshared_key ++ codes "\n")
        < 1024
    psk = let n = h.preshared_key.has_terminator in simp length-append (omega arith)

    go :
        (p : SecurityProtocol)
        → security_section p w.passphrase w.preshared_key
          ≡ security_text p w.passphrase w.preshared_key
    go security_none = refl
    go security_wpa2 = rw (snprintf_fits 1024 _ pass, snprintf_fits 1024 _ psk)

-- The three writes, of texts that are already made.
write_sections : Env → Bytes → Option Bytes → Bytes → History → Bool × History
write_sections env common security ieee h =
    let (set_common, h1) =
      write_ap_config_file env (some common) (some hostapd_file) (opened hostapd_file ∷ h) in
    let (set_security, h2) = write_ap_config_file env security (some hostapd_file) h1 in
    let (set_ieee, h3) = write_ap_config_file env (some ieee) (some hostapd_file) h2 in
    if not (env.can_open h hostapd_file)
    then (false, h)
    else if not set_common
    then (false, removed hostapd_file ∷ closed hostapd_file ∷ h1)
    else if not set_security
    then (false, removed hostapd_file ∷ closed hostapd_file ∷ h2)
    else if not set_ieee
    then (false, removed hostapd_file ∷ closed hostapd_file ∷ h3)
    else (true, closed hostapd_file ∷ h3)

branches :
    {A : Type 0} (a b c : Bool) (r0 r1 r2 r3 : A)
    → (if not a then done r0 else if not b then done r1 else if not c then done r2 else done r3)
      ≡ done (if not a then r0 else if not b then r1 else if not c then r2 else r3)
branches true true true r0 r1 r2 r3 = refl
branches true true false r0 r1 r2 r3 = refl
branches true false c r0 r1 r2 r3 = refl
branches false b c r0 r1 r2 r3 = refl

generate-write_sections :
    (env : Env) (w : WifiApT) (h : History)
    → IsWellFormed w
    → generate_host_ap_conf_file env w h
      ≡ done (
          write_sections env
            (common_text w)
            (security_text w.security_protocol w.passphrase w.preshared_key)
            (ieee_text w.ieee_std_mask)
            h)
unfolding generate_host_ap_conf_file write_sections
generate-write_sections env w h ok =
    let security = security_text w.security_protocol w.passphrase w.preshared_key in
    let r1 =
      write_ap_config_file env (some (common_text w)) (some hostapd_file)
        (opened hostapd_file ∷ h) in
    let r2 = write_ap_config_file env security (some hostapd_file) r1.1 in
    let r3 = write_ap_config_file env (some (ieee_text w.ieee_std_mask)) (some hostapd_file) r2.1 in
    rw
      (
        snprintf_fits 1024 (common_text w) (common_fits w ok),
        security_section-text w ok,
        ieee_section_lem w.ieee_std_mask,
      )
      (branches (env.can_open h hostapd_file) r1.0 r2.0 (false, h)
        (false, removed hostapd_file ∷ closed hostapd_file ∷ r1.1)
        (false, removed hostapd_file ∷ closed hostapd_file ∷ r2.1)
        (if not r3.0
          then (false, removed hostapd_file ∷ closed hostapd_file ∷ r3.1)
          else (true, closed hostapd_file ∷ r3.1)))

-- What is left of the file.
abbrev pub Leaves : Option Bytes → History → Bool × History → Type 0
Leaves text h (true, h') = (content hostapd_file h' ≡ text) × (text ≢ none)
Leaves text h (false, h') = (h' ≡ h) ⊎ (content hostapd_file h' ≡ none)

write-content :
    (env : Env) (text a : Bytes) (h : History)
    → content hostapd_file h ≡ some a
    → (write_ap_config_file env (some text) (some hostapd_file) h).0 ≡ true
    → content hostapd_file (write_ap_config_file env (some text) (some hostapd_file) h).1
      ≡ some (a ++ text)
unfolding write_ap_config_file
write-content env [] a h e ok = rw (append-nil a) e
write-content env (c ∷ text) a h e ok =
    let pos : ltb 0 (suc (length text)) ≡ true = ground arith in
    elim (Bool-cases (env.can_write h hostapd_file (c ∷ text))) [
      | inl full ↦ rw (pos, full) (rw e)
      | inr short ↦ absurd (false≢true (rw (pos, short) at ok))
    ]

write-none :
    (env : Env) (h : History) → write_ap_config_file env none (some hostapd_file) h ≡ (false, h)
unfolding write_ap_config_file
write-none env h = refl

write_sections-Leaves :
    (env : Env) (common ieee : Bytes) (security : Option Bytes) (h : History)
    → Leaves (join_sections common security ieee) h (write_sections env common security ieee h)
unfolding write_sections
write_sections-Leaves env common ieee none h = elim (Bool-cases (env.can_open h hostapd_file)) [
  | inr shut ↦ rw shut (inl refl)
  | inl open_ok ↦
      rw open_ok
        (elim (Bool-cases
          (write_ap_config_file env (some common) (some hostapd_file)
            (opened hostapd_file ∷ h)).0) [
              | inr bad ↦ rw bad (inr refl)
              | inl good ↦ rw good (
                  rw
                    (write-none env
                      (write_ap_config_file env (some common) (some hostapd_file)
                        (opened hostapd_file ∷ h)).1)
                    (inr refl))
            ])
]
write_sections-Leaves env common ieee (some security) h =
    let r1 = write_ap_config_file env (some common) (some hostapd_file) (opened hostapd_file ∷ h) in
    let r2 = write_ap_config_file env (some security) (some hostapd_file) r1.1 in
    let r3 = write_ap_config_file env (some ieee) (some hostapd_file) r2.1 in
    elim (Bool-cases (env.can_open h hostapd_file)) [
      | inr shut ↦ rw shut (inl refl)
      | inl open_ok ↦ rw open_ok (elim (Bool-cases r1.0) [
        | inr bad ↦ rw bad (inr refl)
        | inl first ↦ rw first (elim (Bool-cases r2.0) [
          | inr bad ↦ rw bad (inr refl)
          | inl second ↦ rw second (elim (Bool-cases r3.0) [
            | inr bad ↦ rw bad (inr refl)
            | inl third ↦ rw third (
              write-content env ieee (common ++ security) r2.1
                  (write-content env security common r1.1
                    (write-content env common [] (opened hostapd_file ∷ h) refl first) second)
                  third,
              λ p. cc,
            )
          ])
        ])
      ])
    ]

-- From a structure that meets the invariant, whatever the system answers, the function returns. If
-- it reports success, hostapd.conf holds the whole text that the settings call for, with nothing cut
-- by a buffer. If it fails, it has opened no file, or the file is removed again. It never succeeds
-- for WPA2 with neither passphrase nor key.
pub generate_host_ap_conf_file_lem :
    (env : Env) (w : WifiApT) (h : History)
    → IsWellFormed w
    → (r : Bool × History) × (generate_host_ap_conf_file env w h ≡ done r)
      × Leaves (hostapd_text w) h r
generate_host_ap_conf_file_lem env w h ok = (
  _,
  generate-write_sections env w h ok,
  write_sections-Leaves env (common_text w) (ieee_text w.ieee_std_mask)
      (security_text w.security_protocol w.passphrase w.preshared_key) h,
)
