-- ===== src/Init/Stages.antt =====
-- The loop of createWifiApData in src/wifiAp.c without errors, in four stages.
use mathlib.Core.Path.{subst}
use wifiap_binding.Base.{
  ℕ, ◌≤◌, ◌%◌, ◌≡◌, refl, sym, ap, ◌∙◌, Bool, inl, inr, Option, some, List, [], ◌∷◌, done, length,
}
use wifiap_binding.Base.Bytes.{Bytes, c_str, codes}
use wifiap_binding.Data.Types.{WifiApT, no_error, SecurityProtocol}
use wifiap_binding.Data.{
  StringSetter, set_buffer, set_string_copy, set_host_name_parameter, set_domain_name_parameter,
  set_interface_name_parameter, set_ssid_parameter, set_pass_phrase_parameter,
  set_security_protocol_parameter, set_country_code_parameter, set_max_number_clients,
  set_discoverable_parameter, set_ip_ap_parameter, set_ip_start_parameter, set_ip_stop_parameter,
  set_ip_net_mask_parameter, set_channel_parameter, set_ieee_standard_parameter,
}
use wifiap_binding.Data.Standards.{
  IsHardwareMode, IsIeeeMask, IsAllowedChannel, set_ieee_standard_accepts, set_channel_accepts,
}
use wifiap_binding.Data.Stored.{clients_lem, mask_lem, channel_lem}
use wifiap_binding.Binder.{Binder, IsLawful}
use wifiap_binding.Init.{Desc, desc, optional, set_s, set_u, set_b, descs, fill}
use wifiap_binding.Init.Rounds.{Ends, done-pair, buffer_round, name_round}
use wifiap_binding.Init.Numbers.{int_round, bool_round, optional_round, protocol_round}

-- A text of a length between two bounds.
abbrev pub IsText : ℕ → ℕ → Bytes → Type 0
IsText lo hi b = (lo ≤ length (c_str b)) × (length (c_str b) ≤ hi)

-- What is left of `descs` behind the names, the texts and the addresses.
abbrev pub number_descs : List Desc
number_descs =
    desc (codes "discoverable") (set_b set_discoverable_parameter)
    ∷ desc (codes "maxNumberClient") (set_u set_max_number_clients)
    ∷ desc (codes "IeeeStdMask") (set_u set_ieee_standard_parameter)
    ∷ desc (codes "channelNumber") (set_u set_channel_parameter)
    ∷ []

abbrev pub address_descs : List Desc
address_descs =
    desc (codes "ip_ap") (set_s set_ip_ap_parameter)
    ∷ desc (codes "ip_start") (set_s set_ip_start_parameter)
    ∷ desc (codes "ip_stop") (set_s set_ip_stop_parameter)
    ∷ desc (codes "ip_netmask") (set_s set_ip_net_mask_parameter)
    ∷ number_descs

abbrev pub text_descs : List Desc
text_descs =
    desc (codes "ssid") (set_s set_ssid_parameter)
    ∷ desc (codes "passphrase") (set_s set_pass_phrase_parameter)
    ∷ optional (codes "preSharedKey") (set_s set_pass_phrase_parameter)
    ∷ desc (codes "countryCode") (set_s set_country_code_parameter)
    ∷ desc (codes "securityProtocol") (set_s set_security_protocol_parameter)
    ∷ address_descs

module _ (B : Binder) (law : IsLawful B) (obj : B.Json) (w : WifiApT) where
  pub names_stage :
      (strdup : Bytes → Option Bytes) (w0 : WifiApT)
      → Ends B (descs strdup) obj w0 w
      → (interface : Bytes) × (domain : Bytes) × (host : Bytes) × Ends B text_descs obj
          (record w0 {
            interface_name = some interface;
            domain_name = some domain;
            host_name = some host;
          })
          w
  unfolding descs set_host_name_parameter set_domain_name_parameter set_interface_name_parameter
  names_stage strdup w0 h =
      let (interface, h1) =
        names _ _ _ w0 w0.interface_name (λ v. record w0 { interface_name = v }) (λ s. refl) h in
      let w1 : WifiApT = record w0 { interface_name = some interface } in
      let (domain, h2) =
        names _ _ _ w1 w1.domain_name (λ v. record w1 { domain_name = v }) (λ s. refl) h1 in
      let w2 : WifiApT = record w1 { domain_name = some domain } in
      let (host, h3) =
        names _ _ _ w2 w2.host_name (λ v. record w2 { host_name = v }) (λ s. refl) h2 in
      (interface, domain, host, h3)
    where
      names :
          (key : Bytes) (set : StringSetter) (ds : List Desc) (w0 : WifiApT)
          → (old : Option Bytes) (put : Option Bytes → WifiApT)
          → ((s : Option Bytes)
              → set w0 s
                ≡ done ((set_string_copy strdup old s).0, put (set_string_copy strdup old s).1))
          → Ends B (desc key (set_s set) ∷ ds) obj w0 w
          → (name : Bytes) × Ends B ds obj (put (some name)) w
      names key set ds w0 old put computes =
          name_round B law strdup key set ds obj w0 w old put computes

  texts :
      (key : Bytes) (set : StringSetter) (ds : List Desc) (w0 : WifiApT)
      → (old : Bytes) (lo hi : ℕ) (put : Bytes → WifiApT)
      → ((s : Option Bytes)
          → set w0 s ≡ done ((set_buffer old s lo hi).0, put (set_buffer old s lo hi).1))
      → Ends B (desc key (set_s set) ∷ ds) obj w0 w
      → (b : Bytes) × IsText lo hi b × Ends B ds obj (put b) w
  texts key set ds w0 old lo hi put computes h =
      let (b, low, high, rest) = buffer_round B law key set ds obj w0 w old lo hi put computes h in
      (b, (low, high), rest)

  -- The key `preSharedKey` sets the passphrase again, if it is there.
  key_round :
      (ds : List Desc) (w0 : WifiApT)
      → IsText 8 63 w0.passphrase
      → Ends B (optional (codes "preSharedKey") (set_s set_pass_phrase_parameter) ∷ ds) obj w0 w
      → (b : Bytes) × IsText 8 63 b × Ends B ds obj (record w0 { passphrase = b }) w
  unfolding set_pass_phrase_parameter
  key_round ds w0 old h = elim (optional_round B _ _ ds obj w0 w h) [
    | inl absent ↦ (w0.passphrase, old, absent)
    | inr present ↦
        texts _ _ _ w0 w0.passphrase 8 63 (λ b. record w0 { passphrase = b }) (λ s. refl) present
  ]

  pub texts_stage :
      (w0 : WifiApT)
      → Ends B text_descs obj w0 w
      → (ssid : Bytes) × (pass : Bytes) × (country : Bytes) × (protocol : SecurityProtocol) × IsText
          1 32 ssid
        × IsText 8 63 pass
        × IsText 2 2 country
        × Ends B address_descs obj
            (record w0 {
              ssid = ssid;
              passphrase = pass;
              country_code = country;
              security_protocol = protocol;
            })
            w
  unfolding set_ssid_parameter set_pass_phrase_parameter set_country_code_parameter
  texts_stage w0 h =
      let (ssid, is_ssid, h1) =
        texts _ _ _ w0 w0.ssid 1 32 (λ b. record w0 { ssid = b }) (λ s. refl) h in
      let w1 : WifiApT = record w0 { ssid = ssid } in
      let (first, is_first, h2) =
        texts _ _ _ w1 w1.passphrase 8 63 (λ b. record w1 { passphrase = b }) (λ s. refl) h1 in
      let w2 : WifiApT = record w1 { passphrase = first } in
      let (pass, is_pass, h3) = key_round _ w2 is_first h2 in
      let w3 : WifiApT = record w2 { passphrase = pass } in
      let (country, is_country, h4) =
        texts _ _ _ w3 w3.country_code 2 2 (λ b. record w3 { country_code = b }) (λ s. refl) h3 in
      let w4 : WifiApT = record w3 { country_code = country } in
      let (protocol, h5) = protocol_round B law _ _ obj w4 w h4 in
      (ssid, pass, country, protocol, is_ssid, is_pass, is_country, h5)

  pub addresses_stage :
      (w0 : WifiApT)
      → Ends B address_descs obj w0 w
      → (ap : Bytes) × (start : Bytes) × (stop : Bytes) × (mask : Bytes) × IsText 1 15 ap
        × IsText 1 15 start
        × IsText 1 15 stop
        × IsText 1 15 mask
        × Ends B number_descs obj
            (record w0 { ip_ap = ap; ip_start = start; ip_stop = stop; ip_netmask = mask })
            w
  unfolding set_ip_ap_parameter set_ip_start_parameter set_ip_stop_parameter
      set_ip_net_mask_parameter
  addresses_stage w0 h =
      let (ap, is_ap, h1) =
        texts _ _ _ w0 w0.ip_ap 1 15 (λ b. record w0 { ip_ap = b }) (λ s. refl) h in
      let w1 : WifiApT = record w0 { ip_ap = ap } in
      let (start, is_start, h2) =
        texts _ _ _ w1 w1.ip_start 1 15 (λ b. record w1 { ip_start = b }) (λ s. refl) h1 in
      let w2 : WifiApT = record w1 { ip_start = start } in
      let (stop, is_stop, h3) =
        texts _ _ _ w2 w2.ip_stop 1 15 (λ b. record w2 { ip_stop = b }) (λ s. refl) h2 in
      let w3 : WifiApT = record w2 { ip_stop = stop } in
      let (mask, is_mask, h4) =
        texts _ _ _ w3 w3.ip_netmask 1 15 (λ b. record w3 { ip_netmask = b }) (λ s. refl) h3 in
      (ap, start, stop, mask, is_ap, is_start, is_stop, is_mask, h4)

  channel_stage :
      (w0 : WifiApT)
      → IsHardwareMode (w0.ieee_std_mask % 16)
      → Ends B (desc (codes "channelNumber") (set_u set_channel_parameter) ∷ []) obj w0 w
      → (channel : ℕ) × (lo : ℕ) × (hi : ℕ) × IsAllowedChannel (w0.ieee_std_mask % 16) channel
        × (record w0 { min_channel_value = lo; max_channel_value = hi; channel_number = channel }
            ≡ w)
  unfolding fill
  channel_stage w0 mode h =
      let (n, w1, fits, runs, rest) = int_round B _ set_channel_parameter [] obj w0 w h in
      let accepted : (set_channel_parameter w0 n).0 ≡ no_error = ap (λ r. r.0) runs in
      let (lo, hi, stored) = channel_lem w0 n mode accepted in
      (
        n,
        lo,
        hi,
        (set_channel_accepts w0 n mode).0.0 accepted,
        stored ∙ ap (λ r. r.1) runs ∙ (done-pair (0, w1) (0, w) rest).1,
      )

  flag_stage :
      (ds : List Desc) (w0 : WifiApT)
      → Ends B (desc (codes "discoverable") (set_b set_discoverable_parameter) ∷ ds) obj w0 w
      → (flag : Bool) × Ends B ds obj (record w0 { discoverable = flag }) w
  unfolding set_discoverable_parameter
  flag_stage ds w0 h =
      let (flag, w1, runs, rest) = bool_round B _ set_discoverable_parameter ds obj w0 w h in
      (flag, subst (λ v. Ends B ds obj v w) (sym (ap (λ r. r.1) runs)) rest)

  clients_stage :
      (ds : List Desc) (w0 : WifiApT)
      → Ends B (desc (codes "maxNumberClient") (set_u set_max_number_clients) ∷ ds) obj w0 w
      → (n : ℕ) × (1 ≤ n) × (n ≤ 1000) × Ends B ds obj (record w0 { max_number_client = n }) w
  clients_stage ds w0 h =
      let (n, w1, _, runs, rest) = int_round B _ set_max_number_clients ds obj w0 w h in
      let (low, high, stored) = clients_lem w0 n (ap (λ r. r.0) runs) in
      (n, low, high, subst (λ v. Ends B ds obj v w) (sym (stored ∙ ap (λ r. r.1) runs)) rest)

  mask_stage :
      (ds : List Desc) (w0 : WifiApT)
      → Ends B (desc (codes "IeeeStdMask") (set_u set_ieee_standard_parameter) ∷ ds) obj w0 w
      → (m : ℕ) × IsIeeeMask m × Ends B ds obj (record w0 { ieee_std_mask = m }) w
  mask_stage ds w0 h =
      let (m, w1, _, runs, rest) = int_round B _ set_ieee_standard_parameter ds obj w0 w h in
      let stored : record w0 { ieee_std_mask = m } ≡ w1 =
        mask_lem w0 m (ap (λ r. r.0) runs) ∙ ap (λ r. r.1) runs in
      (
        m,
        (set_ieee_standard_accepts w0 m).0 (runs ∙ ap (λ v. (no_error, v)) (sym stored)),
        subst (λ v. Ends B ds obj v w) (sym stored) rest,
      )

  pub numbers_stage :
      (w0 : WifiApT)
      → Ends B number_descs obj w0 w
      → (flag : Bool) × (clients : ℕ) × (mask : ℕ) × (channel : ℕ) × (lo : ℕ) × (hi : ℕ) × (1
          ≤ clients)
        × (clients ≤ 1000)
        × IsIeeeMask mask
        × IsAllowedChannel (mask % 16) channel
        × (record w0 {
          discoverable = flag;
          max_number_client = clients;
          ieee_std_mask = mask;
          min_channel_value = lo;
          max_channel_value = hi;
          channel_number = channel;
        }
            ≡ w)
  numbers_stage w0 h =
      let (flag, h1) = flag_stage _ w0 h in
      let w1 : WifiApT = record w0 { discoverable = flag } in
      let (clients, low, high, h2) = clients_stage _ w1 h1 in
      let w2 : WifiApT = record w1 { max_number_client = clients } in
      let (mask, is_mask, h3) = mask_stage _ w2 h2 in
      let w3 : WifiApT = record w2 { ieee_std_mask = mask } in
      let (channel, lo, hi, allowed, same) = channel_stage w3 is_mask.0 h3 in
      (flag, clients, mask, channel, lo, hi, low, high, is_mask, allowed, same)
