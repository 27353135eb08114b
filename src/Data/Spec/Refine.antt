-- ===== src/Data/Spec/Refine.antt =====
-- The setters of src/lib/wifi-ap-data.c do what the documentation says.
use wifiap_binding.Base.{◌%◌, ◌≡◌, refl, inl, Option, done}
use wifiap_binding.Base.Bytes.{Bytes}
use wifiap_binding.Data.Types.{WifiApT, Status}
use wifiap_binding.Data.Setters.{
  set_host_name_parameter, set_domain_name_parameter, set_interface_name_parameter,
  set_ssid_parameter, set_pass_phrase_parameter, set_country_code_parameter,
  set_discoverable_parameter, set_ip_ap_parameter, set_ip_start_parameter, set_ip_stop_parameter,
  set_ip_net_mask_parameter,
}
use wifiap_binding.Data.Calls.Defs.{perform}
use wifiap_binding.Data.Calls.Invariant.{IsWellFormed}
use wifiap_binding.Data.Standards.{IsHardwareMode}
use wifiap_binding.Data.Spec.{view, Change, call, IsPlain, changed, Meets}
use wifiap_binding.Data.Spec.Texts.{Works, stored_name, stored_text}
use wifiap_binding.Data.Spec.Values.{max_clients-Meets, mask-Meets, channel-Meets, protocol-Refines}
use wifiap_binding.Data.Spec.Keys.{key-Refines, range-Refines}

-- Every setter that is asked with texts in ASCII or with values of 32 bits, in a well-formed structure with one
-- hardware mode, when `strdup` has memory, returns. If the documentation allows the change, it reports success and the structure
-- stands for the changed settings; if not, it reports an error and the structure stands for the same as before.
pub perform-Refines :
    (strdup : Bytes → Option Bytes) (c : Change) (w : WifiApT)
    → Works strdup
    → IsPlain c
    → IsWellFormed w
    → IsHardwareMode (w.ieee_std_mask % 16)
    → (r : Status × WifiApT) × (perform strdup (call c) w ≡ done r)
      × Meets c (view w) r.0 (view r.1)
unfolding perform changed set_host_name_parameter set_domain_name_parameter
    set_interface_name_parameter set_ssid_parameter set_pass_phrase_parameter
    set_country_code_parameter set_discoverable_parameter set_ip_ap_parameter set_ip_start_parameter
    set_ip_stop_parameter set_ip_net_mask_parameter
perform-Refines strdup (Change.host_name s) w works a h mode =
    (_, refl, stored_name strdup (λ v. record (view w) { host_name = v }) w.host_name s works)
perform-Refines strdup (Change.domain_name s) w works a h mode =
    (_, refl, stored_name strdup (λ v. record (view w) { domain_name = v }) w.domain_name s works)
perform-Refines strdup (Change.interface_name s) w works a h mode = (
  _,
  refl,
  stored_name strdup (λ v. record (view w) { interface_name = v }) w.interface_name s works,
)
perform-Refines strdup (Change.ssid s) w works a h mode =
    (_, refl, stored_text (λ v. record (view w) { ssid = v }) w.ssid s 1 32 a)
perform-Refines strdup (Change.pass_phrase s) w works a h mode =
    (_, refl, stored_text (λ v. record (view w) { passphrase = v }) w.passphrase s 8 63 a)
perform-Refines strdup (Change.pre_shared_key s) w works a h mode = key-Refines w h s a
perform-Refines strdup (Change.security_protocol s) w works a h mode = protocol-Refines w s
perform-Refines strdup (Change.country_code s) w works a h mode =
    (_, refl, stored_text (λ v. record (view w) { country_code = v }) w.country_code s 2 2 a)
perform-Refines strdup (Change.ip_ap s) w works a h mode =
    (_, refl, stored_text (λ v. record (view w) { ip_ap = v }) w.ip_ap s 1 15 a)
perform-Refines strdup (Change.ip_start s) w works a h mode =
    (_, refl, stored_text (λ v. record (view w) { ip_start = v }) w.ip_start s 1 15 a)
perform-Refines strdup (Change.ip_stop s) w works a h mode =
    (_, refl, stored_text (λ v. record (view w) { ip_stop = v }) w.ip_stop s 1 15 a)
perform-Refines strdup (Change.ip_net_mask s) w works a h mode =
    (_, refl, stored_text (λ v. record (view w) { ip_netmask = v }) w.ip_netmask s 1 15 a)
perform-Refines strdup (Change.ip_range a b c d) w works p h mode = range-Refines w h a b c d p
perform-Refines strdup (Change.channel n) w works a h mode =
    (_, refl, channel-Meets w strdup n mode)
perform-Refines strdup (Change.ieee_standard m) w works a h mode = (_, refl, mask-Meets w strdup m)
perform-Refines strdup (Change.max_clients n) w works a h mode = (_, refl, max_clients-Meets w n)
perform-Refines strdup (Change.discoverable b) w works a h mode = (_, refl, inl (tt, refl, refl))
