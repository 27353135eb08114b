-- ===== src/Init.antt =====
-- The initialisation of src/wifiAp.c: the settings are read from a JSON object, and the access point
-- is started if the configuration asks for it.
pub mod Filled
pub mod Rounds
pub mod Numbers
pub mod Stages
pub mod Created
use wifiap_binding.Base.{
  ℕ, ◌+◌, Bool, true, false, not, ◌&&◌, Option, none, some, List, [], ◌∷◌, Outcome, done, ◌>>=◌,
  ◌==◌, leb, if◌then◌else◌,
}
use wifiap_binding.Base.Int.{ℤ, pos, negsuc}
use wifiap_binding.Base.Bytes.{Bytes, codes}
use wifiap_binding.Data.Types.{WifiApT, Status, no_error, error_too_small, error_too_large, fresh}
use wifiap_binding.Data.{
  set_host_name_parameter, set_domain_name_parameter, set_interface_name_parameter,
  set_ssid_parameter, set_pass_phrase_parameter, set_security_protocol_parameter,
  set_country_code_parameter, set_max_number_clients, set_discoverable_parameter,
  set_ip_ap_parameter, set_ip_start_parameter, set_ip_stop_parameter, set_ip_net_mask_parameter,
  set_channel_parameter, set_ieee_standard_parameter,
}
use wifiap_binding.Threads.Links.{CdsList}
use wifiap_binding.Binder.{Binder}
use wifiap_binding.Requests.{uint32_max, and_then}
use wifiap_binding.Ap.{World}
use wifiap_binding.Ap.Start.{LaunchAnswers, start_ap}
use wifiap_binding.Api.Table.{Platform}

-- The union of setters, with `type` as its tag.
pub data Setter : Type 0 where
  set_s : (WifiApT → Option Bytes → Outcome (Status × WifiApT)) → Setter
  set_u : (WifiApT → ℕ → Status × WifiApT) → Setter
  set_b : (WifiApT → Bool → Status × WifiApT) → Setter

-- An element of `descs`.
pub record Desc : Type 0 where
  pub key : Bytes
  pub mandatory : Bool
  pub setter : Setter

abbrev pub desc : Bytes → Setter → Desc
desc key setter = record { key = key; mandatory = true; setter = setter }

abbrev pub optional : Bytes → Setter → Desc
optional key setter = record { key = key; mandatory = false; setter = setter }

-- The keys, in the order of the table. docs/3_Usage.md names `ssid` and the addresses mandatory only
-- for a start at the initialisation; in the table they are mandatory always.
unfoldable pub descs : (Bytes → Option Bytes) → List Desc
descs strdup =
    desc (codes "interfaceName") (set_s (set_interface_name_parameter strdup))
    ∷ desc (codes "domaine_name") (set_s (set_domain_name_parameter strdup))
    ∷ desc (codes "hostname") (set_s (set_host_name_parameter strdup))
    ∷ desc (codes "ssid") (set_s set_ssid_parameter)
    ∷ desc (codes "passphrase") (set_s set_pass_phrase_parameter)
    ∷ optional (codes "preSharedKey") (set_s set_pass_phrase_parameter)
    ∷ desc (codes "countryCode") (set_s set_country_code_parameter)
    ∷ desc (codes "securityProtocol") (set_s set_security_protocol_parameter)
    ∷ desc (codes "ip_ap") (set_s set_ip_ap_parameter)
    ∷ desc (codes "ip_start") (set_s set_ip_start_parameter)
    ∷ desc (codes "ip_stop") (set_s set_ip_stop_parameter)
    ∷ desc (codes "ip_netmask") (set_s set_ip_net_mask_parameter)
    ∷ desc (codes "discoverable") (set_b set_discoverable_parameter)
    ∷ desc (codes "maxNumberClient") (set_u set_max_number_clients)
    ∷ desc (codes "IeeeStdMask") (set_u set_ieee_standard_parameter)
    ∷ desc (codes "channelNumber") (set_u set_channel_parameter)
    ∷ []

-- `sts == WIFIAP_NO_ERROR`
unfoldable pub is_no_error : Status → Bool
is_no_error no_error = true
is_no_error _ = false

-- The range tests on the `int64_t`, before the setter.
unfoldable pub set_int64 : (WifiApT → ℕ → Status × WifiApT) → ℤ → WifiApT → Status × WifiApT
set_int64 set (negsuc n) w = (error_too_small, w)
set_int64 set (pos x) w = if leb x uint32_max then set w x else (error_too_large, w)

module _ (B : Binder) where
  -- The `switch` on the type of a present key; false where it counts an error.
  unfoldable pub set_value : Setter → B.Json → WifiApT → Outcome (Bool × WifiApT)
  unfolding is_no_error set_int64
  set_value (set_s set) val w =
      if B.is_string val
      then (set w (B.json_string val) >>= λ r. done (is_no_error r.0, r.1))
      else done (false, w)
  set_value (set_b set) val w =
      if B.is_boolean val
      then (let (sts, w') = set w (B.json_boolean val) in done (is_no_error sts, w'))
      else done (false, w)
  set_value (set_u set) val w =
      if B.is_int val
      then (let (sts, w') = set_int64 set (B.json_int64 val) w in done (is_no_error sts, w'))
      else done (false, w)

  -- One round of the loop, on what `json_object_object_get_ex` found.
  unfoldable pub set_found : Desc → Option B.Json → WifiApT → Outcome (Bool × WifiApT)
  unfolding set_value
  set_found d none w = done (not d.mandatory, w)
  set_found d (some val) w = set_value d.setter val w

  -- The loop, with `err`.
  unfoldable pub fill : List Desc → B.Json → ℕ → WifiApT → Outcome (ℕ × WifiApT)
  fill [] obj err w = done (err, w)
  fill (d ∷ rest) obj err w = set_found d (B.json_field obj d.key) w >>= λ r.
      fill rest obj (if r.0 then err else err + 1) r.1

  -- `allocated` tells if `calloc` succeeds, and `event` if the event is created.
  unfoldable pub create_wifi_ap_data :
      (Bytes → Option Bytes) → Bool → Bool → B.Json → Outcome (Option WifiApT)
  create_wifi_ap_data strdup allocated event obj =
      if not allocated
      then done none
      else (fill (descs strdup) obj 0 fresh >>= λ r.
          done (if r.0 == 0 && event then some r.1 else none))

module _ (P : Platform) where
  open P use {list, env, binder, strdup}

  -- What the system answers to `binding_ctl`: the configuration file, and the other calls.
  pub record BootAnswers : Type 0 where
    pub root : Option binder.Json
    pub allocated : Bool
    pub event : Bool
    pub launching : LaunchAnswers

  -- The state of a binding whose data is set and that has done nothing yet.
  abbrev pub booted : WifiApT → World list
  booted w = record {
    settings = w;
    threads = record { heap = λ p. none; next = 0; thread_list = list.empty; locked = false };
    wifi_ap_thread_ptr = none;
    history = [];
  }

  unfoldable pub start_at_init : binder.Json → Bool
  start_at_init config = elim (binder.json_field config (codes "startAtInit")) [
    | none ↦ false
    | some obj ↦ binder.is_boolean obj && binder.json_boolean obj
  ]

  -- The rest of the case `afb_ctlid_Init`, once the data is created. The code is without its sign.
  unfoldable pub finish_init :
      LaunchAnswers → Bool → Option WifiApT → Outcome (ℕ × Option (World list))
  finish_init launching start none = done (1, none)
  finish_init launching start (some w) =
      if start
      then (start_ap list env launching (booted w) >>= λ r.
          done (if r.0 == 0 then 0 else 1, some r.1))
      else done (0, some (booted w))

  -- The case `afb_ctlid_Init`, from the section "config" on.
  unfoldable pub init_from : BootAnswers → Option binder.Json → Outcome (ℕ × Option (World list))
  unfolding start_at_init finish_init
  init_from boot none = done (1, none)
  init_from boot (some config) =
      create_wifi_ap_data binder strdup boot.allocated boot.event config >>= λ created.
      finish_init boot.launching (start_at_init config) created

  -- The case `afb_ctlid_Init` of `binding_ctl`: the code, and the state if the data is set.
  unfoldable pub binding_init : BootAnswers → Outcome (ℕ × Option (World list))
  unfolding init_from
  binding_init boot =
      init_from boot (and_then boot.root (λ root. binder.json_field root (codes "config")))
