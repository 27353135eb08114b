-- ===== src/Tests/ApiTests.antt =====
-- Requests to a binding that has read a concrete configuration.
use wifiap_binding.Base.{
  ℕ, inl, inr, ◌≡◌, ◌⊎◌, refl, Bool, true, false, Option, none, some, List, [], ◌∷◌, done, arith,
  if◌then◌else◌, All,
}
use mathlib.Core.Path.{subst}
use wifiap_binding.Base.Int.{pos}
use wifiap_binding.Base.Bytes.{Bytes, codes, zeroed, terminated, memcpy, same_bytes, IsCString}
use wifiap_binding.Utf8.Ascii.{ascii, ascii-IsAscii, IsAscii-IsCString}
use wifiap_binding.System.Format.{decimal, digits}
use wifiap_binding.Data.Types.{WifiApT, Status, fresh, security_wpa2}
use wifiap_binding.Data.{
  set_host_name_parameter, set_domain_name_parameter, set_interface_name_parameter,
  set_ssid_parameter, set_pass_phrase_parameter, set_security_protocol_parameter,
  set_country_code_parameter, set_max_number_clients, set_discoverable_parameter,
  set_ip_ap_parameter, set_ip_start_parameter, set_ip_stop_parameter, set_ip_net_mask_parameter,
  set_channel_parameter, set_ieee_standard_parameter, set_buffer, set_string_copy, same_text,
  channel_bounds,
}
use wifiap_binding.Binder.{Binder, DataType, stringz_type, json_type, IsLawful}
use wifiap_binding.Threads.Links.{plain_list}
use wifiap_binding.Api.Table.{Platform, Request}
use wifiap_binding.Init.{
  create_wifi_ap_data, BootAnswers, binding_init, booted, fill, descs, set_found, set_value,
  is_no_error, set_int64, init_from, finish_init, start_at_init,
}
use wifiap_binding.Data.Calls.Invariant.{IsWellFormed}
use wifiap_binding.Data.Calls.Rejection.{with_bounds_of}
use wifiap_binding.Data.Spec.{Change, view}
use wifiap_binding.Data.Spec.Sequence.{performs, MeetAll, performs-MeetAll}
use wifiap_binding.Init.Created.{IsComplete, HasKey, required_keys, create_wifi_ap_data_lem}
use wifiap_binding.Replies.{json, invalid_request}
use wifiap_binding.Requests.{get_single_string, get_single_uint32, single_string_set}
use wifiap_binding.Requests.RoundTrip.{get_single_uint32-decimal}
use wifiap_binding.Ap.Clients.{strstr, starts_with}
use wifiap_binding.Api.Setters.{set_ssid}
use wifiap_binding.Api.Getters.{get_ieee_standard, get_ap_number_clients, get_wifi_ap_status}
use wifiap_binding.Api.Calls.{setting_verbs}
use wifiap_binding.Api.Reports.{Reports}
use wifiap_binding.Api.Asked.{found}
use wifiap_binding.Api.Asked.Verbs.{Answers}
use wifiap_binding.Api.Refused.{setting_verbs-Refuse}
use wifiap_binding.Api.Reach.{Reach, IsSound, Reach-IsSound}
use wifiap_binding.Api.Answers.{number_object, stations, getters_lem}
use wifiap_binding.Tests.ApTests.{launching, stopping}
use wifiap_binding.Tests.{all_well}
use mathlib.Core.List.{Memᴰ}

pub data Label : Type 0 where
  wlan secret country wpa address first last mask six : Label

abbrev label_text : Label → Bytes
label_text Label.wlan = codes "wlan0"
label_text Label.secret = codes "12345678"
label_text Label.country = codes "FR"
label_text Label.wpa = codes "WPA2"
label_text Label.address = codes "10.0.0.1"
label_text Label.first = codes "10.0.0.10"
label_text Label.last = codes "10.0.0.20"
label_text Label.mask = codes "255.255.255.0"
label_text Label.six = codes "6"

pub data Value : Type 0 where
  root config null : Value
  label : Label → Value
  count : ℕ → Value
  flag : Bool → Value

abbrev pub fields : List (Bytes × Value)
fields =
    (codes "interfaceName", Value.label Label.wlan)
    ∷ (codes "domaine_name", Value.label Label.wlan)
    ∷ (codes "hostname", Value.label Label.wlan)
    ∷ (codes "ssid", Value.label Label.wlan)
    ∷ (codes "passphrase", Value.label Label.secret)
    ∷ (codes "countryCode", Value.label Label.country)
    ∷ (codes "securityProtocol", Value.label Label.wpa)
    ∷ (codes "ip_ap", Value.label Label.address)
    ∷ (codes "ip_start", Value.label Label.first)
    ∷ (codes "ip_stop", Value.label Label.last)
    ∷ (codes "ip_netmask", Value.label Label.mask)
    ∷ (codes "discoverable", Value.flag true)
    ∷ (codes "maxNumberClient", Value.count 10)
    ∷ (codes "IeeeStdMask", Value.count 4)
    ∷ (codes "channelNumber", Value.count 6)
    ∷ []

abbrev look_up : List (Bytes × Value) → Bytes → Option Value
look_up [] key = none
look_up ((k, v) ∷ rest) key =
    let found = look_up rest key in if same_bytes k key then some v else found

abbrev field : Value → Bytes → Option Value
field Value.root key = if same_bytes key (codes "config") then some Value.config else none
field Value.config key = look_up fields key
field _ key = none

abbrev text_in : Value → Bytes
text_in (Value.label l) = label_text l
text_in _ = []

abbrev json_text : Value → Option Bytes
json_text Value.null = none
json_text v = some (text_in v)

abbrev type_in : Value → DataType
type_in (Value.label l) = stringz_type
type_in _ = json_type

abbrev is_label : Value → Bool
is_label (Value.label l) = true
is_label _ = false

abbrev is_flag : Value → Bool
is_flag (Value.flag b) = true
is_flag _ = false

abbrev flag_in : Value → Bool
flag_in (Value.flag b) = b
flag_in _ = false

abbrev is_count : Value → Bool
is_count (Value.count n) = true
is_count _ = false

abbrev count_in : Value → ℕ
count_in (Value.count n) = n
count_in _ = 0

abbrev pub binder : Binder
binder = record {
  Data = Value;
  Json = Value;
  data_type = type_in;
  flag = flag_in;
  text = text_in;
  to_json = some;
  to_u32 = λ d. none;
  json_string = json_text;
  is_string = is_label;
  is_boolean = is_flag;
  json_boolean = flag_in;
  is_int = is_count;
  json_int64 = λ j. pos (count_in j);
  json_uint64 = count_in;
  json_field = field;
  unpack_range = λ j. none;
}

ascii_text : (s : Bytes) → ascii s ≡ true → IsCString s
ascii_text s e = IsAscii-IsCString s (ascii-IsAscii s e)

label-IsCString : (l : Label) → IsCString (label_text l)
unfolding ascii
label-IsCString Label.wlan = ascii_text (codes "wlan0") refl
label-IsCString Label.secret = ascii_text (codes "12345678") refl
label-IsCString Label.country = ascii_text (codes "FR") refl
label-IsCString Label.wpa = ascii_text (codes "WPA2") refl
label-IsCString Label.address = ascii_text (codes "10.0.0.1") refl
label-IsCString Label.first = ascii_text (codes "10.0.0.10") refl
label-IsCString Label.last = ascii_text (codes "10.0.0.20") refl
label-IsCString Label.mask = ascii_text (codes "255.255.255.0") refl
label-IsCString Label.six = ascii_text (codes "6") refl

text_in-IsCString : (v : Value) → IsCString (text_in v)
text_in-IsCString Value.root = tt
text_in-IsCString Value.config = tt
text_in-IsCString Value.null = tt
text_in-IsCString (Value.label l) = label-IsCString l
text_in-IsCString (Value.count n) = tt
text_in-IsCString (Value.flag b) = tt

json_text-IsCString : (v : Value) (s : Bytes) → json_text v ≡ some s → IsCString s
json_text-IsCString v s e = subst IsCString (json_text-eq v s e) (text_in-IsCString v)
  where
    json_text-eq : (v : Value) (s : Bytes) → json_text v ≡ some s → text_in v ≡ s
    json_text-eq Value.root s e = cc
    json_text-eq Value.config s e = cc
    json_text-eq Value.null s e = absurd cc
    json_text-eq (Value.label l) s e = cc
    json_text-eq (Value.count n) s e = cc
    json_text-eq (Value.flag b) s e = cc

pub binder-IsLawful : IsLawful binder
binder-IsLawful = record {
  text-IsCString = text_in-IsCString;
  json_string-IsCString = json_text-IsCString;
  unpack_range-IsCString = λ j a b c d e. absurd cc;
  to_u32-lt = λ d n e. absurd cc;
}

abbrev pub configured : WifiApT
configured = record fresh {
  interface_name = some (codes "wlan0");
  domain_name = some (codes "wlan0");
  host_name = some (codes "wlan0");
  ssid = memcpy (zeroed 33) (terminated (codes "wlan0"));
  passphrase = memcpy (zeroed 64) (terminated (codes "12345678"));
  country_code = memcpy (zeroed 3) (terminated (codes "FR"));
  security_protocol = security_wpa2;
  ip_ap = memcpy (zeroed 16) (terminated (codes "10.0.0.1"));
  ip_start = memcpy (zeroed 16) (terminated (codes "10.0.0.10"));
  ip_stop = memcpy (zeroed 16) (terminated (codes "10.0.0.20"));
  ip_netmask = memcpy (zeroed 16) (terminated (codes "255.255.255.0"));
  discoverable = true;
  max_number_client = 10;
  ieee_std_mask = 4;
  min_channel_value = 1;
  max_channel_value = 14;
  channel_number = 6;
}

-- The configuration is accepted whole.
creation : create_wifi_ap_data binder some true true Value.config ≡ done (some configured)
unfolding create_wifi_ap_data fill descs set_found set_value is_no_error set_int64 same_bytes fresh
    set_host_name_parameter set_domain_name_parameter set_interface_name_parameter
    set_ssid_parameter set_pass_phrase_parameter set_security_protocol_parameter
    set_country_code_parameter set_max_number_clients set_discoverable_parameter set_ip_ap_parameter
    set_ip_start_parameter set_ip_stop_parameter set_ip_net_mask_parameter set_channel_parameter
    set_ieee_standard_parameter set_buffer set_string_copy memcpy zeroed same_text channel_bounds
creation = refl

create_wifi_ap_data_lem_example :
    (create_wifi_ap_data binder some true true Value.config ≡ done none)
    ⊎ ((w : WifiApT) × (create_wifi_ap_data binder some true true Value.config ≡ done (some w))
        × IsWellFormed w
        × IsComplete w
        × All (HasKey binder Value.config) required_keys)
create_wifi_ap_data_lem_example =
    create_wifi_ap_data_lem some binder binder-IsLawful (λ s t e. cc) true true Value.config

abbrev pub platform : Platform
platform = record {
  list = plain_list;
  env = all_well;
  binder = binder;
  strdup = some;
  info = codes "{}";
}

abbrev pub boot : BootAnswers platform
boot = record { root = some Value.root; allocated = true; event = true; launching = launching }

pub boots : binding_init platform boot ≡ done (0, some (booted platform configured))
unfolding binding_init init_from finish_init start_at_init same_bytes
boots = rw creation refl

pub platform-Reach : Reach platform (booted platform configured)
platform-Reach = Reach.initialised boot boots

Reach-IsSound_example : IsSound configured
Reach-IsSound_example = Reach-IsSound platform binder-IsLawful (λ s t e. cc) platform-Reach

-- A request of the text "6".
abbrev asking : Request platform
asking = record {
  params = Value.label Label.six ∷ [];
  launching = launching;
  stopping = stopping;
  popen = λ command. none;
  created = true;
  subscribed = true;
}

setting_verbs-Refuse_example : with_bounds_of configured configured ≡ configured
unfolding setting_verbs set_ssid single_string_set get_single_string
setting_verbs-Refuse_example =
    setting_verbs-Refuse some binder binder-IsLawful (set_ssid some binder) (Memᴰ.head refl) []
      configured configured invalid_request refl (λ e. cc)

get_single_uint32-decimal_example : get_single_uint32 binder (Value.label Label.six ∷ []) ≡ some 6
unfolding decimal digits
get_single_uint32-decimal_example =
    get_single_uint32-decimal binder (Value.label Label.six) 6 refl refl refl (omega arith)

abbrev two_stations : List Bytes
two_stations =
    codes "Station 01 (on wlan0)" ∷ codes "inactive time: 8 ms" ∷ codes "Station 02 (on wlan0)" ∷ []

getters_lem_example :
    (get_ieee_standard true configured ≡ json (number_object (codes "stdMask") 4))
    × (get_ap_number_clients (λ c. some two_stations) true configured
        ≡ done (json (number_object (codes "clients-number") (stations two_stations))))
    × (get_wifi_ap_status true configured ≡ json (codes "{\"status\":\"initializing\"}"))
unfolding stations fresh strstr starts_with
getters_lem_example =
    getters_lem configured (codes "wlan0") (λ c. some two_stations) two_stations refl refl
      (omega arith)

-- A name is taken, and a channel that mode G does not have is refused.
abbrev changes : List Change
changes = Change.ssid (codes "net") ∷ Change.channel 15 ∷ []

performs-MeetAll_example :
    (r : List Status × WifiApT) × (performs some changes configured ≡ done r)
    × MeetAll changes (view configured) r.0 (view r.1)
    × IsWellFormed r.1
unfolding ascii
performs-MeetAll_example =
    performs-MeetAll some changes configured (λ s. refl)
      (ascii-IsAscii (codes "net") refl, (omega arith, tt))
      (Reach-IsSound platform binder-IsLawful (λ s t e. cc) platform-Reach).0 (inr (inr (inl refl)))
