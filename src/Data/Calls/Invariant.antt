-- ===== src/Data/Calls/Invariant.antt =====
-- The invariant of the structure, and that every setter keeps it.
use wifiap_binding.Base.{
  ℕ, ◌^◌, ◌≤◌, ◌<◌, ◌≡◌, ◌⊎◌, refl, inl, inr, Option, none, some, length, arith, Outcome, done,
  fault, null_pointer, read_out_of_bounds, ◌>>=◌, Bool-cases, ltb, suc, replicate, length-replicate,
  ◌||◌,
}
use wifiap_binding.Base.Bytes.{Bytes, IsBuffer, terminated, c_str}
use wifiap_binding.Utf8
use wifiap_binding.Utf8.{Copied}
use wifiap_binding.Utf8.Copy.{StaysInBuffer, copy-StaysInBuffer}
use wifiap_binding.Data.Types.{WifiApT, Status, fresh, wifi_ap_max_users}
use wifiap_binding.Data.Setters.{
  set_host_name_parameter, set_domain_name_parameter, set_interface_name_parameter,
  set_ssid_parameter, set_pass_phrase_parameter, set_pre_shared_key_parameter,
  set_security_protocol_parameter, set_country_code_parameter, set_max_number_clients,
  set_discoverable_parameter, copy_ip_range, set_ip_range_parameters, set_ip_ap_parameter,
  set_ip_start_parameter, set_ip_stop_parameter, set_ip_net_mask_parameter, too_short, too_long,
}
use wifiap_binding.Data.Radio.{channel_bounds, set_channel_parameter, set_ieee_standard_parameter}
use wifiap_binding.Data.Calls.Defs.{Call, perform, IsCall}
use wifiap_binding.Data.Calls.Buffers.{IsName, Copies, set_buffer-IsBuffer, set_string_copy-IsName}

-- The pairs of channel bounds that the code sets, and that of a zeroed structure.
abbrev pub IsBounds : ℕ → ℕ → Type 0
IsBounds lo hi =
    ((lo ≡ 0) × (hi ≡ 0)) ⊎ ((lo ≡ 7) × (hi ≡ 196)) ⊎ ((lo ≡ 1) × (hi ≡ 14)) ⊎ ((lo ≡ 1) × (hi ≡ 6))

pub record IsWellFormed (w : WifiApT) : Type 0 where
  pub interface_name : IsName w.interface_name
  pub domain_name : IsName w.domain_name
  pub host_name : IsName w.host_name
  pub ssid : IsBuffer 33 w.ssid
  pub ip_ap : IsBuffer 16 w.ip_ap
  pub ip_start : IsBuffer 16 w.ip_start
  pub ip_stop : IsBuffer 16 w.ip_stop
  pub ip_netmask : IsBuffer 16 w.ip_netmask
  pub passphrase : IsBuffer 64 w.passphrase
  pub preshared_key : IsBuffer 65 w.preshared_key
  pub country_code : IsBuffer 3 w.country_code
  pub bounds : IsBounds w.min_channel_value w.max_channel_value
  pub channel_number : w.channel_number ≤ 196
  pub max_number_client : w.max_number_client ≤ wifi_ap_max_users
  pub ieee_std_mask : w.ieee_std_mask < 2 ^ 32

-- The call returns a result with the property, or it stops at a NULL or past the end of a string.
abbrev pub Returns : {A : Type 0} → (A → Type 0) → Outcome A → Type 0
Returns P (done a) = P a
Returns P (fault e) = (e ≡ null_pointer) ⊎ (e ≡ read_out_of_bounds)

-- It keeps the invariant, whether it reports an error or not, and never writes outside a field.
abbrev pub Keeps : Outcome (Status × WifiApT) → Type 0
Keeps = Returns (λ r. IsWellFormed r.1)

Returns-bind :
    {A B : Type 0} (P : A → Type 0) (Q : B → Type 0) (m : Outcome A) (f : A → Outcome B)
    → Returns P m
    → ((a : A) → P a → Returns Q (f a))
    → Returns Q (m >>= f)
Returns-bind P Q (done a) f h k = k a h
Returns-bind P Q (fault e) f h k = h

abbrev Fits : ℕ → Copied → Type 0
Fits n r = IsBuffer n r.dest

copied-Fits : (n : ℕ) (o : Outcome Copied) → StaysInBuffer n o → Returns (Fits n) o
copied-Fits n (done r) h = h.0
copied-Fits n (fault e) h = inr h

copy-Fits :
    (n : ℕ) (dest s : Bytes) → IsBuffer n dest → Returns (Fits n) (Utf8.copy dest (terminated s) n)
copy-Fits n dest s b =
    copied-Fits n _
      (copy-StaysInBuffer dest (terminated s) n b.size (omega (arith, b.has_terminator)))

zeros-IsBuffer : (n : ℕ) → IsBuffer (suc n) (replicate (suc n) 0)
unfolding c_str
zeros-IsBuffer n = record { size = length-replicate (suc n) 0; has_terminator = omega arith }

-- The structure that `createWifiApData` starts from meets the invariant.
pub fresh-IsWellFormed : IsWellFormed fresh
unfolding fresh
fresh-IsWellFormed = record {
  interface_name = tt;
  domain_name = tt;
  host_name = tt;
  ssid = zeros-IsBuffer 32;
  ip_ap = zeros-IsBuffer 15;
  ip_start = zeros-IsBuffer 15;
  ip_stop = zeros-IsBuffer 15;
  ip_netmask = zeros-IsBuffer 15;
  passphrase = zeros-IsBuffer 63;
  preshared_key = zeros-IsBuffer 64;
  country_code = zeros-IsBuffer 2;
  bounds = inl (refl, refl);
  channel_number = omega arith;
  max_number_client = omega arith;
  ieee_std_mask = omega arith;
}

module _ (w : WifiApT) (h : IsWellFormed w) where
  pub channel-Keeps : (n : ℕ) → IsWellFormed (set_channel_parameter w n).1
  unfolding set_channel_parameter channel_bounds
  channel-Keeps n = ground arith

  pub ieee_standard-Keeps : (m : ℕ) → m < 2 ^ 32 → IsWellFormed (set_ieee_standard_parameter w m).1
  unfolding set_ieee_standard_parameter
  ieee_standard-Keeps m lt = ground arith

  pub max_clients-Keeps : (n : ℕ) → IsWellFormed (set_max_number_clients w n).1
  unfolding set_max_number_clients
  max_clients-Keeps n = ground arith

  security_protocol-Keeps : (s : Option Bytes) → Keeps (set_security_protocol_parameter w s)
  unfolding set_security_protocol_parameter
  security_protocol-Keeps none = h
  security_protocol-Keeps (some s) = ground arith

  pre_shared_key-Keeps : (s : Option Bytes) → Keeps (set_pre_shared_key_parameter w s)
  unfolding set_pre_shared_key_parameter
  pre_shared_key-Keeps none = inl refl
  pre_shared_key-Keeps (some s) = elim (Bool-cases (ltb 64 (length s))) [
    | inl long ↦ rw long h
    | inr fits ↦ rw fits (
        Returns-bind (Fits 65) (λ r. IsWellFormed r.1) _ _
          (copy-Fits 65 w.preshared_key s h.preshared_key) (λ r b. assumption b))
  ]

  copy_ip_range-Keeps :
      (ap start stop mask : Bytes) → Returns IsWellFormed (copy_ip_range w ap start stop mask)
  unfolding copy_ip_range
  copy_ip_range-Keeps ap start stop mask =
      Returns-bind (Fits 16) IsWellFormed _ _ (copy-Fits 16 w.ip_ap ap h.ip_ap) λ r1 b1.
        Returns-bind (Fits 16) IsWellFormed _ _ (copy-Fits 16 w.ip_start start h.ip_start) λ r2 b2.
          Returns-bind (Fits 16) IsWellFormed _ _ (copy-Fits 16 w.ip_stop stop h.ip_stop) λ r3 b3.
            Returns-bind (Fits 16) IsWellFormed _ _ (copy-Fits 16 w.ip_netmask mask h.ip_netmask)
              λ r4 b4. assumption (b1, b2, b3, b4)

  ip_range-Keeps :
      (ap start stop mask : Option Bytes) → Keeps (set_ip_range_parameters w ap start stop mask)
  unfolding set_ip_range_parameters
  ip_range-Keeps none start stop mask = inl refl
  ip_range-Keeps (some ap) none stop mask = inl refl
  ip_range-Keeps (some ap) (some start) none mask = inl refl
  ip_range-Keeps (some ap) (some start) (some stop) none = inl refl
  ip_range-Keeps (some ap) (some start) (some stop) (some mask) =
      elim (Bool-cases (too_short ap || too_short start || too_short stop || too_short mask)) [
        | inl short ↦ rw short h
        | inr enough ↦
            rw enough
              (elim (Bool-cases (too_long ap || too_long start || too_long stop || too_long mask)) [
                | inl long ↦ rw long h
                | inr fits ↦ rw fits (
                    Returns-bind IsWellFormed (λ r. IsWellFormed r.1) _ _
                      (copy_ip_range-Keeps ap start stop mask) (λ w' b. b))
              ])
      ]

-- Every setter called with C strings, in a structure that meets the invariant, returns with the
-- invariant kept, or stops at a NULL or at a read past the end of a string: no array overflows or
-- loses its terminator, and the counts stay in their ranges.
pub perform-Keeps :
    (strdup : Bytes → Option Bytes) (c : Call) (w : WifiApT)
    → Copies strdup
    → IsCall c
    → IsWellFormed w
    → Keeps (perform strdup c w)
unfolding perform set_host_name_parameter set_domain_name_parameter set_interface_name_parameter
    set_ssid_parameter set_pass_phrase_parameter set_country_code_parameter
    set_discoverable_parameter set_ip_ap_parameter set_ip_start_parameter set_ip_stop_parameter
    set_ip_net_mask_parameter
perform-Keeps strdup (Call.host_name s) w law a h =
    assumption (set_string_copy-IsName strdup w.host_name s law a h.host_name)
perform-Keeps strdup (Call.domain_name s) w law a h =
    assumption (set_string_copy-IsName strdup w.domain_name s law a h.domain_name)
perform-Keeps strdup (Call.interface_name s) w law a h =
    assumption (set_string_copy-IsName strdup w.interface_name s law a h.interface_name)
perform-Keeps strdup (Call.ssid s) w law a h =
    assumption (set_buffer-IsBuffer w.ssid s 1 32 a h.ssid)
perform-Keeps strdup (Call.pass_phrase s) w law a h =
    assumption (set_buffer-IsBuffer w.passphrase s 8 63 a h.passphrase)
perform-Keeps strdup (Call.pre_shared_key s) w law a h = pre_shared_key-Keeps w h s
perform-Keeps strdup (Call.security_protocol s) w law a h = security_protocol-Keeps w h s
perform-Keeps strdup (Call.country_code s) w law a h =
    assumption (set_buffer-IsBuffer w.country_code s 2 2 a h.country_code)
perform-Keeps strdup (Call.ip_ap s) w law a h =
    assumption (set_buffer-IsBuffer w.ip_ap s 1 15 a h.ip_ap)
perform-Keeps strdup (Call.ip_start s) w law a h =
    assumption (set_buffer-IsBuffer w.ip_start s 1 15 a h.ip_start)
perform-Keeps strdup (Call.ip_stop s) w law a h =
    assumption (set_buffer-IsBuffer w.ip_stop s 1 15 a h.ip_stop)
perform-Keeps strdup (Call.ip_net_mask s) w law a h =
    assumption (set_buffer-IsBuffer w.ip_netmask s 1 15 a h.ip_netmask)
perform-Keeps strdup (Call.ip_range ap start stop mask) w law a h =
    ip_range-Keeps w h ap start stop mask
perform-Keeps strdup (Call.channel n) w law a h = channel-Keeps w h n
perform-Keeps strdup (Call.ieee_standard m) w law a h = ieee_standard-Keeps w h m a
perform-Keeps strdup (Call.max_clients n) w law a h = max_clients-Keeps w h n
perform-Keeps strdup (Call.discoverable b) w law a h = assumption
