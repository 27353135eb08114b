-- ===== src/Init/Created.antt =====
-- The structure that createWifiApData of src/wifiAp.c makes.
use mathlib.Core.Path.{subst}
use wifiap_binding.Base.{
  ◌≤◌, ◌%◌, ◌≡◌, ◌⊎◌, refl, ap, ◌∙◌, Bool, true, false, ◌&&◌, inl, inr, Option, none, some, List,
  [], ◌∷◌, All, Outcome, not, Option-cases, done, ◌==◌, Bool-cases, arith,
}
use wifiap_binding.Base.Bytes.{Bytes, codes, c_str}
use wifiap_binding.Data.Types.{WifiApT, fresh, status_init}
use wifiap_binding.Data.Calls.Buffers.{Copies}
use wifiap_binding.Data.Calls.Usable.{IsGiven}
use wifiap_binding.Data.Calls.Invariant.{IsWellFormed, fresh-IsWellFormed}
use wifiap_binding.Data.Standards.{IsIeeeMask, IsAllowedChannel}
use wifiap_binding.Binder.{Binder, IsLawful}
use wifiap_binding.Init.{Desc, set_found, descs, create_wifi_ap_data}
use wifiap_binding.Init.Filled.{descs-Sound, fill-Fills}
use wifiap_binding.Init.Rounds.{Ends, first_round}
use wifiap_binding.Init.Stages.{IsText, names_stage, texts_stage, addresses_stage, numbers_stage}

-- Every setting is there and within its bounds, and the pre-shared key is empty.
pub record IsComplete (w : WifiApT) : Type 0 where
  pub interface_name : IsGiven w.interface_name
  pub domain_name : IsGiven w.domain_name
  pub host_name : IsGiven w.host_name
  pub ssid : IsText 1 32 w.ssid
  pub passphrase : IsText 8 63 w.passphrase
  pub country_code : IsText 2 2 w.country_code
  pub ip_ap : IsText 1 15 w.ip_ap
  pub ip_start : IsText 1 15 w.ip_start
  pub ip_stop : IsText 1 15 w.ip_stop
  pub ip_netmask : IsText 1 15 w.ip_netmask
  pub preshared_key : c_str w.preshared_key ≡ []
  pub max_number_client : (1 ≤ w.max_number_client) × (w.max_number_client ≤ 1000)
  pub ieee_std_mask : IsIeeeMask w.ieee_std_mask
  pub channel_number : IsAllowedChannel (w.ieee_std_mask % 16) w.channel_number
  pub status : w.status ≡ status_init

fresh_key : c_str fresh.preshared_key ≡ []
unfolding fresh c_str
fresh_key = refl

-- All keys but `preSharedKey`.
pub required_keys : List Bytes
required_keys =
    codes "interfaceName"
    ∷ codes "domaine_name"
    ∷ codes "hostname"
    ∷ codes "ssid"
    ∷ codes "passphrase"
    ∷ codes "countryCode"
    ∷ codes "securityProtocol"
    ∷ codes "ip_ap"
    ∷ codes "ip_start"
    ∷ codes "ip_stop"
    ∷ codes "ip_netmask"
    ∷ codes "discoverable"
    ∷ codes "maxNumberClient"
    ∷ codes "IeeeStdMask"
    ∷ codes "channelNumber"
    ∷ []

abbrev key_if : Bool → Bytes → List Bytes → List Bytes
key_if true key keys = key ∷ keys
key_if false key keys = keys

mandatory_keys : List Desc → List Bytes
mandatory_keys [] = []
mandatory_keys (d ∷ ds) = key_if d.mandatory d.key (mandatory_keys ds)

module _ (B : Binder) where
  abbrev pub HasKey : B.Json → Bytes → Type 0
  HasKey obj key = (val : B.Json) × (B.json_field obj key ≡ some val)

  found_key :
      (d : Desc) (obj : B.Json) (w w1 : WifiApT) (keys : List Bytes)
      → set_found B d (B.json_field obj d.key) w ≡ done (true, w1)
      → All (HasKey obj) keys
      → All (HasKey obj) (key_if d.mandatory d.key keys)
  unfolding set_found
  found_key d obj w w1 keys found all = elim (Option-cases (B.json_field obj d.key)) [
    | inr (val, e) ↦ there d.mandatory (val, e)
    | inl missing ↦ absent d.mandatory (let r = rw missing at found in r)
  ]
    where
      there : (b : Bool) → HasKey obj d.key → All (HasKey obj) (key_if b d.key keys)
      there true has = (has, all)
      there false has = all

      absent :
          (b : Bool)
          → ◌≡◌ {A = Outcome (Bool × WifiApT)} (done (not b, w)) (done (true, w1))
          → All (HasKey obj) (key_if b d.key keys)
      absent true e = absurd cc
      absent false e = all

  Ends-HasKey :
      (ds : List Desc) (obj : B.Json) (w w' : WifiApT)
      → Ends B ds obj w w'
      → All (HasKey obj) (mandatory_keys ds)
  unfolding mandatory_keys
  Ends-HasKey [] obj w w' h = tt
  Ends-HasKey (d ∷ ds) obj w w' h =
      let (w1, found, rest) = first_round B d ds obj w w' h in
      found_key d obj w w1 (mandatory_keys ds) found (Ends-HasKey ds obj w1 w' rest)

  required_keys-HasKey :
      (strdup : Bytes → Option Bytes) (obj : B.Json) (w : WifiApT)
      → Ends B (descs strdup) obj fresh w
      → All (HasKey obj) required_keys
  unfolding descs mandatory_keys required_keys
  required_keys-HasKey strdup obj w h = Ends-HasKey (descs strdup) obj fresh w h

module _ (strdup : Bytes → Option Bytes) (B : Binder) (law : IsLawful B) where
  fill-IsComplete : (obj : B.Json) (w : WifiApT) → Ends B (descs strdup) obj fresh w → IsComplete w
  unfolding fresh
  fill-IsComplete obj w h =
      let (interface, domain, host, h1) = names_stage B law obj w strdup fresh h in
      let (ssid, pass, country, protocol, is_ssid, is_pass, is_country, h2) =
        texts_stage B law obj w _ h1 in
      let (ip_ap, ip_start, ip_stop, mask, is_ap, is_start, is_stop, is_mask, h3) =
        addresses_stage B law obj w _ h2 in
      let (flag, clients, std, channel, lo, hi, low, high, is_std, allowed, same) =
        numbers_stage B law obj w _ h3 in
      subst IsComplete same (record {
        interface_name = (interface, refl);
        domain_name = (domain, refl);
        host_name = (host, refl);
        ssid = is_ssid;
        passphrase = is_pass;
        country_code = is_country;
        ip_ap = is_ap;
        ip_start = is_start;
        ip_stop = is_stop;
        ip_netmask = is_mask;
        preshared_key = fresh_key;
        max_number_client = (low, high);
        ieee_std_mask = is_std;
        channel_number = allowed;
        status = refl;
      })

  -- `createWifiApData` always returns: nothing, or well-formed settings of which each is present and
  -- within its documented bounds, with an empty pre-shared key and the status "initializing". It makes
  -- settings only of an object that has all keys but `preSharedKey`, `ssid` and the addresses too.
  pub create_wifi_ap_data_lem :
      Copies strdup
      → (allocated event : Bool) (obj : B.Json)
      → (create_wifi_ap_data B strdup allocated event obj ≡ done none)
        ⊎ ((w : WifiApT) × (create_wifi_ap_data B strdup allocated event obj ≡ done (some w))
            × IsWellFormed w
            × IsComplete w
            × All (HasKey B obj) required_keys)
  unfolding create_wifi_ap_data
  create_wifi_ap_data_lem copies false event obj = inl refl
  create_wifi_ap_data_lem copies true event obj =
      let ((err, w), runs, h) =
        fill-Fills B law (descs strdup) obj 0 fresh (descs-Sound strdup copies)
          fresh-IsWellFormed in
      elim (Bool-cases (err == 0 && event)) [
        | inl good ↦
            let none_counted : err ≡ 0 = ground arith in
            let ends = runs ∙ ap (λ n. done (n, w)) none_counted in
            inr (
              w,
              rw runs (rw good refl),
              h,
              fill-IsComplete obj w ends,
              required_keys-HasKey B strdup obj w ends,
            )
        | inr bad ↦ inl (rw runs (rw bad refl))
      ]
