-- ===== src/Api/Asked.antt =====
-- What the setting verbs of src/wifiAp.c ask for, by the name they have in the table of verbs.
pub mod Verbs
use wifiap_binding.Base.{ℕ, Bool, Option, none, some, List, [], ◌∷◌, if◌then◌else◌}
use wifiap_binding.Base.Bytes.{Bytes, codes, same_bytes}
use wifiap_binding.Data.Types.{Status}
use wifiap_binding.Data.Calls.{Call}
use wifiap_binding.Replies.{Reply}
use wifiap_binding.Binder.{Binder}
use wifiap_binding.Requests.{
  and_then, get_single_jsonc, get_single_string, get_single_boolean, get_single_uint32,
  reply_of_string_set, reply_of_uint32_set,
}

-- What a client can set.
pub data Setting : Type 0 where
  ssid interface_name host_name domain_name pass_phrase discoverable ieee_standard : Setting
  channel security_protocol pre_shared_key ip_range country_code max_clients : Setting

-- The name of the verb that sets it.
pub verb_name : Setting → Bytes
verb_name ssid = codes "setSsid"
verb_name interface_name = codes "setInterfaceName"
verb_name host_name = codes "setHostName"
verb_name domain_name = codes "setDomainName"
verb_name pass_phrase = codes "setPassPhrase"
verb_name discoverable = codes "setDiscoverable"
verb_name ieee_standard = codes "setIeeeStandard"
verb_name channel = codes "setChannel"
verb_name security_protocol = codes "setSecurityProtocol"
verb_name pre_shared_key = codes "setPreSharedKey"
verb_name ip_range = codes "setIpRange"
verb_name country_code = codes "setCountryCode"
verb_name max_clients = codes "SetMaxNumberClients"

-- How it tells the statuses of the setter.
pub reply_of : Setting → Status → Reply
reply_of discoverable = reply_of_uint32_set
reply_of ieee_standard = reply_of_uint32_set
reply_of channel = reply_of_uint32_set
reply_of ip_range = reply_of_uint32_set
reply_of max_clients = reply_of_uint32_set
reply_of _ = reply_of_string_set

-- The first entry of a table with the name.
pub found {ℓ} : {A : Type ℓ} → Bytes → List (Bytes × A) → Option A
found name [] = none
found name ((n, a) ∷ table) = if same_bytes n name then some a else found name table

module _ (B : Binder) where
  pub text_call : (Option Bytes → Call) → List B.Data → Option Call
  text_call call params = and_then (get_single_string B params) (λ s. some (call s))

  pub flag_call : (Bool → Call) → List B.Data → Option Call
  flag_call call params = and_then (get_single_boolean B params) (λ b. some (call b))

  pub number_call : (ℕ → Call) → List B.Data → Option Call
  number_call call params = and_then (get_single_uint32 B params) (λ n. some (call n))

  pub range_call : Option (Bytes × Bytes × Bytes × Bytes) → Option Call
  range_call none = none
  range_call (some (a, start, stop, mask)) =
      some (Call.ip_range (some a) (some start) (some stop) (some mask))

  -- The call of a setter that the parameters ask for, where they are of the type of the verb.
  pub asked : Setting → List B.Data → Option Call
  asked ssid = text_call Call.ssid
  asked interface_name = text_call Call.interface_name
  asked host_name = text_call Call.host_name
  asked domain_name = text_call Call.domain_name
  asked pass_phrase = text_call Call.pass_phrase
  asked discoverable = flag_call Call.discoverable
  asked ieee_standard = number_call Call.ieee_standard
  asked channel = number_call Call.channel
  asked security_protocol = text_call Call.security_protocol
  asked pre_shared_key = text_call Call.pre_shared_key
  asked ip_range =
      λ params. and_then (get_single_jsonc B params) (λ j. range_call (B.unpack_range j))
  asked country_code = text_call Call.country_code
  asked max_clients = number_call Call.max_clients
