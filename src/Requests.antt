-- ===== src/Requests.antt =====
-- src/wifiAp.c: the decoding of the parameters of a request, and the replies with one value. A
-- function that returns false has replied `AFB_ERRNO_INVALID_REQUEST`: it gives `none` here.
pub mod Bounds
pub mod RoundTrip
use wifiap_binding.Base.{
  ℕ, ◌++◌, ◌<◌, Bool, true, false, not, ◌&&◌, ◌||◌, Option, none, some, List, [], ◌∷◌, Outcome,
  done, fault, ◌>>=◌, ◌==◌, ltb, leb, if◌then◌else◌, length,
}
use wifiap_binding.Base.Bytes.{Bytes, codes, same_bytes}
use wifiap_binding.System.Format.{decimal}
use wifiap_binding.System.Scan.{strtoul}
use wifiap_binding.Data.Types.{
  WifiApT, Status, no_error, error_too_small, error_too_large, magnitude,
}
use wifiap_binding.Replies.{Reply, success, json, user_error, invalid_request, internal_error}
use wifiap_binding.Binder.{Binder, DataType, bool_type, stringz_type, json_type, other_type}

abbrev pub uint32_max : ℕ
uint32_max = 0xFFFFFFFF

abbrev pub is_bool : DataType → Bool
is_bool bool_type = true
is_bool _ = false

abbrev pub is_stringz : DataType → Bool
is_stringz stringz_type = true
is_stringz _ = false

abbrev pub is_json : DataType → Bool
is_json json_type = true
is_json _ = false

-- The first value, or else the second.
abbrev pub or_else {ℓ} : {A : Type ℓ} → Option A → Option A → Option A
or_else none b = b
or_else (some a) b = some a

abbrev pub and_then {ℓ κ} : {A : Type ℓ} {B : Type κ} → Option A → (A → Option B) → Option B
and_then none f = none
and_then (some a) f = f a

abbrev pub is_empty : Bytes → Bool
is_empty [] = true
is_empty (c ∷ s) = false

-- The `strcmp` tests.
unfoldable pub boolean_of_text : Bytes → Option Bool
boolean_of_text s =
    if same_bytes s (codes "true")
    then some true
    else if same_bytes s (codes "false")
    then some false
    else none

unfoldable pub uint32_of_text : Bytes → Option ℕ
uint32_of_text str =
    let (v, end) = strtoul str in if is_empty end && leb v uint32_max then some v else none

module _ (B : Binder) where
  open B use {Data, Json}

  unfoldable pub get_single_jsonc : List Data → Option Json
  get_single_jsonc (d ∷ []) = B.to_json d
  get_single_jsonc _ = none

  -- The string is NULL for a JSON null.
  unfoldable pub get_single_string : List Data → Option (Option Bytes)
  get_single_string (d ∷ []) =
      if is_stringz (B.data_type d)
      then some (some (B.text d))
      else and_then (B.to_json d) (λ j. some (B.json_string j))
  get_single_string _ = none

  unfoldable pub get_single_boolean : List Data → Option Bool
  unfolding boolean_of_text
  get_single_boolean (d ∷ []) =
      if is_bool (B.data_type d)
      then some (B.flag d)
      else or_else
          (if is_stringz (B.data_type d) || is_json (B.data_type d)
            then boolean_of_text (B.text d)
            else none)
          (and_then (B.to_json d) (λ j. if B.is_boolean j then some (B.json_boolean j) else none))
  get_single_boolean _ = none

  unfoldable pub uint32_of_json : Json → Option ℕ
  uint32_of_json j =
      if B.is_int j && leb (B.json_uint64 j) uint32_max then some (B.json_uint64 j) else none

  unfoldable pub get_single_uint32 : List Data → Option ℕ
  unfolding uint32_of_text uint32_of_json
  get_single_uint32 (d ∷ []) = or_else (B.to_u32 d) (
      or_else
        (if is_stringz (B.data_type d) || is_json (B.data_type d)
          then uint32_of_text (B.text d)
          else none)
        (and_then (B.to_json d) uint32_of_json))
  get_single_uint32 _ = none

-- The `switch` of `single_string_set` on the status of the setter.
unfoldable pub reply_of_string_set : Status → Reply
reply_of_string_set no_error = success
reply_of_string_set error_too_small = invalid_request
reply_of_string_set error_too_large = invalid_request
reply_of_string_set _ = internal_error

-- The code of `single_uint32_set`, and of the verbs that reply like it.
unfoldable pub reply_of_uint32_set : Status → Reply
reply_of_uint32_set no_error = success
reply_of_uint32_set sts = user_error (magnitude sts)

module _ (B : Binder) where
  unfoldable pub single_string_set :
      (WifiApT → Option Bytes → Outcome (Status × WifiApT))
      → List B.Data
      → WifiApT
      → Outcome (Reply × WifiApT)
  single_string_set set params w = elim (get_single_string B params) [
    | none ↦ done (invalid_request, w)
    | some str ↦ set w str >>= λ r. done (reply_of_string_set r.0, r.1)
  ]

  unfoldable pub single_uint32_set :
      (WifiApT → ℕ → Status × WifiApT) → List B.Data → WifiApT → Reply × WifiApT
  single_uint32_set set params w = elim (get_single_uint32 B params) [
    | none ↦ (invalid_request, w)
    | some u32 ↦ let (sts, w') = set w u32 in (reply_of_uint32_set sts, w')
  ]

-- `snprintf` into `size` bytes and the reply; `created` tells if `afb_create_data_copy` succeeds.
unfoldable pub reply_text : Bool → ℕ → Bytes → Reply
reply_text created size text =
    if ltb 0 (length text) && ltb (length text) size && created then json text else internal_error

unfoldable pub reply_single_key_uint32 : Bool → Bytes → ℕ → Reply
unfolding reply_text
reply_single_key_uint32 created key value =
    reply_text created 100 (codes "{\"" ++ key ++ codes "\":" ++ decimal value ++ codes "}")

unfoldable pub reply_single_key_string : Bool → Bytes → Bytes → Reply
unfolding reply_text
reply_single_key_string created key value =
    reply_text created 200 (codes "{\"" ++ key ++ codes "\":\"" ++ value ++ codes "\"}")
