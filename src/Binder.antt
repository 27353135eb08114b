-- ===== src/Binder.antt =====
-- What the binding asks of the application framework (afb-binding.h, afb-req-utils.h) and of json-c:
-- an interface, and what the binding relies on. Objects of both are immutable here.
use wifiap_binding.Base.{ℕ, ◌<◌, ◌^◌, ◌≡◌, Bool, Option, some}
use wifiap_binding.Base.Bytes.{Bytes, IsCString}
use wifiap_binding.Base.Int.{ℤ}

-- `afb_data_type`: the predefined types that the binding tells apart.
pub data DataType : Type 0 where
  bool_type stringz_type json_type other_type : DataType

pub record Binder : Type 1 where
  -- `afb_data_t` and `struct json_object *`
  pub Data : Type 0
  pub Json : Type 0
  pub data_type : Data → DataType
  -- what `afb_data_ro_pointer` points to: a byte that is not 0, or a string
  pub flag : Data → Bool
  pub text : Data → Bytes
  -- `afb_req_param_convert` to JSON_C and to U32
  pub to_json : Data → Option Json
  pub to_u32 : Data → Option ℕ
  -- `json_object_get_string`, NULL for the JSON null; `json_object_is_type` and the getters behind it
  pub json_string : Json → Option Bytes
  pub is_string : Json → Bool
  pub is_boolean : Json → Bool
  pub json_boolean : Json → Bool
  pub is_int : Json → Bool
  pub json_int64 : Json → ℤ
  pub json_uint64 : Json → ℕ
  -- `json_object_object_get_ex`
  pub json_field : Json → Bytes → Option Json
  -- `rp_jsonc_unpack(obj, "{ss,ss,ss,ss !}", …)` with the keys of `setIpRange`
  pub unpack_range : Json → Option (Bytes × Bytes × Bytes × Bytes)

-- Strings have no terminator inside, and a converted number fits its type.
pub record IsLawful (B : Binder) : Type 0 where
  pub text-IsCString : (d : B.Data) → IsCString (B.text d)
  pub json_string-IsCString : (j : B.Json) (s : Bytes) → B.json_string j ≡ some s → IsCString s
  pub unpack_range-IsCString :
      (j : B.Json) (a b c d : Bytes)
      → B.unpack_range j ≡ some (a, b, c, d)
      → IsCString a × IsCString b × IsCString c × IsCString d
  pub to_u32-lt : (d : B.Data) (n : ℕ) → B.to_u32 d ≡ some n → n < 2 ^ 32
