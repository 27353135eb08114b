-- ===== src/Replies.antt =====
-- What the verbs of src/wifiAp.c reply: `afb_req_reply` and `afb_req_reply_string` with the codes 0,
-- `AFB_USER_ERRNO(n)`, `AFB_ERRNO_INVALID_REQUEST` and `AFB_ERRNO_INTERNAL_ERROR`.
use wifiap_binding.Base.{ℕ}
use wifiap_binding.Base.Bytes.{Bytes}

pub data Reply : Type 0 where
  success : Reply
  -- 0, with one JSON text
  json : Bytes → Reply
  user_error : ℕ → Reply
  user_error_string : ℕ → Bytes → Reply
  invalid_request : Reply
  invalid_request_string : Bytes → Reply
  internal_error : Reply
