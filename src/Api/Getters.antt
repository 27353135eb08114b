-- ===== src/Api/Getters.antt =====
-- The verbs of src/wifiAp.c that read, and the subscriptions.
use wifiap_binding.Base.{
  ℕ, ◌+◌, ◌%◌, ◌^◌, ◌++◌, Bool, Option, none, some, List, [], ◌∷◌, Outcome, done, ◌>>=◌,
  if◌then◌else◌,
}
use wifiap_binding.Base.Bytes.{Bytes, codes}
use wifiap_binding.Data.Types.{
  WifiApT, ApStatus, status_init, status_started, status_stopped, status_fail,
}
use wifiap_binding.Replies.{Reply, success, invalid_request, invalid_request_string, internal_error}
use wifiap_binding.Binder.{Binder}
use wifiap_binding.Requests.{get_single_string, reply_single_key_uint32, reply_single_key_string}
use wifiap_binding.System.Format.{snprintf}
use wifiap_binding.Ap.{text_of, path_max}
use wifiap_binding.Ap.Clients.{strstr}

-- The strings behind the pointers of `status`.
abbrev pub status_text : ApStatus → Bytes
status_text status_init = codes "initializing"
status_text status_started = codes "started"
status_text status_stopped = codes "stopped"
status_text status_fail = codes "failure"

-- `subscribe` and `unsubscribe`: the name is read and not used; the framework's answer is `ok`.
unfoldable pub subscribe : (B : Binder) → Bool → List B.Data → Reply
subscribe B ok params = elim (get_single_string B params) [
  | none ↦ invalid_request
  | some name ↦ if ok then success else internal_error
]

unfoldable pub get_ieee_standard : Bool → WifiApT → Reply
get_ieee_standard created w = reply_single_key_uint32 created (codes "stdMask") w.ieee_std_mask

-- The loop over the lines of `iw dev … station dump`. The count is an
-- `int` of the source, and is that `int` below 2 ^ 31.
unfoldable pub count_stations : List Bytes → ℕ → ℕ
count_stations [] n = n
count_stations (line ∷ lines) n =
    count_stations lines (if strstr line (codes "Station ") then n + 1 else n)

-- The answer to `popen` is a parameter: the lines of the pipe, or NULL.
unfoldable pub get_ap_number_clients :
    (Bytes → Option (List Bytes)) → Bool → WifiApT → Outcome Reply
unfolding count_stations
get_ap_number_clients popen created w = text_of w.interface_name >>= λ interface.
    elim (popen (snprintf path_max (codes "iw dev " ++ interface ++ codes " station dump"))) [
      | none ↦ done (
          invalid_request_string
            (codes "Failed to get the number of clients connected to an access point!"))
      | some lines ↦ done (
          reply_single_key_uint32 created (codes "clients-number")
            (count_stations lines 0 % 2 ^ 32))
    ]

unfoldable pub get_wifi_ap_status : Bool → WifiApT → Reply
get_wifi_ap_status created w =
    reply_single_key_string created (codes "status") (status_text w.status)
