-- ===== src/Api/Answers.antt =====
-- What the reading verbs of src/wifiAp.c reply.
use wifiap_binding.Base.{
  ℕ, ◌+◌, ◌<◌, ◌≤◌, ◌^◌, ◌%◌, ◌≡◌, refl, ◌++◌, Bool, true, Option, some, List, [], ◌∷◌, done,
  length, length-append, ltb, if◌then◌else◌, arith, Bool-cases, inl, inr, ap,
}
use wifiap_binding.Base.Bytes.{Bytes, codes}
use wifiap_binding.System.Format.{decimal, length-decimal, snprintf}
use wifiap_binding.Data.Types.{
  WifiApT, ApStatus, status_init, status_started, status_stopped, status_fail,
}
use wifiap_binding.Replies.{json, internal_error}
use wifiap_binding.Requests.{reply_text, reply_single_key_uint32, reply_single_key_string}
use wifiap_binding.Ap.{path_max}
use wifiap_binding.Ap.Clients.{strstr}
use wifiap_binding.Api.Getters.{
  status_text, get_ieee_standard, count_stations, get_ap_number_clients, get_wifi_ap_status,
}

-- The JSON object with one number.
abbrev pub number_object : Bytes → ℕ → Bytes
number_object key n = codes "{\"" ++ key ++ codes "\":" ++ decimal n ++ codes "}"

-- A text that fits is replied whole, if the framework can make its copy.
reply_text_fits :
    (created : Bool) (size : ℕ) (text : Bytes)
    → 0 < length text
    → length text < size
    → reply_text created size text ≡ (if created then json text else internal_error)
unfolding reply_text
reply_text_fits created size text some_text fits =
    let a : ltb 0 (length text) ≡ true = ground arith in
    let b : ltb (length text) size ≡ true = ground arith in rw a (rw b refl)

length-number_object :
    (key : Bytes) (n : ℕ)
    → (0 < length (number_object key n)) × (length (number_object key n) ≤ length key + 25)
length-number_object key n =
    let a = length-append (codes "{\"" ++ key ++ codes "\":" ++ decimal n) (codes "}") in
    let b = length-append (codes "{\"" ++ key ++ codes "\":") (decimal n) in
    let c = length-append (codes "{\"" ++ key) (codes "\":") in
    let d = length-append (codes "{\"") key in
    let e = length-decimal n in (omega (arith, a, b, c, d), omega (arith, a, b, c, d, e))

-- A number below a short key always fits the buffer of 100 bytes.
reply_number :
    (created : Bool) (key : Bytes) (n : ℕ)
    → length key < 75
    → reply_single_key_uint32 created key n
      ≡ (if created then json (number_object key n) else internal_error)
unfolding reply_single_key_uint32
reply_number created key n short =
    let (some_text, fits) = length-number_object key n in
    reply_text_fits created 100 (number_object key n) some_text (omega (arith, fits))

-- The number of lines that name a station.
unfoldable pub stations : List Bytes → ℕ
stations [] = 0
stations (line ∷ lines) =
    let rest = stations lines in if strstr line (codes "Station ") then rest + 1 else rest

count_stations-stations : (lines : List Bytes) (n : ℕ) → count_stations lines n ≡ n + stations lines
unfolding count_stations stations
count_stations-stations [] n = omega arith
count_stations-stations (line ∷ lines) n = elim (Bool-cases (strstr line (codes "Station "))) [
  | inl station ↦ rw station (omega (arith, count_stations-stations lines (n + 1)))
  | inr other ↦ rw other (count_stations-stations lines n)
]

reply_status :
    (st : ApStatus)
    → reply_single_key_string true (codes "status") (status_text st)
      ≡ json (codes "{\"status\":\"" ++ status_text st ++ codes "\"}")
unfolding reply_single_key_string reply_text
reply_status status_init = refl
reply_status status_started = refl
reply_status status_stopped = refl
reply_status status_fail = refl

-- The three verbs that read the settings and the driver reply, for a created copy, one JSON object,
-- never cut off: the mask in decimal, the number of lines of the pipe that name a station, and the name of the status.
-- The count is for an interface that has its name and a pipe of fewer than 2 ^ 32 lines of stations that could be opened.
pub getters_lem :
    (w : WifiApT) (name : Bytes) (popen : Bytes → Option (List Bytes)) (lines : List Bytes)
    → w.interface_name ≡ some name
    → popen (snprintf path_max (codes "iw dev " ++ name ++ codes " station dump")) ≡ some lines
    → stations lines < 2 ^ 32
    → (get_ieee_standard true w ≡ json (number_object (codes "stdMask") w.ieee_std_mask))
      × (get_ap_number_clients popen true w
          ≡ done (json (number_object (codes "clients-number") (stations lines))))
      × (get_wifi_ap_status true w
          ≡ json (codes "{\"status\":\"" ++ status_text w.status ++ codes "\"}"))
unfolding get_ieee_standard get_ap_number_clients get_wifi_ap_status
getters_lem w name popen lines named opened few =
    let counted : count_stations lines 0 % 2 ^ 32 ≡ stations lines =
      omega (arith, count_stations-stations lines 0) in
    (
      reply_number true (codes "stdMask") w.ieee_std_mask (omega arith),
      rw (get_ap_number_clients, named)
          (rw (get_ap_number_clients, opened)
            (rw counted (
              ap done
                (reply_number true (codes "clients-number") (stations lines) (omega arith))))),
      reply_status w.status,
    )
