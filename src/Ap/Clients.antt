-- ===== src/Ap/Clients.antt =====
-- `WifiApThreadMainFunc` of src/wifiAp.c: the loop over the lines of `iw event`, and the events that
-- it pushes. The count is an `int` of the source: an integer here, which
-- is the count of the source as long as it stays within 32 bits.
use wifiap_binding.Base.{
  zero, suc, ◌+◌, ◌++◌, Bool, true, false, ◌&&◌, ◌||◌, Option, none, some, List, [], ◌∷◌, ◌==◌,
  if◌then◌else◌, take,
}
use wifiap_binding.Base.Int.{ℤ, pos, negsuc}
use wifiap_binding.Base.Bytes.{Bytes, codes, c_str, terminated}

unfoldable pub increment : ℤ → ℤ
increment (pos n) = pos (n + 1)
increment (negsuc zero) = pos 0
increment (negsuc (suc n)) = negsuc n

unfoldable pub decrement : ℤ → ℤ
decrement (pos zero) = negsuc 0
decrement (pos (suc n)) = pos n
decrement (negsuc n) = negsuc (n + 1)

-- `strstr(haystack, needle) != NULL`
unfoldable pub starts_with : Bytes → Bytes → Bool
starts_with s [] = true
starts_with [] (c ∷ needle) = false
starts_with (d ∷ s) (c ∷ needle) = d == c && starts_with s needle

unfoldable pub strstr : Bytes → Bytes → Bool
strstr [] needle = starts_with [] needle
strstr (c ∷ s) needle = starts_with (c ∷ s) needle || strstr s needle

-- `strtok_r(path, ":", …)`: the first part between colons that is not empty.
unfoldable pub until_colon : Bytes → Bytes
until_colon [] = []
until_colon (c ∷ s) = let rest = until_colon s in if c == b':' then [] else c ∷ rest

unfoldable pub strtok : Bytes → Option Bytes
strtok [] = none
strtok (c ∷ s) =
    let rest = strtok s in let word = until_colon s in if c == b':' then rest else some (c ∷ word)

-- What `push_json_event` sends.
pub record ClientEvent : Type 0 where
  pub event : Bytes
  pub number_client : ℤ

-- `eventInfo` after the `memcpy` of 22 bytes and the terminator behind them.
unfoldable pub event_info : Bytes → Bytes
event_info text = c_str (take 22 (terminated text) ++ 0 ∷ [])

-- The test that the first word names the interface; where there is no word it only warns.
unfoldable pub is_on_interface : Bytes → Bytes → Bool
is_on_interface interface line = elim (strtok line) [
  | none ↦ false
  | some word ↦ strstr word interface
]

-- One round of the loop: the count and the event that it pushes.
unfoldable pub handle_line : Bytes → Bytes → ℤ → ℤ × Option ClientEvent
handle_line interface line n =
    if strstr line (codes "del station")
    then (if is_on_interface interface line
        then (
          decrement n,
          some (record {
            event = event_info (codes "WiFi client disconnected");
            number_client = decrement n;
          }),
        )
        else (n, none))
    else if strstr line (codes "new station")
    then (if is_on_interface interface line
        then (
          increment n,
          some (record {
            event = event_info (codes "WiFi client connected");
            number_client = increment n;
          }),
        )
        else (n, none))
    else (n, none)

abbrev pub push : Option ClientEvent → List ClientEvent → List ClientEvent
push none events = events
push (some e) events = e ∷ events

-- The loop, over the lines up to the end of the pipe.
unfoldable pub main_loop : Bytes → List Bytes → ℤ → ℤ × List ClientEvent
main_loop interface [] n = (n, [])
main_loop interface (line ∷ lines) n =
    let (n1, event) = handle_line interface line n in
    let (n2, events) = main_loop interface lines n1 in (n2, push event events)
