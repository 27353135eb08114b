-- ===== src/Tests.antt =====
-- Runs of the development on concrete inputs, one for each general theorem.
pub mod ApTests
pub mod ApiTests
pub mod EventTests
pub mod ServedTests
pub mod FileTests
use wifiap_binding.Base.{
  ℕ, zero, suc, ◌+◌, ◌<◌, ◌≡◌, ◌≢◌, ◌⊎◌, inl, inr, refl, ◌++◌, Bool, true, false, Option, none,
  some, List, [], ◌∷◌, Outcome, done, fault, ◌↔◌, read_out_of_bounds, use_after_free, deadlock,
  length, arith, All, ◌==◌, if◌then◌else◌,
}
use Prim.Native.Nat.{bit_and}
use wifiap_binding.Base.Bytes.{Bytes, codes, c_str, terminated, zeroed, IsCString}
use wifiap_binding.Utf8
use wifiap_binding.Utf8.{Copied, le_ok, copy, append, num_bytes_in_char}
use wifiap_binding.Utf8.Copy.{StaysInBuffer, copy-StaysInBuffer}
use wifiap_binding.Utf8.Characters.{join, fitting, copied, status_for, copy-join, IsCharacter}
use wifiap_binding.Utf8.Append.{append-join}
use wifiap_binding.Utf8.Ascii.{IsAscii, ascii, ascii-IsAscii, IsAscii-IsCString}
use wifiap_binding.Netmask.{to_cidr, mask_text, to_cidr-mask_text}
use wifiap_binding.Data.Types.{WifiApT, Status, fresh, no_error}
use wifiap_binding.Data.{
  set_buffer, set_ssid_parameter, set_ip_range_parameters, set_pre_shared_key_parameter,
}
use wifiap_binding.Data.{set_channel_parameter, set_ieee_standard_parameter}
use wifiap_binding.Data.Calls.Defs
use wifiap_binding.Data.Calls.Defs.{Call, perform}
use wifiap_binding.Data.Calls.Invariant.{IsWellFormed, fresh-IsWellFormed, Keeps, perform-Keeps}
use wifiap_binding.Data.Calls.Rejection.{Kept, perform-Kept}
use wifiap_binding.Data.Standards.{
  IsIeeeMask, IsAllowedChannel, set_ieee_standard_accepts, set_channel_accepts,
}
use wifiap_binding.Data.Addresses.{IsAddressText, set_ip_range_accepts}
use wifiap_binding.Data.PreSharedKey.{set_pre_shared_key_bad_byte, set_pre_shared_key_cut}
use wifiap_binding.Ap.Clients.{event_info}
use wifiap_binding.System.{Env, exited, History}
use wifiap_binding.Threads.{
  Threads, ThreadObj, thread_new, thread_running, thread_dying, Answers, JoinAnswer, joined,
  Destructor, write, run_destructors, cleanup_thread, create_thread, cancel_thread, join_thread,
  start_thread, set_thread_joinable, add_destructor_to_thread, find_locked,
}
use wifiap_binding.Threads.Links.{plain_list, plain_list-IsLawful}
use wifiap_binding.Threads.Lifecycle.{
  OneThread, AllSucceed, join_thread_lem, released, cancel_thread_refused,
}
use wifiap_binding.Threads.Lost.{create_thread_loses, cancel_thread_deadlock}
use wifiap_binding.Threads.Cleanup.{cleanup_thread_joinable, cleanup_thread_use_after_free}
use wifiap_binding.Threads.Routine.{Life, IsGone, start_routine, start_routine_lem}
use wifiap_binding.Config.{ieee_section, hw_mode_line, ieee_flags, generate_host_ap_conf_file}
use wifiap_binding.Config.Ieee.{chosen, ieee_section_lem}
use wifiap_binding.Config.Hostapd.{Leaves, hostapd_text, generate_host_ap_conf_file_lem}

-- A working `strdup`.
abbrev strdup : Bytes → Option Bytes
strdup = some

abbrev pub net : Bytes
net = codes "net"

pub net-IsAscii : IsAscii net
unfolding ascii
net-IsAscii = ascii-IsAscii net refl

perform-Keeps_example : Keeps (perform strdup (Call.ssid (some net)) fresh)
perform-Keeps_example =
    perform-Keeps strdup (Call.ssid (some net)) fresh (λ s t e. cc)
      (IsAscii-IsCString net net-IsAscii) fresh-IsWellFormed

perform-Kept_example : Kept (Call.ssid (some [])) fresh fresh
unfolding perform set_ssid_parameter set_buffer
perform-Kept_example =
    perform-Kept strdup (Call.ssid (some [])) fresh fresh Status.error_too_small refl (λ e. cc)

-- Every command succeeds, and every file can be opened and written.
abbrev pub all_well : Env
all_well = record {
  system = λ h c. exited 0;
  readable = λ h f. false;
  can_open = λ h f. true;
  can_write = λ h f b. true;
  script = codes "/opt/wifi_setup.sh";
  inet_pton = λ s. some (length s);
}

generate_host_ap_conf_file_lem_example :
    (r : Bool × History) × (generate_host_ap_conf_file all_well fresh [] ≡ done r)
    × Leaves (hostapd_text fresh) [] r
generate_host_ap_conf_file_lem_example =
    generate_host_ap_conf_file_lem all_well fresh [] fresh-IsWellFormed

ieee_section_lem_example :
    ieee_section 0x54 ≡ done (hw_mode_line (bit_and 0x54 0x000F) ++ chosen (ieee_flags 0x54))
ieee_section_lem_example = ieee_section_lem 0x54

-- The letter a and the two bytes of é.
abbrev ae : List Bytes
ae = (b'a' ∷ []) ∷ (0xC3 ∷ 0xA9 ∷ []) ∷ []

ae-AreCharacters : All IsCharacter ae
unfolding num_bytes_in_char
ae-AreCharacters = ((ground arith, refl), ((ground arith, refl), tt))

copy-join_example :
    copy (zeroed 3) (terminated (join ae)) 3
    ≡ copied (status_for 2 ae) (zeroed 3) (join (fitting 2 ae))
unfolding zeroed
copy-join_example = copy-join (zeroed 3) ae ae-AreCharacters (omega arith)

copy-StaysInBuffer_example : StaysInBuffer 2 (copy (zeroed 2) (0xC3 ∷ []) 2)
unfolding zeroed
copy-StaysInBuffer_example = copy-StaysInBuffer (zeroed 2) (0xC3 ∷ []) 2 refl (omega arith)

append-join_example :
    (r : Copied) × (append (zeroed 8) (terminated (join ae)) 8 ≡ done r)
    × (r.status ≡ le_ok)
    × (c_str r.dest ≡ c_str (zeroed 8) ++ join ae)
    × (r.num_bytes ≡ length (c_str r.dest))
    × (length r.dest ≡ 8)
unfolding zeroed c_str
append-join_example =
    append-join (zeroed 8) ae ae-AreCharacters (ground arith, (ground arith, (ground arith, tt)))
      (ground arith)

to_cidr-mask_text_example : to_cidr (mask_text 24) ≡ done 24
to_cidr-mask_text_example = to_cidr-mask_text 24 (omega arith)

set_ieee_standard_accepts_example :
    (set_ieee_standard_parameter fresh 4 ≡ (no_error, record fresh { ieee_std_mask = 4 }))
    ↔ IsIeeeMask 4
set_ieee_standard_accepts_example = set_ieee_standard_accepts fresh 4

abbrev fresh_g : WifiApT
fresh_g = record fresh { ieee_std_mask = 4 }

set_channel_accepts_example :
    (((set_channel_parameter fresh_g 6).0 ≡ no_error) ↔ IsAllowedChannel 4 6)
    × ((set_channel_parameter fresh_g 6).0 ≡ no_error
        → (set_channel_parameter fresh_g 6).1.channel_number ≡ 6)
    × ((set_channel_parameter fresh_g 6).0 ≢ no_error
        → (set_channel_parameter fresh_g 6).1.channel_number ≡ fresh_g.channel_number)
set_channel_accepts_example = set_channel_accepts fresh_g 6 (inr (inr (inl refl)))

set_ip_range_accepts_example :
    (w' : WifiApT) × (set_ip_range_parameters fresh (some net) (some net) (some net) (some net)
      ≡ done (no_error, w'))
    × (c_str w'.ip_ap ≡ net)
    × (c_str w'.ip_start ≡ net)
    × (c_str w'.ip_stop ≡ net)
    × (c_str w'.ip_netmask ≡ net)
    × (record w' {
      ip_ap = fresh.ip_ap;
      ip_start = fresh.ip_start;
      ip_stop = fresh.ip_stop;
      ip_netmask = fresh.ip_netmask;
    }
        ≡ fresh)
set_ip_range_accepts_example =
    set_ip_range_accepts fresh fresh-IsWellFormed net net net net
      (net-IsAscii, omega arith, omega arith) (net-IsAscii, omega arith, omega arith)
      (net-IsAscii, omega arith, omega arith) (net-IsAscii, omega arith, omega arith)

set_pre_shared_key_bad_byte_example :
    (w' : WifiApT) × (set_pre_shared_key_parameter fresh (some (join ae ++ 0xFF ∷ net))
      ≡ done (no_error, w'))
    × (c_str w'.preshared_key ≡ [])
unfolding num_bytes_in_char
set_pre_shared_key_bad_byte_example =
    set_pre_shared_key_bad_byte fresh fresh-IsWellFormed ae 0xFF net ae-AreCharacters (ground arith)
      refl (omega arith)

set_pre_shared_key_cut_example :
    set_pre_shared_key_parameter fresh (some (join ae ++ 0xC3 ∷ [])) ≡ fault read_out_of_bounds
unfolding num_bytes_in_char
set_pre_shared_key_cut_example =
    set_pre_shared_key_cut fresh fresh-IsWellFormed ae 0xC3 ae-AreCharacters (ground arith)
      (omega arith) (omega arith)

abbrev pub successes : Answers
successes = record {
  calloc_ok = true;
  attr_init = 0;
  setinheritsched = 0;
  setdetachstate = 0;
  inherited_proc_id = 0;
  pthread_create = 0;
  new_handle = 7;
  pthread_cancel = 0;
}

pub successes-AllSucceed : AllSucceed successes
successes-AllSucceed = record {
  calloc_ok = refl;
  attr_init = refl;
  setinheritsched = refl;
  setdetachstate = refl;
}

-- A joinable thread with these destructors, at the pointer 0.
abbrev a_thread : List Destructor → ThreadObj
a_thread destructors = record {
  thread_id = 1;
  name = zeroed 24;
  priority = 0;
  is_joinable = true;
  state = thread_running;
  main_func = 1;
  context = none;
  destructor_list = destructors;
  thread_handle = 7;
  thread_obj_list_change_count = 1;
  set_pid_on_start = false;
  proc_id = 0;
}

abbrev threads_with : ThreadObj → Threads plain_list
threads_with obj = record {
  heap = λ p. if p == 0 then some obj else none;
  next = 1;
  thread_list = 0 ∷ [];
  locked = false;
}

abbrev a_destructor : Destructor
a_destructor = record { destructor = some 1; context = net }

one : (obj : ThreadObj) → obj.thread_id ≡ 1 → OneThread plain_list (threads_with obj) 0 obj
one obj e = record { free = refl; listed = refl; lives = refl; numbered = e }

create_thread_loses_example :
    (t' : Threads plain_list) × (obj' : ThreadObj) × (create_thread plain_list successes net 1 none
        (threads_with (a_thread []))
      ≡ done (some 1, t'))
    × (t'.heap 0 ≡ some (a_thread []))
    × (t'.heap 1 ≡ some obj')
    × (obj'.thread_id ≡ 1)
    × (plain_list.entries t'.thread_list ≡ 1 ∷ [])
    × (find_locked plain_list 1 t' ≡ done (some 1, released plain_list t'))
create_thread_loses_example =
    create_thread_loses plain_list plain_list-IsLawful successes net 1 none
      (threads_with (a_thread [])) 0 (a_thread []) successes-AllSucceed net-IsAscii (omega arith)
      (one (a_thread []) refl) (omega arith)

-- The same answers, but `pthread_cancel` fails.
abbrev no_cancel : Answers
no_cancel = record successes { pthread_cancel = 3 }

cancel_fails :
    cancel_thread plain_list no_cancel 1 (threads_with (a_thread []))
    ≡ done (1, record (threads_with (a_thread [])) { locked = true })
cancel_fails =
    cancel_thread_refused plain_list (threads_with (a_thread [])) 0 (a_thread [])
      (one (a_thread []) refl) no_cancel (ground arith)

abbrev stuck : Threads plain_list
stuck = record (threads_with (a_thread [])) { locked = true }

cancel_thread_deadlock_example :
    (cancel_thread plain_list successes 1 stuck ≡ fault deadlock)
    × (join_thread plain_list joined 1 stuck ≡ fault deadlock)
    × (start_thread plain_list successes 1 stuck ≡ fault deadlock)
    × (set_thread_joinable plain_list successes 1 stuck ≡ fault deadlock)
    × (add_destructor_to_thread plain_list successes 1 none net stuck ≡ fault deadlock)
cancel_thread_deadlock_example =
    cancel_thread_deadlock plain_list no_cancel 1 (threads_with (a_thread [])) stuck 1 cancel_fails
      (ground arith) successes 1 joined none net

cleanup_thread_use_after_free_example :
    cleanup_thread plain_list 0 (threads_with (a_thread (a_destructor ∷ a_destructor ∷ [])))
    ≡ fault use_after_free
cleanup_thread_use_after_free_example =
    cleanup_thread_use_after_free plain_list
      (threads_with (a_thread (a_destructor ∷ a_destructor ∷ []))) 0
      (a_thread (a_destructor ∷ a_destructor ∷ [])) a_destructor a_destructor [] refl refl

abbrev ending : ThreadObj
ending = a_thread (a_destructor ∷ [])

start_routine_lem_example :
    (life : Life) × (t1 : Threads plain_list) × (start_routine plain_list
        (λ m context. 0)
        0
        (threads_with ending)
      ≡ done (life, t1))
    × (life.value ≡ 0)
    × (life.destroyed ≡ net ∷ [])
    × (((ending.is_joinable ≡ false) × IsGone plain_list 0 t1)
        ⊎ ((ending.is_joinable ≡ true)
            × (t2 : Threads plain_list) × (join_thread plain_list joined 1 t1 ≡ done (0, t2))
            × IsGone plain_list 0 t2))
start_routine_lem_example =
    start_routine_lem plain_list plain_list-IsLawful (λ m context. 0) (threads_with ending) 0 ending
      net 1 (one ending refl) refl

-- The events carry the text "WiFi client connected" in full, and "WiFi client disconnect" where the
-- source writes "WiFi client disconnected".
event_info_test :
    (event_info (codes "WiFi client connected") ≡ codes "WiFi client connected")
    × (event_info (codes "WiFi client disconnected") ≡ codes "WiFi client disconnect")
unfolding event_info c_str
event_info_test = (refl, refl)
