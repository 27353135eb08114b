-- ===== src/System.antt =====
-- The operating system as the binding meets it through the C library: commands run by `system`, and
-- files under /tmp. What it answers is not code of this repository, so it is a parameter, `Env`,
-- whose answers may depend on all that was done before, kept as a list with the latest event first.
pub mod Files
pub mod Format
pub mod Scan
pub mod Decimal
use wifiap_binding.Base.{ℕ, Bool, true, false, not, ◌&&◌, List, [], ◌∷◌, ◌==◌, Option}
use wifiap_binding.Base.Bytes.{Bytes}

-- The files that the binding writes or looks for.
pub data File : Type 0 where
  hosts_file dnsmasq_file hostapd_file : File

pub data Event : Type 0 where
  ran : Bytes → Event
  opened : File → Event
  wrote : File → Bytes → Event
  closed : File → Event
  removed : File → Event

abbrev pub History : Type 0
History = List Event

-- What `system` returns: the shell exited, a signal ended it, or no process could be made (-1).
pub data WaitStatus : Type 0 where
  exited : ℕ → WaitStatus
  signaled : ℕ → WaitStatus
  not_run : WaitStatus

-- `WIFEXITED` and `WEXITSTATUS` of <sys/wait.h>, and the test `status == 0`.
unfoldable pub wifexited : WaitStatus → Bool
wifexited (exited code) = true
wifexited (signaled signal) = false
wifexited not_run = false

unfoldable pub wexitstatus : WaitStatus → ℕ
wexitstatus (exited code) = code
wexitstatus (signaled signal) = 0
wexitstatus not_run = 255

unfoldable pub is_zero : WaitStatus → Bool
is_zero (exited code) = code == 0
is_zero (signaled signal) = false
is_zero not_run = false

-- `(WIFEXITED(status)) && (0 == WEXITSTATUS(status))`, the negation of the code's usual test.
unfoldable pub succeeded : WaitStatus → Bool
unfolding wifexited wexitstatus
succeeded status = wifexited status && wexitstatus status == 0

pub record Env : Type 0 where
  -- the answers of `system`, `fopen(…, "r")`, `fopen(…, "w")` and a full `fwrite`
  pub system : History → Bytes → WaitStatus
  pub readable : History → File → Bool
  pub can_open : History → File → Bool
  pub can_write : History → File → Bytes → Bool
  -- the path of the platform script, fixed when the binding is built
  pub script : Bytes
  -- `inet_pton(AF_INET, …)`: the address in host order, if the text is one
  pub inet_pton : Bytes → Option ℕ
