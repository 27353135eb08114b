-- ===== src/Lib.antt =====
-- The Wi-Fi access point binding: the settings and their setters, the configuration files for hostapd
-- and dnsmasq, the thread that watches the clients, and the verbs that start and stop the access point.
--
-- A request sets parameters of one structure (src/lib/wifi-ap-data.c). `start` checks it, writes the
-- configuration files (src/lib/wifi-ap-config.c), runs the platform script and launches the event
-- thread (src/lib/wifi-ap-thread.c); `stop` undoes this (src/wifiAp.c).
--
-- Files:
-- - Base: shared names, lists and options over the native numbers, C strings as byte lists, and
--   `Outcome`, what a C call comes to: it returns, or it faults (NULL, out of bounds, use after free,
--   uninitialised read, failed assertion, deadlock).
-- - Utf8: utf8_NumBytesInChar, utf8_Copy and utf8_Append of src/lib/wifi-ap-utilities.c. The source of
--   a copy is its memory with the terminator; a read past it is a fault.
-- - Netmask: toCidr, with the part of sscanf that it uses.
-- - Data: `wifiApT` and its setters. Data/Types has the constants and the structure, Data/Setters and
--   Data/Radio the setters, Data/Calls one type for all calls of setters with the invariant.
--   Data/Spec presents the settings as documented, and Data/Spec/Sequence relates the setters to it.
-- - System: the operating system as a parameter `Env`, whose answers may depend on all that was done
--   before; the history of commands and file events; the conversions of snprintf.
-- - Config: createHostsConfigFile, createDnsmasqConfigFile, GenerateHostApConfFile, writeApConfigFile.
-- - Threads: the thread objects in a heap, their list, the mutex. The lists of <urcu/list.h> are the
--   interface `CdsList` with the laws `IsLawful`. Threads/Routine is PThreadStartRoutine.
-- - Ap: src/wifiAp.c. Ap/Dnsmasq is setDnsmasqService, Ap/Start startAp and the verb start, Ap/Stop
--   the verbs stop and restart with the end of the event thread, Ap/Clients the loop of the event
--   thread, Ap/Events the same thread step by step, with others that share its pipe and with cancels,
--   in any schedule; Ap/Keep carries a property through the verbs, Ap/Frame proves what they leave
--   alone, Ap/Mutex that they leave the mutex free, Ap/Written what a start writes; Ap/Ends,
--   Ap/Service, Ap/Launch, Ap/Status, Ap/Stopped, Ap/Restart, Ap/Cycle, Ap/Range, Ap/Verbs, Ap/Tally and
--   Ap/Stale hold proofs.
-- - Replies: the replies to a request. Binder: what the binding asks of the application framework and
--   of json-c, as an interface with the laws `IsLawful`.
-- - Requests: the get_single_… functions, single_string_set, single_uint32_set and the replies with one
--   value, of src/wifiAp.c; Requests/Bounds and Requests/RoundTrip hold proofs.
-- - Api: the verbs of src/wifiAp.c and their table (Api/Setters, Api/Getters, Api/Table); Api/Calls
--   and Api/Asked relate the setting verbs to the setters, Api/Reach has the states that requests lead to, and
--   Api/Served those of them where the calls for threads succeed.
-- - Init: createWifiApData and the initialisation in binding_ctl of src/wifiAp.c; its children follow
--   the loop over the keys.
-- - Tests: runs on concrete inputs.
--
-- Return codes are kept without their sign. The C library's answers are arguments: `strdup`, the
-- results of pthread calls (`Answers`, `JoinAnswer`), `system`, `fopen`, `fwrite`, `inet_pton`. A `%s` of
-- NULL is a fault. Decimal numbers are printed with twenty digits of fuel, enough below 2 ^ 64. The
-- counts of clients and the numbers that sscanf reads are kept whole; each is the `int` of the source as
-- long as it fits in 32 bits. A file's content is what the binding itself has written: the platform
-- script, which appends a line to dnsmasq's file, is not seen. The nodes of a destructor list have
-- addresses of their own, and a node that was freed cannot be read. `status_mutex` guards single assignments and is
-- left out. For the verbs, steps are taken one after the other: the event thread moves only where it
-- is waited for, and between requests in one step to its end. In Ap/Events the threads move in any
-- order, one call of `popen`, `fgets` or `pclose` or one use of the shared pointer at a time; the lines
-- of the pipe are what `fgets` will return, and the interface of a thread stays as it is.
--
-- Requests are taken one at a time and JSON objects are immutable. A request carries the answers to the
-- calls that its callback makes. The messages that only log are left out.
--
-- Not modelled: the parsing of the JSON file and json-c, logging, the freeing of the structure when the
-- initialisation fails, the text of the info verb, the thread-local data, the interleaving of the event
-- thread with the verbs, the shell scripts, and the TEST_MODE code.
pub mod Base
pub mod Utf8
pub mod Netmask
pub mod Data
pub mod System
pub mod Config
pub mod Threads
pub mod Replies
pub mod Binder
pub mod Requests
pub mod Api
pub mod Init
pub mod Ap
pub mod Tests
