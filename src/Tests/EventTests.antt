-- ===== src/Tests/EventTests.antt =====
-- Runs of the event threads and of `restart`, and the test of the range of addresses.
use wifiap_binding.Base.{
  inl, ◌≡◌, ◌⊎◌, refl, ◌++◌, true, none, some, List, [], ◌∷◌, done, fault, use_after_free,
  null_pointer, arith, take, drop,
}
use wifiap_binding.Base.Int.{pos}
use wifiap_binding.Base.Bytes.{Bytes, codes}
use wifiap_binding.System.{Env}
use wifiap_binding.Data.Types.{status_fail}
use wifiap_binding.Threads.Links.{plain_list, plain_list-IsLawful}
use wifiap_binding.Ap.{World}
use wifiap_binding.Ap.Clients.{main_loop}
use wifiap_binding.Ap.Events.{opening, reading, Pipes, Move, advance, cancel, run_schedule}
use wifiap_binding.Ap.Events.Alone.{IsAt}
use wifiap_binding.Ap.Events.Schedules.{rounds, run_schedule_alone_lem}
use wifiap_binding.Ap.Events.Ending.{EndsWith, run_schedule_ends}
use wifiap_binding.Ap.Events.Shared.{run_schedule_faults}
use wifiap_binding.Ap.Service.{IsReady}
use wifiap_binding.Ap.Start.{was_configured, check_file_exists}
use wifiap_binding.Ap.Stop.{restart}
use wifiap_binding.Ap.Restart.{IsLost, restart_loses}
use wifiap_binding.Tests.{net, all_well}
use wifiap_binding.Tests.ApTests.{
  settings, settings-IsReady, launching, launching-CanLaunch, event_thread, started_world,
  started_world-IsEventThread,
}

abbrev two_lines : List Bytes
two_lines = codes "net: new station 1" ∷ codes "net: del station 1" ∷ []

-- No pipe is open, and the thread 0 is at its start.
abbrev fresh_pipes : Pipes
fresh_pipes = record {
  iw_thread_pipe_ptr = none;
  streams = λ p. none;
  next = 0;
  pc = λ i. opening;
  events = [];
}

abbrev step_0 : Move
step_0 = record { thread = 0; action = advance }

-- The thread opens the pipe, reads a line and is cancelled.
abbrev cut_short : List Move
cut_short = step_0 ∷ step_0 ∷ record { thread = 0; action = cancel } ∷ step_0 ∷ step_0 ∷ step_0 ∷ []

run_schedule_alone_lem_example :
    (t : Pipes) × (run_schedule (λ i. net) (λ i. some two_lines) cut_short fresh_pipes ≡ done t)
    × (t.events ≡ [] ++ (main_loop net (take (rounds cut_short) two_lines) (pos 0)).1)
    × IsAt net (take (rounds cut_short) two_lines) (drop (rounds cut_short) two_lines) (t.pc 0) t
run_schedule_alone_lem_example =
    run_schedule_alone_lem (λ i. net) (λ i. some two_lines) 0 cut_short fresh_pipes refl (inl refl)
      (refl, (refl, (refl, (refl, (refl, (refl, tt))))))

abbrev whole : List Move
whole = step_0 ∷ step_0 ∷ step_0 ∷ step_0 ∷ step_0 ∷ step_0 ∷ step_0 ∷ []

run_schedule_ends_example :
    EndsWith
      (λ i. net)
      (λ i. some two_lines)
      0
      []
      (main_loop net two_lines (pos 0)).1
      (run_schedule (λ i. net) (λ i. some two_lines) whole fresh_pipes)
run_schedule_ends_example =
    run_schedule_ends (λ i. net) (λ i. some two_lines) 0 two_lines whole fresh_pipes refl refl
      (refl, (refl, (refl, (refl, (refl, (refl, (refl, tt))))))) (omega arith)

-- Two threads read.
abbrev shared_pipes : Pipes
shared_pipes = record {
  iw_thread_pipe_ptr = some 0;
  streams = λ p. some two_lines;
  next = 1;
  pc = λ i. reading (pos 0);
  events = [];
}

run_schedule_faults_example :
    (run_schedule
        (λ i. net)
        (λ i. none)
        (record { thread = 0; action = cancel }
          ∷ step_0
          ∷ step_0
          ∷ record { thread = 1; action = advance }
          ∷ [])
        shared_pipes
      ≡ fault use_after_free)
    × (run_schedule
          (λ i. net)
          (λ i. none)
          (record { thread = 0; action = cancel }
            ∷ step_0
            ∷ step_0
            ∷ step_0
            ∷ record { thread = 1; action = advance }
            ∷ [])
          shared_pipes
        ≡ fault null_pointer)
run_schedule_faults_example =
    run_schedule_faults (λ i. net) (λ i. none) 0 1 shared_pipes (pos 0) (pos 0) 0 two_lines
      (λ e. omega arith) refl refl refl refl

-- The files of dnsmasq are there.
abbrev configured_before : Env
configured_before = record all_well { readable = λ h file. true }

configured_before-IsReady : IsReady configured_before settings
configured_before-IsReady =
    let h = settings-IsReady in
    record {
      well_formed = h.well_formed;
      interface = h.interface;
      host = h.host;
      domain = h.domain;
      netmask = h.netmask;
      opens_hosts = λ h. refl;
      opens_dnsmasq = λ h. refl;
    }

restart_loses_example :
    (w' : World plain_list) × (restart plain_list configured_before launching started_world
      ≡ done w')
    × (IsLost plain_list configured_before 0 event_thread settings w'
        ⊎ (w'.settings.status ≡ status_fail))
unfolding was_configured check_file_exists
restart_loses_example =
    restart_loses plain_list plain_list-IsLawful configured_before launching started_world 0
      event_thread configured_before-IsReady launching-CanLaunch started_world-IsEventThread
      (omega arith) refl

-- An address below the range; `inet_pton` is the length of its text here.
abbrev apart : World plain_list
apart = record started_world {
  settings = record settings {
    ip_ap = codes "192.168.2.1" ++ 0 ∷ [];
    ip_start = codes "192.168.2.10" ++ 0 ∷ [];
    ip_stop = codes "192.168.2.100" ++ 0 ∷ [];
  };
}
