-- ===== src/Tests/Startups.antt =====
-- Runs of `main` of muxer/dispatcher.c.
use muxer.Base.{◌+◌, ◌*◌, ◌/◌, ◌%◌, refl, true, false, [], ◌∷◌, some, Ends}
use muxer.Dispatcher.Buffers.{received}
use muxer.Startup.{Os, global_config, dispatcher_main}
use muxer.Startup.Machine.{idle}
use muxer.Startup.Steps.{IsProvided, Ended, ended_on, ready}
use muxer.Startup.Order.{dispatcher_main-Ended}

-- The listener is socket 6, and `shutdown` refuses a socket that is not connected.
abbrev listening_os : Os
listening_os = record {
  startup = 0;
  inet_pton = λ text. some 0x0100_007f;
  stale_addr = 0;
  htons = λ port. port % 256 * 256 + port / 256;
  socket = some 6;
  bind = λ addr port. true;
  shutdown_ok = false;
  extra = received [] ∷ [];
  close_ok = true;
  event_ok = λ h. true;
  thread_ok = λ t. true;
  listen_ok = true;
  is_cleanup_ended = true;
}

listening_os-IsProvided : IsProvided listening_os
listening_os-IsProvided = record { events = λ h. refl; threads = λ t. refl; cleanup = refl }

-- The listener stays open.
dispatcher_main-Ended_example :
    Ends (Ended idle (ended_on false true 6) 0) (dispatcher_main listening_os global_config)
dispatcher_main-Ended_example =
    dispatcher_main-Ended listening_os global_config listening_os-IsProvided refl tt

-- The port is taken: the program exits, with the socket open.
abbrev busy_os : Os
busy_os = record listening_os { bind = λ addr port. false }

port_taken : Ends (Ended idle (ready true (6 ∷ [])) 1) (dispatcher_main busy_os global_config)
port_taken =
    dispatcher_main-Ended busy_os global_config
      (record { events = λ h. refl; threads = λ t. refl; cleanup = refl }) refl tt

-- `listen` fails: the program runs all the same, and no client can reach it.
abbrev deaf_os : Os
deaf_os = record listening_os { listen_ok = false }

not_listening : Ends (Ended idle (ended_on false false 6) 0) (dispatcher_main deaf_os global_config)
not_listening =
    dispatcher_main-Ended deaf_os global_config
      (record { events = λ h. refl; threads = λ t. refl; cleanup = refl }) refl tt
