-- ===== src/Startup.antt =====
-- How muxer/dispatcher.c starts and ends: `main` and the functions that it calls once. What the
-- operating system answers is an argument.
pub mod Machine
pub mod Steps
pub mod Order
use muxer.Base.{
  ℕ, ◌==◌, ◌||◌, Bool, true, false, List, [], ◌∷◌, ◌++◌, if◌then◌else◌, Option, none, some, Outcome,
  keep, out_of_fuel, ok, ◌>>=◌,
}
use muxer.State.{invalid_socket}
use muxer.Config.{Config}
use muxer.Handshake.{Worker, processing, comm_write, comm_read}
use muxer.Dispatcher.Buffers.{Received}
use muxer.Winsock.{SocketCall, shutdown_socket, codes}

-- The critical sections.
pub data Section : Type 0 where
  app_state : Section
  out_connection : Section
  connections : Section
  r_in_messages : Section
  w_in_messages : Section
  r_out_messages : Section
  w_out_messages : Section
  unicast_msg : Section
  multicast_msg : Section

-- The events.
pub data Handle : Type 0 where
  start_threads : Handle
  do_cleanup : Handle
  cleanup_ended : Handle
  process_data : Handle
  new_message : Handle
  thread_started : Worker → Handle
  thread_stopped : Worker → Handle
  thread_ended : Worker → Handle

pub data Thread : Type 0 where
  cleaner : Thread
  worker : Worker → Thread

-- What `main` asks of the operating system, in calls that succeed. An event is created with its
-- kind (manual reset) and its initial state; a socket is bound to an address and a port.
pub data Act : Type 0 where
  init_section : Section → Act
  delete_section : Section → Act
  create_event : Handle → Bool → Bool → Act
  set_event : Handle → Act
  wait_for : Handle → Act
  wsa_startup : Act
  wsa_cleanup : Act
  close_socket : ℕ → Act
  open_socket : ℕ → Act
  bind_socket : ℕ → ℕ → ℕ → Act
  listen_on : ℕ → Act
  create_thread : Thread → Act
  end_socket : SocketCall → Act

unfoldable pub init_critical_sections : List Act
init_critical_sections =
    init_section app_state
    ∷ init_section out_connection
    ∷ init_section connections
    ∷ init_section r_in_messages
    ∷ init_section w_in_messages
    ∷ init_section r_out_messages
    ∷ init_section w_out_messages
    ∷ init_section unicast_msg
    ∷ init_section multicast_msg
    ∷ []

unfoldable pub delete_critical_sections : List Act
delete_critical_sections =
    delete_section connections
    ∷ delete_section app_state
    ∷ delete_section r_in_messages
    ∷ delete_section w_in_messages
    ∷ delete_section r_out_messages
    ∷ delete_section w_out_messages
    ∷ delete_section unicast_msg
    ∷ delete_section multicast_msg
    ∷ []

-- The operating system: the results of `WSAStartup`, `inet_pton` (`none` if it stores nothing),
-- `htons`, `socket`, `bind` on an address and a port, and of the calls in `shutdown_connection`;
-- what `sin_addr` holds before anything is stored there; which events and threads can be created,
-- whether `listen` succeeds, and whether the cleanup thread comes to set `h_event_cleanup_ended`.
pub record Os : Type 0 where
  pub startup : ℕ
  pub inet_pton : List ℕ → Option ℕ
  pub stale_addr : ℕ
  pub htons : ℕ → ℕ
  pub socket : Option ℕ
  pub bind : ℕ → ℕ → Bool
  pub shutdown_ok : Bool
  pub extra : List Received
  pub close_ok : Bool
  pub event_ok : Handle → Bool
  pub thread_ok : Thread → Bool
  pub listen_ok : Bool
  pub is_cleanup_ended : Bool

-- The configuration before a file is read.
abbrev pub global_config : Config
global_config = record {
  connection_in = record { ip = codes "localhost"; port = 27014 };
  connection_out = record { ip = codes "localhost"; port = 27015 };
  log_info = false;
  log_debug = true;
  log_error = false;
}

-- `INADDR_NONE`.
abbrev pub inaddr_none : ℕ
inaddr_none = 0xffff_ffff

abbrev pub end_socket_acts : List SocketCall → List Act
end_socket_acts [] = []
end_socket_acts (c ∷ calls) = end_socket c ∷ end_socket_acts calls

module _ (os : Os) where
  -- The calls of these that succeed; one on a handle that is NULL fails at once.
  abbrev pub succeeds : Act → Bool
  succeeds (create_event h manual initial) = os.event_ok h
  succeeds (set_event h) = os.event_ok h
  succeeds (wait_for h) = os.event_ok h
  succeeds (create_thread t) = os.thread_ok t
  succeeds a = true

  unfoldable pub create_events : List Act
  create_events = keep succeeds (
      create_event start_threads true true
      ∷ create_event do_cleanup true false
      ∷ create_event cleanup_ended true false
      ∷ create_event process_data false false
      ∷ create_event new_message false false
      ∷ create_event (thread_started processing) false false
      ∷ create_event (thread_started comm_write) false false
      ∷ create_event (thread_started comm_read) false false
      ∷ create_event (thread_stopped processing) true false
      ∷ create_event (thread_stopped comm_write) true false
      ∷ create_event (thread_stopped comm_read) true false
      ∷ create_event (thread_ended processing) false false
      ∷ create_event (thread_ended comm_write) false false
      ∷ create_event (thread_ended comm_read) false false
      ∷ [])

  unfoldable pub spawn_threads : List Act
  spawn_threads = keep succeeds (
      create_thread cleaner
      ∷ create_thread (worker comm_read)
      ∷ create_thread (worker comm_write)
      ∷ create_thread (worker processing)
      ∷ set_event start_threads
      ∷ [])

  -- `sin_addr.s_addr` after `inet_pton`.
  abbrev pub stored_addr : Option ℕ → ℕ
  stored_addr none = os.stale_addr
  stored_addr (some addr) = addr

  unfoldable pub bind_listener : ℕ → ℕ → Option ℕ → List Act × ℕ
  bind_listener addr port none = ([], invalid_socket)
  bind_listener addr port (some sd) =
      if os.bind addr port
      then (
        open_socket sd
            ∷ bind_socket sd addr port
            ∷ (if os.listen_ok then listen_on sd ∷ [] else []),
        sd,
      )
      else (open_socket sd ∷ [], invalid_socket)

  unfoldable pub setup_listener_socket : List ℕ → ℕ → List Act × ℕ
  unfolding bind_listener
  setup_listener_socket address port =
      let addr = stored_addr (os.inet_pton address) in
      if addr == inaddr_none then ([], invalid_socket) else bind_listener addr port os.socket

  -- `none` if the program exits with 1.
  unfoldable pub open_listener_socket : Config → ℕ → List Act × Option ℕ
  unfolding setup_listener_socket
  open_listener_socket config listener_socket =
      let (acts, socket) =
        setup_listener_socket config.connection_in.ip (os.htons config.connection_in.port) in
      (close_socket listener_socket ∷ acts, if socket == invalid_socket then none else some socket)

  -- The wait without a limit, which never ends if the event is there and is not set.
  unfoldable pub wait_for_cleanup : Outcome (List Act)
  wait_for_cleanup =
      if os.event_ok cleanup_ended
      then (if os.is_cleanup_ended then ok (wait_for cleanup_ended ∷ []) else out_of_fuel)
      else ok []

  -- `main` from `spawn_threads` on, with the listener.
  unfoldable pub main_loop : ℕ → Outcome (List Act × ℕ)
  unfolding spawn_threads delete_critical_sections wait_for_cleanup
  main_loop listener_socket = do
    waited ← wait_for_cleanup
    (calls, _) ← shutdown_socket listener_socket os.shutdown_ok os.extra os.close_ok
    ok (
      spawn_threads
          ++ (waited ++ (end_socket_acts calls ++ (delete_critical_sections ++ wsa_cleanup ∷ []))),
      0,
    )

  unfoldable pub main_listening : List Act × Option ℕ → Outcome (List Act × ℕ)
  unfolding main_loop
  main_listening (acts, none) = ok (acts, 1)
  main_listening (acts, some listener_socket) = do
    (more, code) ← main_loop listener_socket
    ok (acts ++ more, code)

  -- `main` with the configuration that it has read: what it does, and the exit code. The global
  -- `listener_socket` is 0 at first.
  unfoldable pub dispatcher_main : Config → Outcome (List Act × ℕ)
  unfolding init_critical_sections create_events open_listener_socket main_listening
  dispatcher_main config =
      if os.startup == 0
      then (do
        (acts, code) ← main_listening (open_listener_socket config 0)
        ok (init_critical_sections ++ (create_events ++ wsa_startup ∷ acts), code))
      else ok (init_critical_sections ++ create_events, 1)
